-- ===== src/WorkItems.antt =====
-- Business work items: the aggregate with its optimistic version and its events.
pub mod Model
pub mod Aggregate
pub mod Plans
pub mod Versions
pub mod Repository
pub mod Checked
pub mod Written
pub mod Outcomes
pub mod Mutating
