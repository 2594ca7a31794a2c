-- ===== src/Storage.antt =====
-- What the repositories and services stand on: SQL statements over a table's rows, and the unit
-- of work of app/infrastructure/storage/unit_of_work.py.
pub mod Table
pub mod UnitOfWork
pub mod Keeps
pub mod Yields
pub mod Returned
pub mod Db
