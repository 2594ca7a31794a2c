-- ===== src/Workflow/AtMostOnce.antt =====
-- How many commands for one action a list of requests hands to an executor.
use mathlib.Core.Path.{subst}
use enterprise_communication.Prelude.{
  ℕ, ◌+◌, ◌≤◌, ◌≡◌, ◌≢◌, refl, sym, ◌∙◌, Bool, List, [], ◌∷◌, ◌++◌, arith, ◌==◌, ==_iff, Bool-cases,
  inl, inr,
}
use enterprise_communication.Errors.{Result, ok, err}
use enterprise_communication.Text.{Text}
use enterprise_communication.Identity.Model.{AuthenticatedPrincipal}
use enterprise_communication.Storage.Table.{count_where}
use enterprise_communication.Storage.Db.{Db}
use enterprise_communication.Storage.Keeps.{Safe}
use enterprise_communication.Storage.Yields.{Yields, Yields-pure, Yields-bind, Yields-keep}
use enterprise_communication.Storage.UnitOfWork.{World}
use enterprise_communication.Workflow.Begun.{Unique, Begun, IsHonest}
use enterprise_communication.Workflow.Guarantee
use enterprise_communication.Workflow.Starting.{Started, commit_executing-Started}
use enterprise_communication.Workflow.Refusing.{Underway, commit_executing_refused}
use enterprise_communication.Workflow.Execution.{
  CommunicationActionExecution, ExecutorOutcome, commit_executing, prepare, deliver, execute,
}
use enterprise_communication.Workflow.Requests.{
  Request, executing, Begun-IsKept, Unique-IsKept, Underway-IsKept, AllUnique, AllUnique-IsKept,
  one_of, serve, serve_all, serve_keeps, deliver_keeps,
}

-- The number of commands for one action.
abbrev pub sends : ℕ → List CommunicationActionExecution → ℕ
sends id commands = count_where (λ c. c.action_id == id) commands

sends-append :
    (id : ℕ) (xs ys : List CommunicationActionExecution)
    → sends id (xs ++ ys) ≡ sends id xs + sends id ys
sends-append id [] ys = omega arith
sends-append id (x ∷ xs) ys = ground (arith, sends-append id xs ys)

module _ (resolves : Text → Text → Bool)
    (executor : CommunicationActionExecution → ExecutorOutcome) where
  module _ (now k : ℕ) (p : AuthenticatedPrincipal) where
    prepare-Started :
        Yields
          (Safe IsHonest (Unique k))
          (prepare resolves executor now k p)
          (λ r w. Started k r.1 w)
    unfolding prepare
    prepare-Started =
        let kept = Unique-IsKept k in
        Yields-keep _ _
          (Guarantee.require_existing_user-Keeps (Unique k) kept.stable kept.inserts kept.updates
            kept.accounts p)
          (λ u.
            Yields-bind (Started k) (commit_executing resolves u k) _
              (commit_executing-Started k resolves u) (λ c. Yields-pure _ (λ w h. h)))

    prepare_refused :
        Yields (Safe IsHonest (Underway k)) (prepare resolves executor now k p) (λ r w. ⊥)
    unfolding prepare
    prepare_refused =
        let kept = Underway-IsKept k in
        Yields-keep _ _
          (Guarantee.require_existing_user-Keeps (Underway k) kept.stable kept.inserts kept.updates
            kept.accounts p)
          (λ u.
            Yields-bind (λ c w. ⊥) (commit_executing resolves u k) _
              (commit_executing_refused k u resolves) (λ c. Yields-pure _ (λ w h. h)))

  deliver_once :
      (id now k : ℕ) (r : Result (ℕ × CommunicationActionExecution)) (w : World Db)
      → ((a : ℕ × CommunicationActionExecution) → r ≡ ok a → Started k a.1 w)
      → let run = deliver resolves executor now k r w in
        (sends id run.sent ≤ 1) × (sends id run.sent ≢ 0 → Safe IsHonest (Begun id) run.world)
  unfolding deliver
  deliver_once id now k (err e) w started = (omega arith, λ some_sent. absurd (some_sent refl))
  deliver_once id now k (ok (u, c)) w started = (
    ground arith,
    λ some_sent. elim (Bool-cases (c.action_id == id)) [
      | inl same ↦
          let at = started (u, c) refl in
          deliver_keeps resolves executor (Begun id) (Begun-IsKept id) now k (ok (u, c)) w (
            subst (λ j. Safe IsHonest (Begun j) w) (sym at.1 ∙ (==_iff c.action_id id).0 same) at.0)
      | inr apart ↦ absurd (some_sent (ground arith))
    ],
  )

  deliver_other :
      (id now k : ℕ) (r : Result (ℕ × CommunicationActionExecution)) (w : World Db)
      → ((a : ℕ × CommunicationActionExecution) → r ≡ ok a → (a.1.action_id ≡ k) × (k ≢ id))
      → sends id (deliver resolves executor now k r w).sent ≡ 0
  unfolding deliver
  deliver_other id now k (err e) w other = refl
  deliver_other id now k (ok (u, c)) w other = ground (arith, other (u, c) refl)

  serve_once :
      (id : ℕ) (r : Request) (w : World Db)
      → Safe IsHonest AllUnique w
      → let (sent, w') = serve resolves executor r w in
        (sends id sent ≤ 1) × (sends id sent ≢ 0 → Safe IsHonest (Begun id) w')
  unfolding execute
  serve_once id (executing now p k) w h =
      deliver_once id now k _ _ ((prepare-Started now k p).at w (one_of k w h))
  serve_once id r w h = (omega arith, λ some_sent. absurd (some_sent refl))

  serve_done :
      (id : ℕ) (r : Request) (w : World Db)
      → Safe IsHonest AllUnique w
      → Safe IsHonest (Begun id) w
      → sends id (serve resolves executor r w).0 ≡ 0
  unfolding execute
  serve_done id (executing now p k) w h b = deliver_other id now k _ _ (λ a e.
      elim (Bool-cases (k == id)) [
        | inl same ↦
            let begun = subst (λ j. Safe IsHonest (Begun j) w) (sym ((==_iff k id).0 same)) b in
            absurd (
              (prepare_refused now k p).at w
                (record {
                  pending = (h.pending k, begun.pending);
                  durable = (h.durable k, begun.durable);
                  rely = h.rely;
                })
                a e)
        | inr apart ↦ (
          ((prepare-Started now k p).at w (one_of k w h) a e).1,
          λ same. ground (arith, (==_iff k id).1 same),
        )
      ])
  serve_done id r w h b = refl

  serve_all_done :
      (id : ℕ) (rs : List Request) (w : World Db)
      → Safe IsHonest AllUnique w
      → Safe IsHonest (Begun id) w
      → sends id (serve_all resolves executor rs w) ≡ 0
  serve_all_done id [] w h b = refl
  serve_all_done id (r ∷ rs) w h b =
      let rest =
        serve_all_done id rs (serve resolves executor r w).1
          (serve_keeps resolves executor AllUnique AllUnique-IsKept r w h)
          (serve_keeps resolves executor (Begun id) (Begun-IsKept id) r w b) in
      omega (
        arith,
        sends-append id (serve resolves executor r w).0
            (serve_all resolves executor rs (serve resolves executor r w).1),
        serve_done id r w h b,
        rest,
      )

  -- Over any list of create, approve, reject and execute calls, for any action at most one command
  -- is handed to an executor, when ids are unique at the start and the other sessions keep ids
  -- unique and begun executions begun; statements and commits may fail anywhere.
  pub at_most_once :
      (id : ℕ) (rs : List Request) (w : World Db)
      → Safe IsHonest AllUnique w
      → sends id (serve_all resolves executor rs w) ≤ 1
  at_most_once id [] w h = omega arith
  at_most_once id (r ∷ rs) w h =
      let sent = (serve resolves executor r w).0 in
      let w' = (serve resolves executor r w).1 in
      let h' = serve_keeps resolves executor AllUnique AllUnique-IsKept r w h in
      let total = sends-append id sent (serve_all resolves executor rs w') in
      elim (Bool-cases (sends id sent == 0)) [
        | inl silent ↦
            omega (arith, total, (==_iff (sends id sent) 0).0 silent, at_most_once id rs w' h')
        | inr spoke ↦
            let once = serve_once id r w h in
            let begun = once.1 (λ e. absurd (ground (arith, (==_iff (sends id sent) 0).1 e))) in
            omega (arith, total, once.0, serve_all_done id rs w' h' begun)
      ]
