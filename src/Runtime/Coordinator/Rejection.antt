-- ===== src/Runtime/Coordinator/Rejection.antt =====
-- What an error of `submit` of autellix/runtime/engine.py leaves.
use autellix.Prelude.{
  ℕ, ◌≡◌, ◌⊎◌, inl, inr, List, Option, none, err, arith, Result-cases, List-cases, length, sym, ap,
}
use autellix.Prelude.Dict.{update}
use autellix.Prelude.Int.{ℤ}
use autellix.Runtime.Coordinator.State.{Coordinator, CoordinatorError}
use autellix.Runtime.Coordinator.{
  Answer, healthy, place, enqueue, submit, pin_session, checked_session,
}

-- What an error leaves of a request: only its session's engine and the table may differ.
pub record Rejected (pid : ℕ) (c d : Coordinator) : Type 0 where
  pub engine : Option ℕ
  pub sessions :
      (d.sessions ≡ c.sessions)
      ⊎ (d.sessions ≡ update pid (λ s. record s { engine = engine }) c.sessions)
  pub pending : d.pending ≡ c.pending
  pub futures : d.futures ≡ c.futures
  pub loads : d.loads ≡ c.loads
  pub sent : d.sent ≡ c.sent
  pub rest : (d.backends ≡ c.backends) × (d.rpc ≡ c.rpc) × (d.failures ≡ c.failures)

enqueue-left :
    (pid rid call_id thread_id now index : ℕ) (c d : Coordinator) (x : CoordinatorError)
    → enqueue pid rid call_id thread_id now index c ≡ (d, err x)
    → d ≡ record c { table = d.table }
unfolding enqueue
enqueue-left pid rid call_id thread_id now index c d x e = ground arith

-- A submission that raises an error, in any of its checks or in the table, adds no request: the
-- pending requests, the futures, the loads and the commands are as before, and of its session at
-- most the engine has changed.
pub submit-Rejected :
    (pid rid call_id thread_id now : ℕ) (tokens : List ℤ) (c d : Coordinator) (x : CoordinatorError)
    → submit pid rid call_id thread_id now tokens c ≡ (d, err x)
    → Rejected pid c d
unfolding submit
submit-Rejected pid rid call_id thread_id now tokens c d x e =
    elim (Result-cases (checked_session pid call_id tokens c)) [
      | inr (y, bad) ↦ same (rw (bad, submit) at e)
      | inl (session, good) ↦ elim (List-cases (healthy c)) [
        | inl none_left ↦ same (rw (good, none_left, submit) at e)
        | inr (first, others, up) ↦
            let p = place c.threshold c.loads (length tokens) first others session.engine in
            let pinned = pin_session pid (p.1) c in
            let after =
              enqueue-left pid rid call_id thread_id now (p.0) pinned d x
                (rw (good, up, submit) at e) in
            record {
              engine = p.1;
              sessions = inr (ap (λ y. y.sessions) after);
              pending = ap (λ y. y.pending) after;
              futures = ap (λ y. y.futures) after;
              loads = ap (λ y. y.loads) after;
              sent = ap (λ y. y.sent) after;
              rest =
                  (ap (λ y. y.backends) after, ap (λ y. y.rpc) after, ap (λ y. y.failures) after);
            }
      ]
    ]
  where
    same : {y : CoordinatorError} → ◌≡◌ {A = Answer} (c, err y) (d, err x) → Rejected pid c d
    same h = record {
      engine = none;
      sessions = inl (ap (λ (q : Answer). q.0.sessions) (sym h));
      pending = ap (λ (q : Answer). q.0.pending) (sym h);
      futures = ap (λ (q : Answer). q.0.futures) (sym h);
      loads = ap (λ (q : Answer). q.0.loads) (sym h);
      sent = ap (λ (q : Answer). q.0.sent) (sym h);
      rest = (
        ap (λ (q : Answer). q.0.backends) (sym h),
        ap (λ (q : Answer). q.0.rpc) (sym h),
        ap (λ (q : Answer). q.0.failures) (sym h),
      );
    }
