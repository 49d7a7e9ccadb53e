-- ===== src/Core/Simulator/Accounting.antt =====
-- The execution time of calls through a tick of autellix/core/simulator.py.
use autellix.Prelude.{
  ℕ, ◌+◌, ◌<◌, ◌≡◌, subst, inl, inr, true, List, [], ◌∷◌, ◌++◌, some, ok, arith, mem, Distinct,
  mem-occurrences, ◌==◌, ==_iff, Bool-cases, Option-cases, ok_injective, some_injective, >>=-eq-ok,
}
use autellix.Prelude.Dict.{Dict, lookup, insert, update, lookup-insert, lookup-update}
use autellix.Core.State.{CallState, CallStatus, EngineState, iter_queued}
use autellix.Core.Engine.{fill_loop, fill_from_prefetch, start_call, started}
use autellix.Core.Policy.{Store, complete_call}
use autellix.Core.Simulator.{
  tick_call, execute_loop, complete_all, tick_wait, waited, execute_one_tick, Ticked, Tick,
}

-- What a call has executed and what it has left are its whole model time.
abbrev pub IsAccounted : Dict CallState → Type 0
IsAccounted calls =
    (r : ℕ) (c : CallState)
    → lookup r calls ≡ some c
    → c.executed_time + c.remaining_time ≡ c.model_time

abbrev pub HasTimeLeft : List ℕ → Dict CallState → Type 0
HasTimeLeft rs calls =
    (r : ℕ) (c : CallState) → mem r rs ≡ true → lookup r calls ≡ some c → 0 < c.remaining_time

tick_call_lem :
    (c : CallState)
    → c.executed_time + c.remaining_time ≡ c.model_time
    → 0 < c.remaining_time
    → (tick_call c).1.executed_time + (tick_call c).1.remaining_time ≡ (tick_call c).1.model_time
unfolding tick_call
tick_call_lem c h p = ground arith

insert-IsAccounted :
    (r : ℕ) (d : CallState) (calls : Dict CallState)
    → d.executed_time + d.remaining_time ≡ d.model_time
    → IsAccounted calls
    → IsAccounted (insert r d calls)
insert-IsAccounted r d calls h all q c p = elim (Bool-cases (r == q)) [
  | inl e ↦
      let same : some d ≡ some c = ground (arith, lookup-insert r q d calls) in
      subst (λ x. x.executed_time + x.remaining_time ≡ x.model_time) (some_injective same) h
  | inr e ↦ all q c (ground (arith, lookup-insert r q d calls))
]

update-IsAccounted :
    (r : ℕ) (f : CallState → CallState) (calls : Dict CallState)
    → ((c : CallState)
        → c.executed_time + c.remaining_time ≡ c.model_time
        → (f c).executed_time + (f c).remaining_time ≡ (f c).model_time)
    → IsAccounted calls
    → IsAccounted (update r f calls)
update-IsAccounted r f calls keeps all q c p = elim (Bool-cases (r == q)) [
  | inr e ↦ all q c (ground (arith, lookup-update r q f calls))
  | inl e ↦ elim (Option-cases (lookup q calls)) [
    | inl missing ↦ absurd (ground (arith, lookup-update r q f calls))
    | inr (b, there) ↦
        let same : some (f b) ≡ some c = ground (arith, lookup-update r q f calls) in
        subst (λ x. x.executed_time + x.remaining_time ≡ x.model_time) (some_injective same)
          (keeps b (all q b there))
  ]
]

complete_call-IsAccounted :
    (r time : ℕ) (st after : Store)
    → IsAccounted st.calls
    → complete_call r time st ≡ ok after
    → IsAccounted after.calls
unfolding complete_call
complete_call-IsAccounted r time st after all h = elim (Option-cases (lookup r st.calls)) [
  | inl missing ↦ absurd (let g = rw missing at h in cc)
  | inr (c, p) ↦ elim (Option-cases (lookup c.spec.program_id st.processes)) [
    | inl missing ↦ absurd (let g = rw (p, missing) at h in cc)
    | inr (entry, q) ↦
        let done : CallState = record c { status = CallStatus.finished; finish_time = some time } in
        subst (λ x. IsAccounted x.calls) (ok_injective (rw (p, q) at h))
          (insert-IsAccounted r done st.calls (all r c p) all)
  ]
]

-- The running calls that are still to tick have time left when the first has ticked.
HasTimeLeft-tail :
    (r : ℕ) (d : CallState) (rs : List ℕ) (calls : Dict CallState)
    → Distinct (r ∷ rs)
    → HasTimeLeft (r ∷ rs) calls
    → HasTimeLeft rs (insert r d calls)
HasTimeLeft-tail r d rs calls one left q c m p =
    left q c (ground arith)
      (ground (arith, lookup-insert r q d calls, one q, mem-occurrences q rs, ==_iff r q))

execute_loop-IsAccounted :
    (rs : List ℕ) (st : Store) (t : Ticked)
    → Distinct rs
    → HasTimeLeft rs st.calls
    → IsAccounted st.calls
    → execute_loop rs st ≡ ok t
    → IsAccounted t.store.calls
unfolding execute_loop
execute_loop-IsAccounted [] st t one left all h =
    subst (λ x. IsAccounted x.store.calls) (ok_injective h) all
execute_loop-IsAccounted (r ∷ rs) st t one left all h = elim (Option-cases (lookup r st.calls)) [
  | inl missing ↦ absurd (let g = rw missing at h in cc)
  | inr (c, p) ↦
      let d = (tick_call c).1 in
      let ticked = tick_call_lem c (all r c p) (left r c (ground arith) p) in
      let (u, more, same) = >>=-eq-ok (execute_loop rs _) _ (rw p at h) in
      subst (λ x. IsAccounted x.store.calls) (ok_injective same)
        (execute_loop-IsAccounted rs _ u (λ q. ground (arith, one q))
          (HasTimeLeft-tail r d rs st.calls one left) (insert-IsAccounted r d st.calls ticked all)
          more)
]

complete_all-IsAccounted :
    (rs : List ℕ) (time : ℕ) (st : Store) (e : EngineState) (q : Store × EngineState)
    → IsAccounted st.calls
    → complete_all rs time st e ≡ ok q
    → IsAccounted q.0.calls
unfolding complete_all
complete_all-IsAccounted [] time st e q all h =
    subst (λ x. IsAccounted x.0.calls) (ok_injective h) all
complete_all-IsAccounted (r ∷ rs) time st e q all h =
    let (next, first, rest) = >>=-eq-ok (complete_call r time st) _ h in
    complete_all-IsAccounted rs time next _ q (complete_call-IsAccounted r time st next all first)
      rest

tick_wait-IsAccounted :
    (rs : List ℕ) (calls : Dict CallState) → IsAccounted calls → IsAccounted (tick_wait rs calls)
unfolding tick_wait
tick_wait-IsAccounted [] calls all = all
tick_wait-IsAccounted (r ∷ rs) calls all =
    tick_wait-IsAccounted rs (update r waited calls)
      (update-IsAccounted r waited calls (λ c h. h) all)

fill_loop-IsAccounted :
    (ps : List ℕ) (time : ℕ) (calls : Dict CallState) (e : EngineState)
    → IsAccounted calls
    → IsAccounted (fill_loop ps time calls e).calls
unfolding fill_loop start_call
fill_loop-IsAccounted [] time calls e all = all
fill_loop-IsAccounted (r ∷ ps) time calls e all = ground (
  arith,
  all,
  fill_loop-IsAccounted ps time (update r (started time) calls)
      (record e { running = e.running ++ (r ∷ []) })
      (update-IsAccounted r (started time) calls (λ c h. h) all),
)

-- A tick of an engine keeps, for every call of the simulation, that what it has executed and what
-- it has left are its whole model time, if each call runs once and the running calls have time
-- left.
pub execute_one_tick-IsAccounted :
    (time window_remaining : ℕ) (st : Store) (e : EngineState) (t : Tick)
    → Distinct e.running
    → HasTimeLeft e.running st.calls
    → IsAccounted st.calls
    → execute_one_tick time window_remaining st e ≡ ok t
    → IsAccounted t.store.calls
unfolding execute_one_tick fill_from_prefetch
execute_one_tick-IsAccounted time window_remaining st e t one left all h =
    let (u, first, rest) = >>=-eq-ok (execute_loop e.running st) _ h in
    let ran = execute_loop-IsAccounted e.running st u one left all first in
    let (q, second, last) = >>=-eq-ok (complete_all u.finished (time + 1) u.store _) _ rest in
    let done = complete_all-IsAccounted u.finished (time + 1) u.store _ q ran second in
    let waits = iter_queued q.1.queues ++ q.1.prefetched in
    subst (λ x. IsAccounted x.store.calls) (ok_injective last)
      (fill_loop-IsAccounted q.1.prefetched (time + 1) (tick_wait waits q.0.calls) q.1
        (tick_wait-IsAccounted waits q.0.calls done))
