-- ===== src/Core/Pass/Kept.antt =====
-- A pass of `Simulator._schedule` of autellix/core/simulator.py loses no call of an engine.
use autellix.Prelude.{
  ℕ, zero, suc, ◌+◌, ◌≡◌, refl, ap, subst, ◌∙◌, inl, inr, ◌&&◌, List, [], ◌∷◌, ◌++◌, some, ok,
  or_fail, length, map, modify, ◌==◌, ltb, occurrences, occurrences-append, length-modify,
  length-map, Bool-cases, Option-cases, >>=-eq-ok, passed, ok_injective, some_injective, arith,
  ltb→lt,
}
use autellix.Prelude.Dict.{Dict, lookup, insert}
use autellix.Prelude.Sort.{sort, count-sort}
use autellix.Core.State.{CallState, EngineState, iter_queued}
use autellix.Core.Engine.{
  pop_next_queued, place_call, start_call, schedule, schedule_loop, fill_loop, fill_from_prefetch,
  occupied,
}
use autellix.Core.Execution.{ExecutionModel}
use autellix.Core.Policy.{Store, sort_queue, unknown_call, no_queue}
use autellix.Core.Refresh.{refresh, queue_le}
use autellix.Core.Refresh.Queues.{one_of, iter_queued-modify, iter_queued-sort_queue}
use autellix.Core.Refresh.Held.{held, HasQueues, refresh-held}
use autellix.Core.Pass.{
  requeued, requeue, schedule_of, plan, schedule_engine, Passed, emptied, is_nonempty,
}

pop_next_queued-some :
    (x r : ℕ) (qs ps : List (List ℕ))
    → pop_next_queued qs ≡ some (r, ps)
    → occurrences x (iter_queued qs) ≡ occurrences x (iter_queued ps) + one_of r x
unfolding pop_next_queued iter_queued
pop_next_queued-some x r [] ps h = absurd cc
pop_next_queued-some x r ((y ∷ q) ∷ qs) ps h =
    subst
      (λ (p : ℕ × List (List ℕ)).
        occurrences x (iter_queued ((y ∷ q) ∷ qs)) ≡ occurrences x (iter_queued p.1) + one_of p.0 x)
      (some_injective h) (ground arith)
pop_next_queued-some x r ([] ∷ qs) ps h = elim (Option-cases (pop_next_queued qs)) [
  | inl e ↦ absurd (let g = rw (e, pop_next_queued) at h in cc)
  | inr (p, e) ↦
      let same = some_injective (rw (e, pop_next_queued) at h) in
      subst
        (λ (p : ℕ × List (List ℕ)).
          occurrences x (iter_queued ([] ∷ qs)) ≡ occurrences x (iter_queued p.1) + one_of p.0 x)
        same (pop_next_queued-some x (p.0) qs (p.1) e)
]

place_call-held :
    (x r time : ℕ) (calls : Dict CallState) (e : EngineState)
    → held x (place_call r time calls e).1 ≡ held x e + one_of r x
unfolding place_call start_call
place_call-held x r time calls e =
    ground
      (arith, occurrences-append x e.running (r ∷ []), occurrences-append x e.prefetched (r ∷ []))

schedule_loop-held :
    (n target time x : ℕ) (calls : Dict CallState) (e : EngineState)
    → held x (schedule_loop n target time calls e).engine ≡ held x e
unfolding schedule_loop
schedule_loop-held zero target time x calls e = refl
schedule_loop-held (suc n) target time x calls e = elim (Bool-cases (ltb (occupied e) target)) [
  | inr b ↦ rw (b, schedule_loop) refl
  | inl b ↦ elim (Option-cases (pop_next_queued e.queues)) [
    | inl f ↦ rw (b, f, schedule_loop) refl
    | inr (p, f) ↦
        let popped : EngineState = record e { queues = p.1 } in
        let q = place_call (p.0) time calls popped in
        rw (b, f, schedule_loop)
          (omega (
            arith,
            schedule_loop-held n target time x (q.0) (q.1),
            place_call-held x (p.0) time calls popped,
            pop_next_queued-some x (p.0) e.queues (p.1) f,
          ))
  ]
]

fill_loop-held :
    (rs : List ℕ) (time x : ℕ) (calls : Dict CallState) (e : EngineState)
    → held x (fill_loop rs time calls e).engine + occurrences x e.prefetched
      ≡ held x e + occurrences x rs
unfolding fill_loop start_call
fill_loop-held [] time x calls e = omega arith
fill_loop-held (r ∷ rs) time x calls e =
    let q = start_call r time calls e in
    let rest = fill_loop-held rs time x (q.0) (q.1) in
    elim (Bool-cases (ltb (length e.running) e.batch_size)) [
      | inl b ↦ rw (b, fill_loop) (ground (arith, rest, occurrences-append x e.running (r ∷ [])))
      | inr b ↦ rw (b, fill_loop) (omega arith)
    ]

fill_loop-queues :
    (rs : List ℕ) (time : ℕ) (calls : Dict CallState) (e : EngineState)
    → (fill_loop rs time calls e).engine.queues ≡ e.queues
unfolding fill_loop start_call
fill_loop-queues [] time calls e = refl
fill_loop-queues (r ∷ rs) time calls e =
    let q = start_call r time calls e in
    elim (Bool-cases (ltb (length e.running) e.batch_size)) [
      | inl b ↦ rw (b, fill_loop) (fill_loop-queues rs time (q.0) (q.1))
      | inr b ↦ rw (b, fill_loop) refl
    ]

requeue-queues :
    (rs : List ℕ) (calls : Dict CallState) (queues : List (List ℕ))
    (p : Dict CallState × List (List ℕ)) (x : ℕ)
    → requeue rs calls queues ≡ ok p
    → (occurrences x (iter_queued p.1) ≡ occurrences x (iter_queued queues) + occurrences x rs)
      × (length p.1 ≡ length queues)
unfolding requeue
requeue-queues [] calls queues p x h =
    subst
      (λ (q : Dict CallState × List (List ℕ)).
        (occurrences x (iter_queued q.1) ≡ occurrences x (iter_queued queues) + 0)
        × (length q.1 ≡ length queues))
      (ok_injective h) (omega arith, refl)
requeue-queues (r ∷ rs) calls queues p x h =
    let (c, _, h1) = >>=-eq-ok (or_fail (lookup r calls) unknown_call) _ h in
    let (low, h2) = passed (ltb c.queue_index (length queues)) no_queue h1 in
    let next = modify queues c.queue_index (λ q. q ++ (r ∷ [])) in
    let rest = requeue-queues rs (insert r (requeued c) calls) next p x h2 in
    (
      ground (
        arith,
        rest.0,
        iter_queued-modify x r c.queue_index queues (ltb→lt c.queue_index (length queues) low),
      ),
      rest.1 ∙ length-modify queues c.queue_index (λ q. q ++ (r ∷ [])),
    )

empty_queues : (x : ℕ) (qs : List (List ℕ)) → occurrences x (iter_queued (map (λ _. []) qs)) ≡ 0
unfolding iter_queued
empty_queues x [] = refl
empty_queues x (q ∷ qs) = empty_queues x qs

plan-held :
    (time interval overprovision x : ℕ) (m : ExecutionModel) (st : Store) (e : EngineState)
    (p : Passed)
    → HasQueues st e
    → plan time interval overprovision m st e ≡ ok p
    → held x p.engine ≡ held x e
unfolding plan schedule_of schedule
plan-held time interval overprovision x m st e p h q =
    let candidates = e.running ++ (iter_queued e.queues ++ e.prefetched) in
    let ordered = sort (queue_le st.calls) candidates in
    let none : List (List ℕ) = map (λ _. []) e.queues in
    let (a, f1, q1) = >>=-eq-ok (requeue ordered st.calls none) _ q in
    let back = requeue-queues ordered st.calls none a x f1 in
    let st1 : Store = record st { calls = a.0 } in
    let all_queued : EngineState = emptied e (a.1) in
    let (b, f2, q2) = >>=-eq-ok (refresh st1 all_queued) _ q1 in
    let known : length none ≡ length e.queues = length-map (λ (q : List ℕ). []) e.queues in
    let fresh = refresh-held st1 all_queued b x (back.1 ∙ known ∙ h.0, h.1) f2 in
    let target = e.batch_size + overprovision in
    let sorted = sort_queue b.0.scheduler b.0.calls b.1.queues in
    let same = iter_queued-sort_queue x b.0.scheduler b.0.calls b.1.queues in
    let taken =
      schedule_loop-held target target time x b.0.calls (record (b.1) { queues = sorted }) in
    subst (λ (r : Passed). held x r.engine ≡ held x e) (ok_injective q2)
      (omega (
        arith,
        taken,
        same.0,
        fresh,
        back.0,
        empty_queues x e.queues,
        count-sort (queue_le st.calls) (λ y. y == x) candidates,
        occurrences-append x e.running (iter_queued e.queues ++ e.prefetched),
        occurrences-append x (iter_queued e.queues) e.prefetched,
      ))

-- A pass over an engine with a queue for each quantum, if it raises no error, loses no call that the
-- engine has and doubles none: each call is afterwards as often among the running, the prefetched
-- and the queued ones as before.
pub schedule_engine-held :
    (time interval overprovision window x : ℕ) (m : ExecutionModel) (st : Store) (e : EngineState)
    (p : Passed)
    → HasQueues st e
    → schedule_engine time interval overprovision m st e window ≡ ok p
    → held x p.engine ≡ held x e
unfolding schedule_engine fill_from_prefetch
schedule_engine-held time interval overprovision window x m st e p h q =
    let s = fill_from_prefetch time st.calls e in
    let filled : Store = record st { calls = s.calls } in
    let same : held x s.engine ≡ held x e =
      omega (arith, fill_loop-held e.prefetched time x st.calls e) in
    let queues = ap length (fill_loop-queues e.prefetched time st.calls e) in
    elim (Bool-cases (ltb 0 window && is_nonempty s.engine.running)) [
      | inl b ↦
          subst (λ (r : Passed). held x r.engine ≡ held x e)
            (ok_injective (rw (b, schedule_engine) at q)) same
      | inr b ↦
          plan-held time interval overprovision x m filled s.engine p (queues ∙ h.0, h.1)
            (rw (b, schedule_engine) at q)
          ∙ same
    ]
