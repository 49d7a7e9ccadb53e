-- ===== src/Core/Refresh.antt =====
-- `Scheduler.refresh` of autellix/core/schedulers.py: the calls that wait lose the priority that
-- they have used up, and those that starve get the highest. Beta is in units of 10⁻⁹.
pub mod Queues
pub mod Held
use autellix.Prelude.{
  ℕ, zero, suc, ◌+◌, Bool, true, false, not, ◌&&◌, ◌||◌, List, [], ◌∷◌, ◌++◌, Option, none, some,
  Result, ok, ◌>>=◌, or_fail, modify, ltb, ◌==◌, if◌then◌else◌,
}
use autellix.Prelude.Dict.{Dict, lookup, insert, update}
use autellix.Prelude.Float.{ratio_reaches}
use autellix.Prelude.Sort.{sort, lex_le}
use autellix.Core.State.{CallState, EngineState, ProcessEntry, ThreadMetadata, iter_queued}
use autellix.Core.Policy.{
  Scheduler, mlfq, Store, SchedulerError, unknown_call, unknown_program, not_queued, should_preempt,
  demote, quantum_at,
}

-- `list.remove`; `none` is its ValueError.
abbrev pub remove_first : ℕ → List ℕ → Option (List ℕ)
remove_first r [] = none
remove_first r (x ∷ xs) =
    if x == r then some xs else elim (remove_first r xs) [ none ↦ none | some ys ↦ some (x ∷ ys) ]

-- `engine.queues[i].remove(call)`.
abbrev pub take_out : ℕ → ℕ → List (List ℕ) → Option (List (List ℕ))
take_out r i [] = none
take_out r zero (q ∷ qs) = elim (remove_first r q) [ none ↦ none | some p ↦ some (p ∷ qs) ]
take_out r (suc i) (q ∷ qs) = elim (take_out r i qs) [ none ↦ none | some ps ↦ some (q ∷ ps) ]

-- `_should_promote`, overridden under MLFQ.
unfoldable pub should_promote : Scheduler → CallState → ProcessEntry → Bool
unfolding ratio_reaches
should_promote s c entry = elim s.kind [
  | mlfq ↦
      ltb 0 c.queue_index
      && ratio_reaches c.wait_time_window c.run_time_window s.anti_starvation_beta
  | _ ↦
      not (c.queue_index == 0 || not s.preemptive)
      && ratio_reaches (entry.waiting_time + c.wait_time_window)
          (entry.service_time + c.run_time_window) s.anti_starvation_beta
]

abbrev pub promoted : Scheduler → CallState → CallState
promoted s c = record c {
  queue_index = 0;
  quantum_remaining = quantum_at s 0;
  wait_time_window = 0;
  run_time_window = 0;
  queue_order = suc s.counter;
}

-- The demotion of a call whose quantum is used up.
unfoldable pub expire :
    ℕ → CallState → Store → EngineState → Result SchedulerError (Store × EngineState)
expire r c st e =
    if should_preempt st.scheduler c
    then (do
      queues ← or_fail (take_out r c.queue_index e.queues) not_queued
      demote r st (record e { queues = queues }))
    else ok (st, e)

-- The promotion of a call that starves.
unfoldable pub promote :
    ℕ → CallState → ProcessEntry → Store → EngineState → Result SchedulerError (Store × EngineState)
promote r c entry st e =
    let s = st.scheduler in
    if should_promote s c entry
    then (do
      queues ← or_fail (take_out r c.queue_index e.queues) not_queued
      ok (
        record st {
          calls = insert r (promoted s c) st.calls;
          scheduler = record s { counter = suc s.counter };
        },
        record e { queues = modify queues 0 (λ q. q ++ (r ∷ [])) },
      ))
    else ok (st, e)

abbrev pub at_queue : ℕ → ThreadMetadata → ThreadMetadata
at_queue i meta = record meta { queue_index = i }

abbrev pub note_queue : CallState → ProcessEntry → ProcessEntry
note_queue c entry = record entry {
  thread_metadata = update c.spec.call_id (at_queue c.queue_index) entry.thread_metadata;
}

-- The body of the loop.
unfoldable pub refresh_call : ℕ → Store → EngineState → Result SchedulerError (Store × EngineState)
refresh_call r st e = do
  c ← or_fail (lookup r st.calls) unknown_call
  p ← expire r c st e
  d ← or_fail (lookup r p.0.calls) unknown_call
  entry ← or_fail (lookup d.spec.program_id p.0.processes) unknown_program
  q ← promote r d entry p.0 p.1
  f ← or_fail (lookup r q.0.calls) unknown_call
  ok (record (q.0) { processes = update f.spec.program_id (note_queue f) q.0.processes }, q.1)

unfoldable pub refresh_loop :
    List ℕ → Store → EngineState → Result SchedulerError (Store × EngineState)
refresh_loop [] st e = ok (st, e)
refresh_loop (r ∷ rs) st e = do p ← refresh_call r st e; refresh_loop rs p.0 p.1

-- `key=lambda c: (c.queue_index, c.queue_order)`. Numbers that name no call go last.
abbrev pub queue_le : Dict CallState → ℕ → ℕ → Bool
queue_le calls r q = elim (lookup r calls) [
  | none ↦ false
  | some c ↦ elim (lookup q calls) [
    | none ↦ true
    | some d ↦ lex_le (c.queue_index, c.queue_order) (d.queue_index, d.queue_order)
  ]
]

-- `refresh`.
unfoldable pub refresh : Store → EngineState → Result SchedulerError (Store × EngineState)
unfolding refresh_loop
refresh st e = refresh_loop (sort (queue_le st.calls) (iter_queued e.queues ++ e.prefetched)) st e
