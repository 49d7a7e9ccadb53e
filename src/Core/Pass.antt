-- ===== src/Core/Pass.antt =====
-- `Simulator._schedule` of autellix/core/simulator.py for one engine: at the end of a window all
-- calls of the engine compete again, and those that lose their place pay for a swap.
pub mod Kept
pub mod Shortest
use autellix.Prelude.{
  ℕ, ◌+◌, Bool, true, false, not, ◌&&◌, List, [], ◌∷◌, ◌++◌, Result, ok, ◌>>=◌, ◌>>◌, or_fail,
  require, length, modify, mem, filter, count, map, ltb, if◌then◌else◌,
}
use autellix.Prelude.Dict.{Dict, lookup, insert, update}
use autellix.Prelude.Sort.{sort}
use autellix.Core.State.{CallState, CallStatus, EngineState, iter_queued}
use autellix.Core.Engine.{Scheduled, schedule, fill_from_prefetch}
use autellix.Core.Execution.{ExecutionModel, preemption_penalty}
use autellix.Core.Policy.{Store, sort_queue, SchedulerError, unknown_call, no_queue}
use autellix.Core.Refresh.{refresh, queue_le}

abbrev pub requeued : CallState → CallState
requeued c = record c { status = CallStatus.queued }

-- The loop that puts the candidates back, each at the tail of its queue.
unfoldable pub requeue :
    List ℕ → Dict CallState → List (List ℕ) → Result SchedulerError (Dict CallState × List (List ℕ))
requeue [] calls queues = ok (calls, queues)
requeue (r ∷ rs) calls queues = do
  c ← or_fail (lookup r calls) unknown_call
  require (ltb c.queue_index (length queues)) no_queue
  requeue rs (insert r (requeued c) calls) (modify queues c.queue_index (λ q. q ++ (r ∷ [])))

abbrev pub swapped : ℕ → CallState → CallState
swapped penalty c = record c {
  swap_time = c.swap_time + penalty;
  swap_remaining = c.swap_remaining + penalty;
}

-- The loop over the victims.
unfoldable pub penalise : List ℕ → ℕ → Dict CallState → Dict CallState
penalise [] penalty calls = calls
penalise (r ∷ rs) penalty calls = penalise rs penalty (update r (swapped penalty) calls)

abbrev pub victims_of : List ℕ → List ℕ → List ℕ
victims_of resident chosen = filter (λ r. not (mem r chosen)) resident

abbrev pub penalty_for : ExecutionModel → List ℕ → ℕ
penalty_for m [] = 0
penalty_for m (r ∷ rs) = preemption_penalty m (length (r ∷ rs))

-- A chosen call that is prefetched and was not on the engine before.
abbrev pub is_new_prefetch : EngineState → List ℕ → ℕ → Bool
is_new_prefetch e resident r = mem r e.prefetched && not (mem r resident)

pub record Passed : Type 0 where
  pub store : Store
  pub engine : EngineState
  pub window_remaining : ℕ
  pub prefetched_calls : ℕ

abbrev pub emptied : EngineState → List (List ℕ) → EngineState
emptied e queues = record e { running = []; prefetched = []; queues = queues }

-- `schedule` of each class: SRPT sorts the queue first.
unfoldable pub schedule_of : ℕ → ℕ → Store → EngineState → Scheduled
schedule_of target time st e =
    schedule target time st.calls (record e { queues = sort_queue st.scheduler st.calls e.queues })

-- The new plan for an engine at the end of its window.
unfoldable pub plan :
    ℕ → ℕ → ℕ → ExecutionModel → Store → EngineState → Result SchedulerError Passed
unfolding requeue penalise schedule_of
plan time interval overprovision m st e = do
  let resident = e.running ++ e.prefetched
  let candidates = e.running ++ (iter_queued e.queues ++ e.prefetched)
  p ← requeue (sort (queue_le st.calls) candidates) st.calls (map (λ _. []) e.queues)
  q ← refresh (record st { calls = p.0 }) (emptied e p.1)
  let s = schedule_of (e.batch_size + overprovision) time (q.0) (q.1)
  let victims = victims_of resident s.chosen
  ok (record {
    store = record (q.0) { calls = penalise victims (penalty_for m victims) s.calls };
    engine = s.engine;
    window_remaining = interval;
    prefetched_calls = count (is_new_prefetch s.engine resident) s.chosen;
  })

abbrev pub is_nonempty : List ℕ → Bool
is_nonempty [] = false
is_nonempty (r ∷ rs) = true

-- `_schedule` for one engine.
unfoldable pub schedule_engine :
    ℕ → ℕ → ℕ → ExecutionModel → Store → EngineState → ℕ → Result SchedulerError Passed
unfolding plan
schedule_engine time interval overprovision m st e window_remaining =
    let s = fill_from_prefetch time st.calls e in
    let filled : Store = record st { calls = s.calls } in
    if ltb 0 window_remaining && is_nonempty s.engine.running
    then ok (record {
      store = filled;
      engine = s.engine;
      window_remaining = window_remaining;
      prefetched_calls = 0;
    })
    else plan time interval overprovision m filled s.engine
