-- ===== src/Core/Samples/Policies.antt =====
-- Runs of the schedulers and of a tick of autellix/core.
use autellix.Prelude.{
  ℕ, ◌-◌, ◌==◌, if◌then◌else◌, Result, err, ◌≤◌, ◌≡◌, refl, true, [], ◌∷◌, some, ok, arith, All,
  Distinct,
}
use autellix.Prelude.Dict.{Dict, lookup}
use autellix.Prelude.Float.{inf, whole}
use autellix.Prelude.Int.{pos}
use autellix.Core.State.{CallSpec, CallState, CallStatus, EngineState, ProcessEntry, new_state}
use autellix.Core.Engine.{start_call, fill_from_prefetch, fill_loop}
use autellix.Core.Policy.{Scheduler, atlas, Store, enqueue, complete_call, check}
use autellix.Core.Policy.Service.{IsQueued, enqueue-IsQueued}
use autellix.Core.Policy.Completion.{Completed, complete_call-Completed}
use autellix.Core.Release.{
  FinishedBy, earliest_ready_time, latest_finish, base_time, ready-FinishedBy,
}
use autellix.Core.Simulator.{Tick, execute_one_tick, execute_loop, complete_all, tick_call}
use autellix.Core.Simulator.Accounting.{IsAccounted, HasTimeLeft, execute_one_tick-IsAccounted}
use autellix.Core.Samples.Engines.{spec, calls, entry, engine, first_call}

abbrev scheduler : Scheduler
scheduler = record {
  kind = atlas;
  priority_boundaries = whole 0 ∷ whole 2 ∷ inf ∷ [];
  queue_quanta = pos 1 ∷ pos 4 ∷ [];
  anti_starvation_beta = whole 8_000_000_000;
  preemptive = true;
  counter = 5;
  remaining_by_program = [];
}

abbrev store : Store
store = record { calls = calls; processes = (7, entry) ∷ []; scheduler = scheduler }

scheduler_valid : check scheduler ≡ ok tt
unfolding check
scheduler_valid = refl

-- The value of a run that succeeds.
abbrev outcome {ℓ κ} : {E : Type ℓ} {A : Type κ} → A → Result E A → A
outcome a (ok b) = b
outcome a (err e) = a

abbrev two_queues : EngineState
two_queues = engine 0 ([] ∷ (3 ∷ []) ∷ []) [] []

enqueue-IsQueued_example :
    (after : Store) × (f : EngineState) × (enqueue 1 9 store two_queues ≡ ok (after, f))
    × IsQueued 1 two_queues f after
enqueue-IsQueued_example =
    enqueue-IsQueued 1 9 store two_queues first_call entry scheduler_valid (omega arith) refl refl
      refl

complete_call-Completed_example :
    (after : Store) × (new : ProcessEntry) × (complete_call 1 4 store ≡ ok after)
    × Completed first_call entry new
    × ((q : ℕ)
        → lookup q after.calls ≡ (
            if 1 == q
            then some (record first_call { status = CallStatus.finished; finish_time = some 4 })
            else lookup q calls))
    × ((pid : ℕ)
        → lookup pid after.processes
          ≡ (if 7 == pid then some new else lookup pid ((7, entry) ∷ [])))
complete_call-Completed_example = complete_call-Completed 1 4 store first_call entry refl refl

-- Calls 1 and 2 run, the second to its end; call 3 waits.
abbrev running_engine : EngineState
running_engine = engine 0 ([] ∷ (3 ∷ []) ∷ []) (1 ∷ 2 ∷ []) (4 ∷ [])

abbrev ticked : Tick
ticked =
    outcome (record { store = store; engine = running_engine; window_remaining = 0 })
      (execute_one_tick 5 8 store running_engine)

tick_runs : execute_one_tick 5 8 store running_engine ≡ ok ticked
unfolding execute_one_tick execute_loop complete_all complete_call
tick_runs = refl

tick_batch : ticked.engine.running ≡ 1 ∷ 4 ∷ []
unfolding execute_one_tick execute_loop complete_all complete_call tick_call fill_from_prefetch
    fill_loop start_call
tick_batch = refl

calls-IsAccounted : IsAccounted calls
calls-IsAccounted r c h = ground arith

running-Distinct : Distinct (1 ∷ 2 ∷ [])
running-Distinct x = ground arith

running_time : HasTimeLeft (1 ∷ 2 ∷ []) calls
running_time r c m h = ground arith

execute_one_tick-IsAccounted_example : IsAccounted ticked.store.calls
execute_one_tick-IsAccounted_example =
    execute_one_tick-IsAccounted 5 8 store running_engine ticked running-Distinct running_time
      calls-IsAccounted tick_runs

-- Call 5 waits for the parents 1 and 2, which have finished at 4 and 6.
abbrev child : CallSpec
child = record (spec 5 10 3) { parents = 1 ∷ 2 ∷ []; release_delay = 2 }

abbrev parents : Dict CallState
parents =
    (1, record (new_state (spec 1 10 3)) { finish_time = some 4 })
    ∷ (2, record (new_state (spec 2 10 1)) { finish_time = some 6 })
    ∷ []

child_ready : earliest_ready_time 100 1 child parents ≡ ok 8
unfolding earliest_ready_time latest_finish base_time
child_ready = refl

ready-FinishedBy_example : (1 ≤ 8) × All (FinishedBy parents (8 - 2)) (1 ∷ 2 ∷ [])
ready-FinishedBy_example = ready-FinishedBy 100 1 child parents 8 child_ready (omega arith)
