-- ===== src/Core/Samples/Runs.antt =====
-- Programs of two calls, the second after the first, and runs of the simulator of autellix/core.
use autellix.Prelude.{
  ℕ, ◌≡◌, ◌↔◌, ◌⊎◌, refl, true, false, List, [], ◌∷◌, some, none, Result, ok, err, arith, inl, inr,
  mem, ◌==◌, Bool-cases,
}
use autellix.Prelude.Dict.{Dict, lookup}
use autellix.Prelude.Float.{inf, whole}
use autellix.Prelude.Int.{pos}
use autellix.Core.State.{CallSpec, CallState, EngineState, new_state, iter_queued}
use autellix.Core.Pass.{Passed, schedule_of, schedule_engine}
use autellix.Core.Pass.Kept.{schedule_engine-held}
use autellix.Core.Pass.Shortest.{TakesShortest, schedule_of-TakesShortest}
use autellix.Core.Refresh.{refresh, refresh_call, expire, promote, should_promote}
use autellix.Core.Refresh.Held.{held}
use autellix.Core.Engine.{schedule, fill_from_prefetch}
use autellix.Prelude.Sort.{sort}
use autellix.Core.Balancer.{round_robin}
use autellix.Core.Policy.{Scheduler, Kind, Store, SchedulerError, should_preempt, sort_queue}
use autellix.Core.Program.{ProgramSpec, new_program, ids}
use autellix.Core.Program.Acyclic.{IsProgram, IsGraph, new_program_iff}
use autellix.Core.Metrics.{is_sequential_program, visit}
use autellix.Core.Metrics.Sequential.{IsChain, is_sequential_program_iff}
use autellix.Core.Metrics.Visits.{IsFound, visit-IsFound}
use autellix.Core.Run.{Simulator, SimulatorError, run, finished}
use autellix.Core.Run.Outcome.{done, failed}
use autellix.Core.Run.Termination.{run-ends}
use autellix.Core.Run.Idle.{run_until_idle, is_active, run_until_idle-ends}
use autellix.Core.Samples.Engines.{engine, entry, model}

abbrev pub call : ℕ → List ℕ → CallSpec
call id parents = record {
  call_id = id;
  program_id = 7;
  model_time = 2;
  prefill_tokens = 100;
  decode_tokens = 64;
  parents = parents;
  release_delay = 0;
  submit_time = none;
}

abbrev pub pair : List CallSpec
pair = call 1 [] ∷ call 2 (1 ∷ []) ∷ []

abbrev cyclic : List CallSpec
cyclic = call 1 (2 ∷ []) ∷ call 2 (1 ∷ []) ∷ []

new_program_iff_example :
    (new_program 7 pair (pos 3) ≡ ok (record { program_id = 7; calls = pair; arrival_time = 3 }))
    ↔ IsProgram 7 pair (pos 3)
new_program_iff_example = new_program_iff 7 pair (pos 3)

pair_accepted :
    new_program 7 pair (pos 3) ≡ ok (record { program_id = 7; calls = pair; arrival_time = 3 })
unfolding new_program
pair_accepted = refl

cyclic_refused : (p : ProgramSpec) → (new_program 7 cyclic (pos 3) ≡ ok p) → true ≡ false
unfolding new_program
cyclic_refused p h = absurd cc

is_sequential_program_iff_example : (is_sequential_program pair ≡ true) ↔ IsChain pair
is_sequential_program_iff_example = is_sequential_program_iff pair

abbrev states : Dict CallState
states = (1, new_state (call 1 [])) ∷ (2, new_state (call 2 (1 ∷ []))) ∷ []

known_states : (x : ℕ) → mem x (ids pair) ≡ true → (c : CallState) × (lookup x states ≡ some c)
known_states x h = elim (Bool-cases (1 == x)) [
  | inl e ↦ (new_state (call 1 []), rw e refl)
  | inr e ↦ (new_state (call 2 (1 ∷ [])), ground arith)
]

pair-IsGraph : IsGraph 7 pair
unfolding new_program
pair-IsGraph = ((new_program_iff 7 pair (pos 3)).0 pair_accepted).2

visit-IsFound_example : IsFound (visit 2 3 pair states 2)
visit-IsFound_example =
    visit-IsFound 3 pair states 2 pair-IsGraph.0 pair-IsGraph.2 known_states refl

abbrev round_robin_scheduler : Scheduler
round_robin_scheduler = record {
  kind = Kind.round_robin;
  priority_boundaries = whole 0 ∷ inf ∷ [];
  queue_quanta = pos 1 ∷ [];
  anti_starvation_beta = whole 8_000_000_000;
  preemptive = true;
  counter = 0;
  remaining_by_program = [];
}

abbrev pub simulator : Simulator
simulator = record {
  programs = (7, record { program_id = 7; calls = pair; arrival_time = 3 }) ∷ [];
  store = record {
    calls = (0, new_state (call 1 [])) ∷ (1, new_state (call 2 (1 ∷ []))) ∷ [];
    processes = [];
    scheduler = round_robin_scheduler;
  };
  balancer = round_robin 0;
  execution = model;
  engines = (engine 0 ([] ∷ []) [] [], 0) ∷ [];
  pending = 0 ∷ 1 ∷ [];
  schedule_interval = 1;
  overprovision = 0;
  max_time = 20;
  time = 3;
  prefetched_calls = 0;
}

run-ends_example :
    ((last : Simulator) × (run 22 simulator ≡ done last) × (finished last ≡ true))
    ⊎ ((e : SimulatorError) × (run 22 simulator ≡ failed e))
run-ends_example = run-ends 22 simulator (omega arith)

run_until_idle-ends_example :
    ((last : Simulator) × (run_until_idle 22 simulator ≡ done last) × (is_active last ≡ false))
    ⊎ ((e : SimulatorError) × (run_until_idle 22 simulator ≡ failed e))
run_until_idle-ends_example = run_until_idle-ends 22 simulator (omega arith)

-- An engine at the end of its window, with a call that runs and one that is prefetched.
abbrev busy_store : Store
busy_store = record (simulator.store) { processes = (7, entry) ∷ [] }

abbrev busy_engine : EngineState
busy_engine = engine 0 ([] ∷ []) (0 ∷ []) (1 ∷ [])

abbrev no_pass : Passed
no_pass = record {
  store = busy_store;
  engine = busy_engine;
  window_remaining = 0;
  prefetched_calls = 0;
}

abbrev pass_of : Result SchedulerError Passed → Passed
pass_of (ok p) = p
pass_of (err e) = no_pass

abbrev pass : Passed
unfolding schedule_engine
pass = pass_of (schedule_engine 5 1 0 model busy_store busy_engine 0)

passes : schedule_engine 5 1 0 model busy_store busy_engine 0 ≡ ok pass
unfolding schedule_engine sort fill_from_prefetch iter_queued refresh refresh_call expire
    should_preempt promote should_promote
passes = refl

schedule_engine-held_example : held 1 pass.engine ≡ 1
unfolding iter_queued
schedule_engine-held_example =
    schedule_engine-held 5 1 0 0 1 model busy_store busy_engine pass (refl, omega arith) passes

-- Under SRPT the call of the shorter program is started, though it was queued last.
abbrev srpt_store : Store
srpt_store = record busy_store {
  scheduler = record round_robin_scheduler {
    kind = Kind.srpt;
    remaining_by_program = (7, 100) ∷ (8, 1) ∷ [];
  };
  calls = (0, new_state (call 1 [])) ∷ (1, new_state (record (call 2 []) { program_id = 8 })) ∷ [];
}

srpt_starts_shorter :
    (schedule_of 1 5 srpt_store (engine 0 ((0 ∷ 1 ∷ []) ∷ []) [] [])).chosen ≡ 1 ∷ []
unfolding schedule_of schedule sort_queue sort
srpt_starts_shorter = refl

schedule_of-TakesShortest_example :
    TakesShortest 1 srpt_store
      (0 ∷ 1 ∷ [])
      (schedule_of 1 5 srpt_store (engine 0 ((0 ∷ 1 ∷ []) ∷ []) [] []))
schedule_of-TakesShortest_example =
    schedule_of-TakesShortest 1 5 srpt_store (engine 0 ((0 ∷ 1 ∷ []) ∷ []) [] []) (0 ∷ 1 ∷ []) refl
      refl
