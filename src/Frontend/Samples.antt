-- ===== src/Frontend/Samples.antt =====
-- A service of autellix/frontend with one session, and requests to an engine with a worker.
use autellix.Prelude.{
  ℕ, ◌+◌, ◌≡◌, ◌≢◌, refl, true, false, List, [], ◌∷◌, some, none, ok, err, arith,
}
use autellix.Prelude.Int.{pos}
use autellix.Core.State.{CallSpec, CallStatus, CallState, new_state, new_engine as make_engine}
use autellix.Core.Program.{ProgramSpec}
use autellix.Core.Run.Build.{Arguments, new_simulator, add_call}
use autellix.Core.Run.{run}
use autellix.Core.Metrics.{SimulationResult, result}
use autellix.Core.Balancer.{round_robin}
use autellix.Core.Samples.Engines.{model}
use autellix.Core.Samples.Runs.{call, simulator}
use autellix.Frontend.Service.{
  Session, Names, Service, Serve, no_session, Submission, submit_call, checked_call, to_program,
  with_call, end_session,
}
use autellix.Frontend.Service.Programs.{IsOpen, submit_call-to_program, submit_call-duplicate}
use autellix.Frontend.Service.Drive.{drain}
use autellix.Frontend.Engine.{MultiEngine, new_engine, drain_engine, submit_request, step_engine}
use autellix.Frontend.Engine.Worker.{worker_main, new_worker, serve_list, Request, asks, steps}
use autellix.Frontend.Engine.Mirror.{Mirrors, serve_list-Mirrors}
use autellix.Frontend.Engine.Stale.{drain_engine-stale}

abbrev names : Names
names = record { session_name = λ n. 100 + n; chat_name = λ n. 200 + n }

abbrev options : Arguments
options = record {
  programs = [];
  scheduler = simulator.store.scheduler;
  balancer = round_robin 0;
  num_engines = pos 1;
  batch_size = pos 2;
  schedule_interval = pos 1;
  overprovision = pos 0;
  execution = model;
  max_time = 1_000_000;
}

abbrev session : Session
session = record {
  session_id = 101;
  program_id = 7;
  arrival_time = pos 3;
  calls = [];
  completed = false;
}

abbrev service : Service
service = record {
  names = names;
  options = options;
  counter = 2;
  sessions = (101, session) ∷ [];
  time = 4;
  last_result = none;
  simulator = none;
  program_session_ids = (7, 101) ∷ [];
  call_counters = (101, 1) ∷ [];
}

abbrev submission : ℕ → List ℕ → Submission
submission id parents = record {
  call_id = id;
  model_time = pos 2;
  prefill_tokens = pos 100;
  decode_tokens = pos 64;
  parents = parents;
  release_delay = pos 0;
}

abbrev first_call : CallSpec
first_call = record (call 1 []) { submit_time = some 4 }

session-IsOpen : IsOpen session
session-IsOpen = (refl, (λ x. ground arith, tt, ([], tt, λ id. omega arith)))

first_checked : checked_call 101 (submission 1 []) service ≡ ok first_call
unfolding checked_call
first_checked = refl

submit_call-to_program_example :
    IsOpen (with_call first_call session)
    × (to_program (with_call first_call session)
        ≡ ok (record { program_id = 7; calls = first_call ∷ []; arrival_time = 3 }))
submit_call-to_program_example =
    submit_call-to_program 101 (submission 1 []) service session first_call refl session-IsOpen refl
      first_checked

abbrev one_call : Session
one_call = with_call first_call session

abbrev with_one : Service
with_one = record service { sessions = (101, one_call) ∷ [] }

twice_checked : checked_call 101 (submission 1 []) with_one ≡ ok first_call
unfolding checked_call
twice_checked = refl

abbrev one_program : ProgramSpec
one_program = record { program_id = 7; calls = first_call ∷ []; arrival_time = 3 }

submit_call-duplicate_example :
    (end_session 101 (submit_call 101 (submission 1 []) with_one).0).1 ≢ ok one_program
submit_call-duplicate_example =
    submit_call-duplicate 101 (submission 1 []) with_one one_call first_call one_program refl
      twice_checked refl

-- A service whose one call has finished.
abbrev finished_call : CallState
finished_call = record (new_state first_call) {
  status = CallStatus.finished;
  ready_time = some 4;
  finish_time = some 7;
}

abbrev served : Service
served = record with_one {
  simulator = some (record simulator {
    programs = (7, one_program) ∷ [];
    store = record (simulator.store) { calls = (0, finished_call) ∷ [] };
    pending = [];
    time = 8;
  });
}

abbrev no_result : SimulationResult
no_result = record {
  policy = simulator.store.scheduler.kind;
  load_balancer = round_robin 0;
  makespan = 0;
  program_metrics = [];
  calls = [];
  process_table = [];
  engine_utilization = [];
  prefetched_calls = 0;
}

abbrev value : {A : Type 0} → A → Serve A → A
value a (ok b) = b
value a (err e) = a

abbrev drained_service : Service × SimulationResult
unfolding drain
drained_service = value (service, no_result) (drain served)

served_drains : drain served ≡ ok drained_service
unfolding drain run result
served_drains = refl

abbrev serving : MultiEngine
serving = record { service = served; program_sessions = (7, 101) ∷ []; futures = []; worker = none }

abbrev drained_engine : MultiEngine × SimulationResult
unfolding drain_engine
drained_engine = value (serving, no_result) (drain_engine serving)

serving_drains : drain_engine serving ≡ ok drained_engine
unfolding drain_engine run result
serving_drains = refl

drain_engine-stale_example :
    ((submit_request 7 (submission 2 []) none (drained_engine.0)).1 ≡ err no_session)
    × ((submit_request 7 (submission 2 []) none (drained_engine.0)).0.service
        ≡ drained_engine.0.service)
    × ((submit_request 7 (submission 2 []) none (drained_engine.0)).0.program_sessions
        ≡ drained_engine.0.program_sessions)
unfolding drained_engine run result
drain_engine-stale_example =
    drain_engine-stale serving (drained_engine.0) (drained_engine.1) 7 101 one_call
      (submission 2 []) serving_drains refl refl refl

abbrev requests : List Request
requests = steps (pos 2) ∷ asks 7 (submission 1 []) ∷ asks 7 (submission 2 (1 ∷ [])) ∷ []

abbrev started : MultiEngine
started = new_engine names options true

abbrev reached : MultiEngine
unfolding serve_list
reached = value started (serve_list requests started)

requests_served : serve_list requests started ≡ ok reached
unfolding serve_list submit_request new_engine new_simulator make_engine add_call step_engine
requests_served = refl

serve_list-Mirrors_example : Mirrors (new_worker names options) reached
unfolding new_engine worker_main new_worker
serve_list-Mirrors_example =
    serve_list-Mirrors (new_worker names options) requests started reached refl
      ([], refl, (refl, refl, refl)) requests_served
