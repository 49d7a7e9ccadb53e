-- ===== src/Core/Run.antt =====
-- The steps of `Simulator` in autellix/core/simulator.py. The simulator's sets and dictionaries of
-- calls go by the numbers of the call objects.
pub mod Termination
pub mod Build
pub mod Idle
use autellix.Prelude.{
  ℕ, zero, suc, ◌+◌, ◌-◌, min, max, Bool, true, false, not, ◌&&◌, ◌||◌, List, [], ◌∷◌, ◌++◌, Option,
  none, some, Result, ok, err, ◌>>=◌, ◌>>◌, or_fail, require, map_err, length, map, modify, filter,
  all, any, ltb, ◌==◌, if◌then◌else◌,
}
use autellix.Prelude.Dict.{Dict, lookup, insert, values}
use autellix.Prelude.Sort.{sort, lex_le}
use autellix.Core.State.{
  CallSpec, CallState, CallStatus, EngineState, EngineError, ProcessEntry, queued_count,
}
use autellix.Core.Balancer.{LoadBalancer, BalanceError, Assignment, assign}
use autellix.Core.Execution.{ExecutionModel, prepare_call}
use autellix.Core.Policy.{Store, SchedulerError, enqueue}
use autellix.Core.Program.{ProgramSpec, ProgramError}
use autellix.Core.Release.{ReleaseError, earliest_ready_time}
use autellix.Core.Pass.{Passed, schedule_engine}
use autellix.Core.Simulator.{Tick, execute_one_tick}

-- Each engine stands with its `_window_remaining`, at the place that it is named by.
pub record Simulator : Type 0 where
  pub programs : Dict ProgramSpec
  pub store : Store
  pub balancer : LoadBalancer
  pub execution : ExecutionModel
  pub engines : List (EngineState × ℕ)
  pub pending : List ℕ
  pub schedule_interval : ℕ
  pub overprovision : ℕ
  pub max_time : ℕ
  pub time : ℕ
  pub prefetched_calls : ℕ

pub data SimulatorError : Type 0 where
  timeout missing_call missing_program no_programs bad_num_engines bad_schedule_interval
        duplicate_program duplicate_call bad_steps :
      SimulatorError
  in_program : ProgramError → SimulatorError
  in_engine : EngineError → SimulatorError
  in_scheduler : SchedulerError → SimulatorError
  in_balancer : BalanceError → SimulatorError
  in_release : ReleaseError → SimulatorError

abbrev pub Run : Type 0 → Type 0
Run A = Result SimulatorError A

-- The calls of a program by their identifiers.
abbrev pub calls_of : ℕ → Dict CallState → Dict CallState
calls_of pid [] = []
calls_of pid ((r, c) ∷ rest) =
    if c.spec.program_id == pid then (c.spec.call_id, c) ∷ calls_of pid rest else calls_of pid rest

-- `_earliest_ready_time`, of the call with the given number.
unfoldable pub ready_time : Simulator → ℕ → Run ℕ
ready_time s r = do
  c ← or_fail (lookup r s.store.calls) missing_call
  program ← or_fail (lookup c.spec.program_id s.programs) missing_program
  map_err in_release (
      earliest_ready_time s.max_time program.arrival_time c.spec
        (calls_of c.spec.program_id s.store.calls))

-- `_ensure_process_entry`.
abbrev pub new_entry : ProgramSpec → ProcessEntry
new_entry program = record {
  arrival_time = program.arrival_time;
  service_time = 0;
  waiting_time = 0;
  engine_id = none;
  engine_ids = [];
  completed_engine_ids = [];
  active_call_ids = [];
  completed_call_ids = [];
  thread_metadata = [];
  last_arrival = none;
  last_completion = none;
}

abbrev pub ensure_entry : ℕ → ProgramSpec → Dict ProcessEntry → Dict ProcessEntry
ensure_entry pid program table = elim (lookup pid table) [
  | none ↦ insert pid (new_entry program) table
  | some entry ↦ table
]

-- The loop of `_compute_critical_path_service` over the parents.
unfoldable pub critical_path : List ℕ → Dict CallState → Run ℕ
critical_path [] calls = ok 0
critical_path (p ∷ ps) calls = do
  c ← or_fail (lookup p calls) missing_call
  rest ← critical_path ps calls
  ok (max (c.critical_path_service + c.model_time) rest)

abbrev pub remove : ℕ → List ℕ → List ℕ
remove r rs = filter (λ q. not (q == r)) rs

abbrev pub with_service : CallState → ℕ → CallState
with_service c n = record c { critical_path_service = n }

pub record Admitted : Type 0 where
  pub store : Store
  pub balancer : LoadBalancer
  pub engine : EngineState

-- A ready call gets an engine, its costs and a queue.
unfoldable pub place_ready : ℕ → ℕ → CallState → ProgramSpec → Simulator → Run Admitted
unfolding critical_path
place_ready time r c program s = do
  let pid = c.spec.program_id
  let table = ensure_entry pid program s.store.processes
  a ← map_err in_balancer (assign c.spec (map (λ p. p.0) s.engines) table s.balancer)
  entry ← or_fail (lookup pid a.processes) missing_program
  let prepared : CallState = prepare_call s.execution entry a.engine.engine_id c
  n ← critical_path c.spec.parents (calls_of pid s.store.calls)
  p ← map_err in_scheduler (
      enqueue r time
        (record (s.store) {
          calls = insert r (with_service prepared n) s.store.calls;
          processes = a.processes;
        })
        a.engine)
  ok (record { store = p.0; balancer = a.balancer; engine = p.1 })

-- The release of a ready call.
unfoldable pub admit_call : ℕ → ℕ → CallState → ProgramSpec → Simulator → Run Simulator
unfolding place_ready
admit_call time r c program s = do
  a ← place_ready time r c program s
  ok (record s {
    store = a.store;
    balancer = a.balancer;
    engines = modify s.engines a.engine.engine_id (λ e. (a.engine, e.1));
    pending = remove r s.pending;
  })

unfoldable pub release_call : ℕ → ℕ → Simulator → Run Simulator
unfolding admit_call ready_time
release_call time r s = do
  ready ← ready_time s r
  c ← or_fail (lookup r s.store.calls) missing_call
  program ← or_fail (lookup c.spec.program_id s.programs) missing_program
  if ltb time ready then ok s else admit_call time r c program s

unfoldable pub release_loop : ℕ → List ℕ → Simulator → Run Simulator
release_loop time [] s = ok s
release_loop time (r ∷ rs) s = do next ← release_call time r s; release_loop time rs next

-- The order of release: by the program's arrival, then by the names.
abbrev pub arrival_of : Simulator → ℕ → ℕ × ℕ × ℕ
arrival_of s r = elim (lookup r s.store.calls) [
  | none ↦ (0, 0, 0)
  | some c ↦ elim (lookup c.spec.program_id s.programs) [
    | none ↦ (0, c.spec.program_id, c.spec.call_id)
    | some program ↦ (program.arrival_time, c.spec.program_id, c.spec.call_id)
  ]
]

abbrev pub arrival_le : ℕ × ℕ × ℕ → ℕ × ℕ × ℕ → Bool
arrival_le (a, b, c) (d, e, f) = if a == d then lex_le (b, c) (e, f) else ltb a d

-- `_release_ready_calls`.
unfoldable pub release_ready_calls : ℕ → Simulator → Run Simulator
unfolding release_loop
release_ready_calls time s =
    release_loop time (sort (λ a b. arrival_le (arrival_of s a) (arrival_of s b)) s.pending) s

pub record Round : Type 0 where
  pub store : Store
  pub engines : List (EngineState × ℕ)
  pub prefetched_calls : ℕ

-- `_schedule`.
unfoldable pub schedule_all : Simulator → List (EngineState × ℕ) → Store → Run Round
schedule_all s [] st = ok (record { store = st; engines = []; prefetched_calls = 0 })
schedule_all s ((e, window) ∷ es) st = do
  p ←
      map_err in_scheduler
        (schedule_engine s.time s.schedule_interval s.overprovision s.execution st e window)
  rest ← schedule_all s es p.store
  ok (record rest {
    engines = (p.engine, p.window_remaining) ∷ rest.engines;
    prefetched_calls = p.prefetched_calls + rest.prefetched_calls;
  })

-- `_execute_one_tick`.
unfoldable pub execute_all : ℕ → List (EngineState × ℕ) → Store → Run Round
execute_all time [] st = ok (record { store = st; engines = []; prefetched_calls = 0 })
execute_all time ((e, window) ∷ es) st = do
  t ← map_err in_scheduler (execute_one_tick time window st e)
  rest ← execute_all time es t.store
  ok (record rest { engines = (t.engine, t.window_remaining) ∷ rest.engines })

abbrev pub is_finished : CallState → Bool
is_finished c = elim c.status [ CallStatus.finished ↦ true | _ ↦ false ]

-- `_finished`.
unfoldable pub finished : Simulator → Bool
finished s = all is_finished (values s.store.calls)

abbrev pub is_busy : EngineState × ℕ → Bool
is_busy (e, _) = not (length e.running + length e.prefetched + queued_count e.queues == 0)

-- The ready times of the calls that are pending.
unfoldable pub ready_times : Simulator → List ℕ → Run (List ℕ)
unfolding ready_time
ready_times s [] = ok []
ready_times s (r ∷ rs) = do t ← ready_time s r; rest ← ready_times s rs; ok (t ∷ rest)

abbrev pub minimum : ℕ → List ℕ → ℕ
minimum t [] = t
minimum t (u ∷ us) = minimum (min t u) us

-- `_next_possible_release_time`, if some call is released later.
unfoldable pub next_time : ℕ → List ℕ → ℕ
next_time time [] = time
next_time time (t ∷ ts) = if any (ltb time) (t ∷ ts) then max time (minimum t ts) else time

-- `_idle_with_future_work`: if no engine has a call, the clock goes to the next time at which one
-- may be released.
unfoldable pub skip_idle : Simulator → Run Simulator
unfolding ready_times next_time
skip_idle s =
    if any is_busy s.engines
    then ok s
    else (do times ← ready_times s s.pending; ok (record s { time = next_time s.time times }))

-- The three phases of a step.
unfoldable pub step_phases : Simulator → Run Simulator
unfolding release_ready_calls schedule_all execute_all
step_phases s = do
  a ← release_ready_calls s.time s
  b ← schedule_all a a.engines a.store
  c ← execute_all s.time b.engines b.store
  ok (record a {
    store = c.store;
    engines = c.engines;
    prefetched_calls = a.prefetched_calls + b.prefetched_calls;
  })

-- `_step_once`.
unfoldable pub step_once : Bool → Simulator → Run Simulator
unfolding step_phases skip_idle
step_once advance_idle s = do
  require (not (ltb s.max_time s.time)) timeout
  a ← step_phases s
  let b : Simulator = record a { time = s.time + 1 }
  if advance_idle then skip_idle b else ok b

pub data Outcome : Type 0 where
  done : Simulator → Outcome
  failed : SimulatorError → Outcome
  out_of_fuel : Outcome

-- `run`, on fuel.
unfoldable pub run : ℕ → Simulator → Outcome
unfolding step_once finished
run zero s = if finished s then done s else out_of_fuel
run (suc n) s = elim (finished s) [
  | true ↦ done s
  | false ↦ elim (step_once true s) [ ok next ↦ run n next | err e ↦ failed e ]
]
