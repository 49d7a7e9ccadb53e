-- ===== src/Frontend/Service.antt =====
-- `AutellixService` of autellix/frontend/service.py: sessions whose calls go to a live simulator. Its
-- scheduler and balancer are given by name, so each simulator gets fresh ones.
pub mod Drive
pub mod Chat
pub mod Programs
pub mod Drain
use autellix.Prelude.{
  ℕ, zero, suc, ◌+◌, max, Bool, true, false, not, ◌||◌, List, [], ◌∷◌, ◌++◌, Option, none, some,
  Result, ok, err, ◌>>=◌, ◌>>◌, or_fail, require, map_err, all, any, mem, map, ltb, ◌==◌,
  if◌then◌else◌,
}
use autellix.Prelude.Dict.{Dict, lookup, insert, erase, keys, has_key, update}
use autellix.Prelude.Int.{ℤ, pos, pos_part}
use autellix.Core.State.{
  CallSpec, CallArguments, CallError, CallState, new_call, new_state, is_positive,
}
use autellix.Core.Balancer.{LoadBalancer}
use autellix.Core.Execution.{ExecutionModel}
use autellix.Core.Policy.{Scheduler}
use autellix.Core.Program.{ProgramSpec, ProgramError, new_program, ids}
use autellix.Core.Run.{Simulator, SimulatorError, Outcome, run, calls_of}
use autellix.Core.Run.Outcome.{done, failed, out_of_fuel}
use autellix.Core.Run.Build.{Arguments, new_simulator, add_call}
use autellix.Core.Run.Idle.{step, run_until_idle}
use autellix.Core.Metrics.{MetricsError, SimulationResult, result}

pub record Session : Type 0 where
  pub session_id : ℕ
  pub program_id : ℕ
  pub arrival_time : ℤ
  pub calls : List CallSpec
  pub completed : Bool

-- The names that a counter gives to sessions and to calls. A session's program is named after it when
-- no name, or an empty one, is given.
pub record Names : Type 0 where
  pub session_name : ℕ → ℕ
  pub chat_name : ℕ → ℕ

-- `options` holds the arguments for the simulators, with no programs.
pub record Service : Type 0 where
  pub names : Names
  pub options : Arguments
  pub counter : ℕ
  pub sessions : Dict Session
  pub time : ℕ
  pub last_result : Option SimulationResult
  pub simulator : Option Simulator
  pub program_session_ids : Dict ℕ
  pub call_counters : Dict ℕ

pub data ServiceError : Type 0 where
  no_session session_completed missing_parents bad_steps no_sessions no_counter : ServiceError
  in_call : CallError → ServiceError
  in_program : ProgramError → ServiceError
  in_simulator : SimulatorError → ServiceError
  in_metrics : MetricsError → ServiceError
  never_ends : ServiceError

abbrev pub Serve : Type 0 → Type 0
Serve A = Result ServiceError A

-- `AutellixService(...)`.
unfoldable pub new_service : Names → Arguments → Service
new_service names options = record {
  names = names;
  options = options;
  counter = 1;
  sessions = [];
  time = 0;
  last_result = none;
  simulator = none;
  program_session_ids = [];
  call_counters = [];
}

-- `to_program`.
unfoldable pub to_program : Session → Serve ProgramSpec
to_program session =
    map_err in_program (new_program session.program_id session.calls session.arrival_time)

-- `program_id or sid`: the empty text, which is 0, is no name.
abbrev pub program_name : ℕ → Option ℕ → ℕ
program_name sid none = sid
program_name sid (some pid) = if pid == 0 then sid else pid

abbrev pub opened : Names → ℕ → Option ℕ → ℤ → Session
opened names n program_id arrival_time = record {
  session_id = names.session_name n;
  program_id = program_name (names.session_name n) program_id;
  arrival_time = arrival_time;
  calls = [];
  completed = false;
}

-- `start_session`.
unfoldable pub start_session : Option ℕ → ℤ → Service → Service × Session
start_session program_id arrival_time s =
    let session = opened s.names s.counter program_id arrival_time in
    let sid = session.session_id in
    (
      record s {
        counter = suc s.counter;
        sessions = insert sid session s.sessions;
        program_session_ids = insert session.program_id sid s.program_session_ids;
        call_counters = insert sid 1 s.call_counters;
      },
      session,
    )

-- The simulator's programs are those that it is given.
abbrev pub with_programs : Service → List ProgramSpec → Arguments
with_programs s programs = record (s.options) { programs = programs }

-- The first simulator, of a program that has just the call.
unfoldable pub live_simulator : CallSpec → Service → Serve Simulator
unfolding new_program
live_simulator first s = do
  sid ← or_fail (lookup first.program_id s.program_session_ids) no_session
  session ← or_fail (lookup sid s.sessions) no_session
  program ← map_err in_program (new_program first.program_id (first ∷ []) session.arrival_time)
  m ← map_err in_simulator (new_simulator (with_programs s (program ∷ [])))
  ok (if ltb m.time s.time then record m { time = s.time } else m)

-- `_ensure_live_simulator`.
unfoldable pub ensure_live_simulator : CallSpec → Service → Serve Simulator
unfolding live_simulator
ensure_live_simulator first s = elim s.simulator [ some m ↦ ok m | none ↦ live_simulator first s ]

abbrev pub with_call : CallSpec → Session → Session
with_call call session = record session { calls = session.calls ++ (call ∷ []) }

-- The arguments of `submit_call`, but for the session.
pub record Submission : Type 0 where
  pub call_id : ℕ
  pub model_time : ℤ
  pub prefill_tokens : ℤ
  pub decode_tokens : ℤ
  pub parents : List ℕ
  pub release_delay : ℤ

abbrev pub arguments_of : Submission → ℕ → ℕ → CallArguments
arguments_of a pid time = record {
  call_id = a.call_id;
  program_id = pid;
  model_time = a.model_time;
  prefill_tokens = a.prefill_tokens;
  decode_tokens = a.decode_tokens;
  parents = a.parents;
  release_delay = a.release_delay;
  submit_time = some (pos time);
}

-- The checks of `submit_call`, and the call that they make.
unfoldable pub checked_call : ℕ → Submission → Service → Serve CallSpec
unfolding new_call
checked_call sid a s = do
  session ← or_fail (lookup sid s.sessions) no_session
  require (not session.completed) session_completed
  require (all (λ p. mem p (ids session.calls)) a.parents) missing_parents
  map_err in_call (new_call (arguments_of a session.program_id s.time))

-- The simulator with the call.
unfoldable pub simulate_call : CallSpec → ℤ → Service → Serve Simulator
unfolding ensure_live_simulator
simulate_call call arrival_time s = do
  m ← ensure_live_simulator call s
  map_err in_simulator (add_call call (some arrival_time) true m)

abbrev pub arrival_at : ℕ → Service → ℤ
arrival_at sid s = elim (lookup sid s.sessions) [ none ↦ pos 0 | some v ↦ v.arrival_time ]

-- `submit_call`, with the service that an error leaves: the session keeps a call that the simulator
-- does not take.
unfoldable pub submit_call : ℕ → Submission → Service → Service × Serve CallSpec
unfolding checked_call simulate_call
submit_call sid a s = elim (checked_call sid a s) [
  | err e ↦ (s, err e)
  | ok call ↦
      let kept : Service = record s { sessions = update sid (with_call call) s.sessions } in
      elim (simulate_call call (arrival_at sid s) kept) [
        | err e ↦ (kept, err e)
        | ok m ↦ (record kept { simulator = some m }, ok call)
      ]
]

abbrev pub complete : Session → Session
complete session = record session { completed = true }

-- `complete_session` and `end_session`.
unfoldable pub end_session : ℕ → Service → Service × Serve ProgramSpec
unfolding to_program
end_session sid s = elim (lookup sid s.sessions) [
  | none ↦ (s, err no_session)
  | some session ↦
      (record s { sessions = update sid complete s.sessions }, to_program (complete session))
]
