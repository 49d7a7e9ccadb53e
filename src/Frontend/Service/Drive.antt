-- ===== src/Frontend/Service/Drive.antt =====
-- How `AutellixService` of autellix/frontend/service.py lets its simulator run. The model stops at
-- an error of the simulator.
use autellix.Prelude.{
  ℕ, suc, ◌+◌, Bool, true, false, not, ◌&&◌, ◌||◌, List, [], ◌∷◌, Option, none, some, ok, err,
  ◌>>=◌, ◌>>◌, require, map_err, ltb, length, if◌then◌else◌,
}
use autellix.Prelude.Dict.{Dict, erase, has_key}
use autellix.Prelude.Int.{ℤ, pos_part}
use autellix.Core.State.{is_positive}
use autellix.Core.Program.{ProgramSpec}
use autellix.Core.Run.{Simulator, Outcome, run}
use autellix.Core.Run.Outcome.{done, failed, out_of_fuel}
use autellix.Core.Run.Build.{new_simulator}
use autellix.Core.Run.Idle.{step, run_until_idle}
use autellix.Core.Metrics.{SimulationResult, result}
use autellix.Frontend.Service.{
  Session, Service, Serve, bad_steps, no_sessions, in_simulator, in_metrics, never_ends, to_program,
  with_programs, end_session,
}

unfoldable pub to_programs : Bool → Dict Session → Serve (List ProgramSpec)
unfolding to_program
to_programs include_open [] = ok []
to_programs include_open ((sid, session) ∷ rest) =
    if session.completed || include_open
    then (do
      program ← to_program session
      programs ← to_programs include_open rest
      ok (program ∷ programs))
    else to_programs include_open rest

-- `_programs`.
unfoldable pub programs : Bool → Service → Serve (List ProgramSpec)
unfolding to_programs
programs include_open s = do
  found ← to_programs include_open s.sessions
  require (ltb 0 (length found)) no_sessions
  ok found

-- `_make_simulator`.
unfoldable pub make_simulator : List ProgramSpec → Service → Serve Simulator
make_simulator ps s = map_err in_simulator (new_simulator (with_programs s ps))

-- A run goes to its end with fuel for the time that its simulator has.
abbrev pub fuel : Simulator → ℕ
fuel m = suc (suc m.max_time)

abbrev pub ended : Outcome → Serve Simulator
ended (done m) = ok m
ended (failed e) = err (in_simulator e)
ended out_of_fuel = err never_ends

abbrev pub result_of : Simulator → Serve SimulationResult
result_of m = map_err in_metrics (result m)

-- `tick`.
unfoldable pub tick : ℤ → Service → Serve (Service × Option SimulationResult)
tick steps s = do
  require (is_positive steps) bad_steps
  elim s.simulator [
    | none ↦ ok (record s { time = s.time + pos_part steps }, none)
    | some m ↦ do
      next ← map_err in_simulator (step steps m)
      r ← result_of next
      ok (record s { simulator = some next; time = next.time; last_result = some r }, some r)
  ]

-- A service with no simulator replays its sessions.
unfoldable pub replay : Bool → Service → Serve SimulationResult
unfolding programs make_simulator
replay include_open s = do
  ps ← programs include_open s
  m ← make_simulator ps s
  last ← ended (run (fuel m) m)
  result_of last

-- `run_until_idle`.
unfoldable pub serve_until_idle : Service → Serve (Service × SimulationResult)
unfolding replay
serve_until_idle s = elim s.simulator [
  | none ↦ do r ← replay true s; ok (record s { last_result = some r }, r)
  | some m ↦ do
    last ← ended (run_until_idle (fuel m) m)
    r ← result_of last
    ok (record s { simulator = some last; time = last.time; last_result = some r }, r)
]

-- The loop of `drain` over the sessions.
unfoldable pub drop_sessions : SimulationResult → Dict Session → Service → Service
drop_sessions r [] s = s
drop_sessions r ((sid, session) ∷ rest) s = drop_sessions r rest (
    if has_key session.program_id r.program_metrics
    then record s {
      sessions = erase sid s.sessions;
      program_session_ids = erase session.program_id s.program_session_ids;
      call_counters = erase sid s.call_counters;
    }
    else s)

-- What `drain` runs before it drops sessions.
unfoldable pub drained : Service → Serve (Service × SimulationResult)
unfolding serve_until_idle
drained s = elim s.simulator [
  | none ↦ serve_until_idle s
  | some m ↦ do
    last ← ended (run (fuel m) m)
    r ← result_of last
    ok (record s { simulator = some last; time = last.time; last_result = some r }, r)
]

-- `drain`.
unfoldable pub drain : Service → Serve (Service × SimulationResult)
unfolding drained drop_sessions
drain s = do
  p ← drained s
  ok (record (drop_sessions (p.1) (p.0.sessions) (p.0)) { simulator = none }, p.1)

-- `run`.
unfoldable pub serve_all : Service → Serve (Service × SimulationResult)
unfolding replay
serve_all s = elim s.simulator [
  | none ↦ do r ← replay false s; ok (record s { last_result = some r }, r)
  | some m ↦ do
    last ← ended (run (fuel m) m)
    r ← result_of last
    ok (record s { simulator = some last; last_result = some r }, r)
]

unfoldable pub end_known : ℕ → Service → Serve Service
unfolding end_session
end_known sid s =
    if has_key sid s.sessions
    then (do p ← (end_session sid s).1; ok ((end_session sid s).0))
    else ok s

unfoldable pub drain_only : Service → Serve Service
unfolding drain
drain_only s = do p ← drain s; ok (p.0)

-- `SessionContext.__exit__` for a session that was started; `raised` tells that its body raised.
unfoldable pub exit_session : ℕ → Bool → Bool → Service → Serve Service
unfolding end_known drain_only
exit_session sid drain_on_exit raised s = do
  next ← end_known sid s
  if drain_on_exit && not raised then drain_only next else ok next
