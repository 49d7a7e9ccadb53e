-- ===== src/Frontend/Engine.antt =====
-- `AsyncMultiLLMEngine` of autellix/frontend/engine.py, and the loop of its worker process. The worker
-- is known by the commands that were put in its queue.
pub mod Worker
pub mod Mirror
pub mod Stale
use autellix.Prelude.{
  ℕ, Bool, true, false, not, List, [], ◌∷◌, ◌++◌, Option, none, some, Result, ok, err, ◌>>=◌,
  or_fail, require, ◌>>◌, if◌then◌else◌,
}
use autellix.Prelude.Dict.{Dict, lookup, insert}
use autellix.Prelude.Int.{ℤ, pos}
use autellix.Core.State.{CallSpec, CallState}
use autellix.Core.Program.{ProgramSpec}
use autellix.Core.Run.Build.{Arguments}
use autellix.Core.Metrics.{SimulationResult}
use autellix.Frontend.Response.{SimulatedChatResponse, make_simulated_response}
use autellix.Frontend.Service.{
  Session, Names, Service, Serve, ServiceError, Submission, new_service, start_session, submit_call,
  end_session,
}
use autellix.Frontend.Service.Drive.{tick, serve_until_idle, drain as drain_service}
use autellix.Frontend.Service.Chat.{known_state}

pub data Command : Type 0 where
  submit : ℕ → Submission → Command
  step : ℤ → Command
  run_until_idle drain close : Command

-- A call's key, with its session.
pub record SimulatedFuture : Type 0 where
  pub session_id : ℕ
  pub program_id : ℕ
  pub call_id : ℕ

pub record MultiEngine : Type 0 where
  pub service : Service
  pub program_sessions : Dict ℕ
  pub futures : List SimulatedFuture
  pub worker : Option (List Command)

pub data FutureError : Type 0 where
  unknown_request not_finished : FutureError

-- `AsyncMultiLLMEngine(...)`.
unfoldable pub new_engine : Names → Arguments → Bool → MultiEngine
unfolding new_service
new_engine names options process_mode = record {
  service = new_service names options;
  program_sessions = [];
  futures = [];
  worker = if process_mode then some [] else none;
}

-- `self._worker.…(…)`, if there is a worker.
abbrev pub tell : Command → MultiEngine → MultiEngine
tell c e = record e { worker = elim e.worker [ none ↦ none | some sent ↦ some (sent ++ (c ∷ [])) ] }

-- `start_session`, which the worker does not learn of.
unfoldable pub open_session : Option ℕ → ℤ → MultiEngine → MultiEngine × Session
unfolding start_session
open_session program_id arrival_time e =
    let p = start_session program_id arrival_time e.service in
    (
      record e {
        service = p.0;
        program_sessions = insert p.1.program_id p.1.session_id e.program_sessions;
      },
      p.1,
    )

-- The session of a request: the one that it names, the program's, or a new one.
unfoldable pub session_for : Option ℕ → ℕ → MultiEngine → MultiEngine × ℕ
unfolding open_session
session_for session_id program_id e = elim session_id [
  | some sid ↦ (e, sid)
  | none ↦ elim (lookup program_id e.program_sessions) [
    | some sid ↦ (e, sid)
    | none ↦ let p = open_session (some program_id) (pos e.service.time) e in (p.0, p.1.session_id)
  ]
]

abbrev pub future_of : ℕ → CallSpec → SimulatedFuture
future_of sid call = record {
  session_id = sid;
  program_id = call.program_id;
  call_id = call.call_id;
}

-- What the engine keeps of its service's answer to a call.
unfoldable pub accept :
    ℕ → Service × Serve CallSpec → MultiEngine → MultiEngine × Serve SimulatedFuture
accept sid (after, err x) e = (record e { service = after }, err x)
accept sid (after, ok call) e = (
  record e { service = after; futures = e.futures ++ (future_of sid call ∷ []) },
  ok (future_of sid call),
)

-- `submit_call`.
unfoldable pub submit_request :
    ℕ → Submission → Option ℕ → MultiEngine → MultiEngine × Serve SimulatedFuture
unfolding session_for accept submit_call
submit_request program_id a session_id e =
    let q = session_for session_id program_id (tell (submit program_id a) e) in
    accept (q.1) (submit_call (q.1) a q.0.service) (q.0)

-- `end_session`.
unfoldable pub end_request_session : ℕ → MultiEngine → MultiEngine × Serve ProgramSpec
unfolding end_session
end_request_session sid e = let p = end_session sid e.service in (record e { service = p.0 }, p.1)

-- `step`.
unfoldable pub step_engine : ℤ → MultiEngine → Serve (MultiEngine × Option SimulationResult)
unfolding tick
step_engine steps e = do
  p ← tick steps e.service
  ok (record (tell (step steps) e) { service = p.0 }, p.1)

-- `run_until_idle`.
unfoldable pub idle_engine : MultiEngine → Serve (MultiEngine × SimulationResult)
unfolding serve_until_idle
idle_engine e = do
  p ← serve_until_idle e.service
  ok (record (tell run_until_idle e) { service = p.0 }, p.1)

-- `drain`.
unfoldable pub drain_engine : MultiEngine → Serve (MultiEngine × SimulationResult)
unfolding drain_service
drain_engine e = do p ← drain_service e.service; ok (record (tell drain e) { service = p.0 }, p.1)

-- `shutdown`.
unfoldable pub shutdown_engine : MultiEngine → MultiEngine
shutdown_engine e = record e { worker = none }

-- `_state_for_key`.
unfoldable pub state_for_key : SimulatedFuture → MultiEngine → Option CallState
unfolding known_state
state_for_key f e = known_state f.program_id f.call_id e.service

abbrev pub is_finished : CallState → Bool
is_finished c = elim c.finish_time [ none ↦ false | some t ↦ true ]

-- `SimulatedRequestFuture.done`.
unfoldable pub is_done : SimulatedFuture → MultiEngine → Result FutureError Bool
unfolding state_for_key
is_done f e = do c ← or_fail (state_for_key f e) unknown_request; ok (is_finished c)

-- `SimulatedRequestFuture.result`.
unfoldable pub response_of :
    SimulatedFuture → MultiEngine → Result FutureError SimulatedChatResponse
unfolding is_done
response_of f e = do
  c ← or_fail (state_for_key f e) unknown_request
  require (is_finished c) not_finished
  ok (make_simulated_response f.session_id c e.service.last_result)
