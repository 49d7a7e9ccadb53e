-- ===== src/Frontend/Engine/Worker.antt =====
-- `_worker_main` of autellix/frontend/engine.py, and the requests that the engine passes on to it.
use autellix.Prelude.{ℕ, Bool, true, false, List, [], ◌∷◌, ◌++◌, none, some, ok, err, ◌>>=◌}
use autellix.Prelude.Dict.{Dict, lookup, insert}
use autellix.Prelude.Int.{ℤ, pos}
use autellix.Core.State.{CallSpec}
use autellix.Core.Run.Build.{Arguments}
use autellix.Frontend.Service.{
  Names, Service, Serve, Submission, new_service, start_session, submit_call,
}
use autellix.Frontend.Service.Drive.{tick, serve_until_idle, drain as drain_service}
use autellix.Frontend.Engine.{
  Command, submit, step, run_until_idle, drain, close, MultiEngine, submit_request, step_engine,
  idle_engine, drain_engine,
}

pub data Event : Type 0 where
  closed error : Event
  submitted : ℕ → ℕ → Event
  stepped idle drained : ℕ → Event

pub record Worker : Type 0 where
  pub service : Service
  pub sessions : Dict ℕ
  pub events : List Event
  pub is_running : Bool

-- `conn.send`.
abbrev pub send : Event → Worker → Worker
send e w = record w { events = w.events ++ (e ∷ []) }

-- The end of the loop, by a command or by an error.
abbrev pub stop : Event → Worker → Worker
stop e w = record (send e w) { is_running = false }

-- The session of a program in the worker.
unfoldable pub worker_session : ℕ → Worker → Worker × ℕ
unfolding start_session
worker_session pid w = elim (lookup pid w.sessions) [
  | some sid ↦ (w, sid)
  | none ↦
      let p = start_session (some pid) (pos w.service.time) w.service in
      (record w { service = p.0; sessions = insert pid p.1.session_id w.sessions }, p.1.session_id)
]

-- What the worker keeps of its service's answer to a call.
unfoldable pub answer : ℕ → ℕ → Service × Serve CallSpec → Worker → Worker
answer pid cid (after, ok call) w = send (submitted pid cid) (record w { service = after })
answer pid cid (after, err e) w = stop error (record w { service = after })

unfoldable pub work_submit : ℕ → Submission → Worker → Worker
unfolding worker_session answer submit_call
work_submit pid a w =
    let q = worker_session pid w in answer pid a.call_id (submit_call (q.1) a q.0.service) (q.0)

-- One command of a worker that runs.
unfoldable pub work : Command → Worker → Worker
unfolding work_submit
work (submit pid a) w = work_submit pid a w
work (step steps) w = elim (tick steps w.service) [
  | ok p ↦ send (stepped p.0.time) (record w { service = p.0 })
  | err e ↦ stop error w
]
work run_until_idle w = elim (serve_until_idle w.service) [
  | ok p ↦ send (idle p.0.time) (record w { service = p.0 })
  | err e ↦ stop error w
]
work drain w = elim (drain_service w.service) [
  | ok p ↦ send (drained p.1.makespan) (record w { service = p.0 })
  | err e ↦ stop error w
]
work close w = stop closed w

unfoldable pub work_if : Bool → Command → Worker → Worker
unfolding work
work_if true c w = work c w
work_if false c w = w

-- `_worker_main` on the commands that it gets.
unfoldable pub worker_main : List Command → Worker → Worker
unfolding work_if
worker_main [] w = w
worker_main (c ∷ cs) w = worker_main cs (work_if w.is_running c w)

unfoldable pub new_worker : Names → Arguments → Worker
new_worker names options = record {
  service = new_service names options;
  sessions = [];
  events = [];
  is_running = true;
}

-- The requests that the engine passes on.
pub data Request : Type 0 where
  asks : ℕ → Submission → Request
  steps : ℤ → Request
  until_idle drains : Request

abbrev pub command_of : Request → Command
command_of (asks pid a) = submit pid a
command_of (steps n) = step n
command_of until_idle = run_until_idle
command_of drains = drain

-- A request of the engine that raises no error.
unfoldable pub serve : Request → MultiEngine → Serve MultiEngine
serve (asks pid a) e = do f ← (submit_request pid a none e).1; ok ((submit_request pid a none e).0)
serve (steps n) e = do p ← step_engine n e; ok (p.0)
serve until_idle e = do p ← idle_engine e; ok (p.0)
serve drains e = do p ← drain_engine e; ok (p.0)

unfoldable pub serve_list : List Request → MultiEngine → Serve MultiEngine
unfolding serve
serve_list [] e = ok e
serve_list (r ∷ rs) e = do next ← serve r e; serve_list rs next
