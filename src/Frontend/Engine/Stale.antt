-- ===== src/Frontend/Engine/Stale.antt =====
-- `AsyncMultiLLMEngine.drain` of autellix/frontend/engine.py keeps the names of dropped sessions.
use autellix.Prelude.{
  ℕ, ◌≡◌, refl, sym, ap, subst, ◌∙◌, true, none, some, ok, err, >>=-eq-ok, ok_injective,
}
use autellix.Prelude.Dict.{lookup, has_key}
use autellix.Core.State.{CallSpec}
use autellix.Core.Metrics.{SimulationResult}
use autellix.Frontend.Service.{
  Session, Service, Serve, no_session, Submission, submit_call, checked_call,
}
use autellix.Frontend.Service.Drive.{drain as drain_service}
use autellix.Frontend.Service.Drain.{drain-drops}
use autellix.Frontend.Engine.{
  MultiEngine, SimulatedFuture, submit, tell, accept, session_for, submit_request, drain_engine,
}

no_session-submit_call :
    (sid : ℕ) (a : Submission) (s : Service)
    → lookup sid s.sessions ≡ none
    → submit_call sid a s ≡ (s, err no_session)
unfolding submit_call checked_call
no_session-submit_call sid a s h = rw (h, submit_call, checked_call) refl

session_for-known :
    (pid sid : ℕ) (e : MultiEngine)
    → lookup pid e.program_sessions ≡ some sid
    → session_for none pid e ≡ (e, sid)
unfolding session_for
session_for-known pid sid e h = rw (h, session_for) refl

-- After a `drain` whose result has the program of a session that the engine knows, a request for that
-- program that names no session raises the error of a missing session, and opens no new one: the
-- service, with its sessions, and the engine's sessions by program stay as they are.
pub drain_engine-stale :
    (e after : MultiEngine) (r : SimulationResult) (pid sid : ℕ) (session : Session)
    (a : Submission)
    → drain_engine e ≡ ok (after, r)
    → lookup pid e.program_sessions ≡ some sid
    → lookup sid e.service.sessions ≡ some session
    → has_key session.program_id r.program_metrics ≡ true
    → ((submit_request pid a none after).1 ≡ err no_session)
      × ((submit_request pid a none after).0.service ≡ after.service)
      × ((submit_request pid a none after).0.program_sessions ≡ after.program_sessions)
unfolding drain_engine submit_request session_for accept
drain_engine-stale e after r pid sid session a h named found known =
    let (p, first, last) = >>=-eq-ok (drain_service e.service) _ h in
    let same = ok_injective last in
    let result = ap (λ (x : MultiEngine × SimulationResult). x.1) same in
    let there =
      ap (λ (x : MultiEngine × SimulationResult). lookup pid x.0.program_sessions) (sym same)
      ∙ named in
    let service = ap (λ (x : MultiEngine × SimulationResult). x.0.service) same in
    let dropped =
      (drain-drops e.service (p.0) (p.1) sid session first found (
        subst (λ (x : SimulationResult). has_key session.program_id x.program_metrics ≡ true)
          (sym result) known)).1 in
    let gone = subst (λ (x : Service). lookup sid x.sessions ≡ none) service dropped in
    let told = tell (submit pid a) after in
    let answer : submit_request pid a none after ≡ (told, err no_session) =
      ap (λ (q : MultiEngine × ℕ). accept (q.1) (submit_call (q.1) a q.0.service) (q.0))
        (session_for-known pid sid told there)
      ∙ ap (λ (q : Service × Serve CallSpec). accept sid q told)
          (no_session-submit_call sid a after.service gone) in
    (
      ap (λ (q : MultiEngine × Serve SimulatedFuture). q.1) answer,
      ap (λ (q : MultiEngine × Serve SimulatedFuture). q.0.service) answer,
      ap (λ (q : MultiEngine × Serve SimulatedFuture). q.0.program_sessions) answer,
    )
