-- ===== src/Frontend/Engine/Mirror.antt =====
-- The worker process of autellix/frontend/engine.py keeps up with its engine.
use autellix.Prelude.{
  ℕ, Bool, true, false, not, all, ◌==◌, arith, List, [], ◌∷◌, ◌++◌, none, some, ok, err, ◌≡◌, refl,
  sym, ap, subst, ◌∙◌, inl, inr, Option-cases, >>=-eq-ok, ok_injective,
}
use autellix.Prelude.Dict.{lookup}
use autellix.Prelude.Int.{pos}
use autellix.Core.State.{CallSpec}
use autellix.Frontend.Service.{Service, Serve, Submission, start_session, submit_call}
use autellix.Frontend.Service.Drive.{tick, serve_until_idle, drain as drain_service}
use autellix.Frontend.Engine.{
  SimulatedFuture, Command, submit, MultiEngine, submit_request, session_for, open_session, accept,
  tell, step_engine, idle_engine, drain_engine,
}
use autellix.Frontend.Engine.Worker.{
  Event, error, stepped, idle, drained, Worker, send, stop, worker_session, answer, work_submit,
  work, work_if, worker_main, Request, asks, steps, until_idle, drains, command_of, serve,
  serve_list,
}

worker_main-append :
    (cs : List Command) (c : Command) (w : Worker)
    → worker_main (cs ++ (c ∷ [])) w ≡ work_if (worker_main cs w).is_running c (worker_main cs w)
unfolding worker_main
worker_main-append [] c w = refl
worker_main-append (d ∷ cs) c w = worker_main-append cs c (work_if w.is_running d w)

-- A submission for a program with a name that is not empty.
abbrev pub is_named : Request → Bool
is_named (asks pid a) = not (pid == 0)
is_named _ = true

-- The worker is where the engine is.
abbrev pub Agrees : Worker → MultiEngine → Type 0
Agrees w e = (w.is_running ≡ true) × (w.service ≡ e.service) × (w.sessions ≡ e.program_sessions)

-- What the worker makes of the commands that the engine sent agrees with the engine.
abbrev pub Mirrors : Worker → MultiEngine → Type 0
Mirrors start e = (sent : List Command) × (e.worker ≡ some sent) × Agrees (worker_main sent start) e

-- A request that only drives the service.
drive-Agrees :
    {A : Type 0} (f : Service → Serve (Service × A)) (event : Service × A → Event) (w : Worker)
    (e next : MultiEngine) (q : Service × A)
    → Agrees w e
    → f e.service ≡ ok q
    → next.service ≡ q.0
    → next.program_sessions ≡ e.program_sessions
    → Agrees
        (elim (f w.service) [
          | ok p ↦ send (event p) (record w { service = p.0 })
          | err x ↦ stop error w
        ])
        next
drive-Agrees f event w e next q (runs, same, sessions) h service kept =
    let here = ap f same ∙ h in rw here (runs, sym service, sessions ∙ sym kept)

answer-Agrees :
    (sid pid cid : ℕ) (p : Service × Serve CallSpec) (w : Worker) (e : MultiEngine)
    (f : SimulatedFuture)
    → w.is_running ≡ true
    → w.sessions ≡ e.program_sessions
    → (accept sid p e).1 ≡ ok f
    → Agrees (answer pid cid p w) (accept sid p e).0
unfolding accept answer
answer-Agrees sid pid cid (after, ok call) w e f runs sessions h = (runs, refl, sessions)
answer-Agrees sid pid cid (after, err x) w e f runs sessions h = absurd cc

-- The session is the same in both.
session-Agrees :
    (pid : ℕ) (w : Worker) (e : MultiEngine)
    → (pid == 0) ≡ false
    → Agrees w e
    → Agrees (worker_session pid w).0 (session_for none pid e).0
      × ((worker_session pid w).1 ≡ (session_for none pid e).1)
unfolding worker_session session_for open_session start_session
session-Agrees pid w e named (runs, same, sessions) =
    elim (Option-cases (lookup pid e.program_sessions)) [
      | inr (sid, g) ↦
          let there = ap (lookup pid) sessions ∙ g in
          rw (there, g, worker_session, session_for) ((runs, same, sessions), refl)
      | inl g ↦
          let there = ap (lookup pid) sessions ∙ g in
          let opened = λ (v : Service). start_session (some pid) (pos v.time) v in
          rw (there, g, worker_session, session_for)
            (
              (runs, ap (λ v. (opened v).0) same, rw (same, sessions, named) refl),
              ap (λ v. (opened v).1.session_id) same,
            )
    ]

submit-Agrees :
    (pid : ℕ) (a : Submission) (w : Worker) (e : MultiEngine) (f : SimulatedFuture)
    → (pid == 0) ≡ false
    → Agrees w e
    → (submit_request pid a none e).1 ≡ ok f
    → Agrees (work_submit pid a w) (submit_request pid a none e).0
unfolding work_submit submit_request
submit-Agrees pid a w e f named h s =
    let told = tell (submit pid a) e in
    let there = worker_session pid w in
    let here = session_for none pid told in
    let (agree, same) = session-Agrees pid w told named h in
    let calls =
      ap (λ n. submit_call n a there.0.service) same ∙ ap (λ v. submit_call (here.1) a v) agree.1 in
    subst
      (λ v.
        Agrees (answer pid a.call_id v (there.0))
          (accept (here.1) (submit_call (here.1) a here.0.service) (here.0)).0)
      (sym calls)
      (answer-Agrees (here.1) pid a.call_id (submit_call (here.1) a here.0.service) (there.0)
        (here.0) f agree.0 agree.2 s)

work-Agrees :
    (r : Request) (w : Worker) (e next : MultiEngine)
    → is_named r ≡ true
    → Agrees w e
    → serve r e ≡ ok next
    → Agrees (work (command_of r) w) next
unfolding serve work step_engine idle_engine drain_engine
work-Agrees (asks pid a) w e next named h s =
    let (f, g, last) = >>=-eq-ok (submit_request pid a none e).1 _ s in
    subst (Agrees (work_submit pid a w)) (ok_injective last)
      (submit-Agrees pid a w e f (ground arith) h g)
work-Agrees (steps n) w e next named h s =
    let (p, s1, last) = >>=-eq-ok (step_engine n e) _ s in
    let (q, f, s2) = >>=-eq-ok (tick n e.service) _ s1 in
    let now = ap (λ x. x.0) (ok_injective s2) ∙ ok_injective last in
    drive-Agrees (tick n) (λ p. stepped p.0.time) w e next q h f
      (sym (ap (λ (x : MultiEngine). x.service) now))
      (sym (ap (λ (x : MultiEngine). x.program_sessions) now))
work-Agrees until_idle w e next named h s =
    let (p, s1, last) = >>=-eq-ok (idle_engine e) _ s in
    let (q, f, s2) = >>=-eq-ok (serve_until_idle e.service) _ s1 in
    let now = ap (λ x. x.0) (ok_injective s2) ∙ ok_injective last in
    drive-Agrees serve_until_idle (λ p. idle p.0.time) w e next q h f
      (sym (ap (λ (x : MultiEngine). x.service) now))
      (sym (ap (λ (x : MultiEngine). x.program_sessions) now))
work-Agrees drains w e next named h s =
    let (p, s1, last) = >>=-eq-ok (drain_engine e) _ s in
    let (q, f, s2) = >>=-eq-ok (drain_service e.service) _ s1 in
    let now = ap (λ x. x.0) (ok_injective s2) ∙ ok_injective last in
    drive-Agrees drain_service (λ p. drained p.1.makespan) w e next q h f
      (sym (ap (λ (x : MultiEngine). x.service) now))
      (sym (ap (λ (x : MultiEngine). x.program_sessions) now))

session_for-worker : (pid : ℕ) (e : MultiEngine) → (session_for none pid e).0.worker ≡ e.worker
unfolding session_for open_session
session_for-worker pid e = elim (Option-cases (lookup pid e.program_sessions)) [
  | inl g ↦ rw (g, session_for) refl
  | inr (sid, g) ↦ rw (g, session_for) refl
]

accept-worker :
    (sid : ℕ) (p : Service × Serve CallSpec) (e : MultiEngine)
    → (accept sid p e).0.worker ≡ e.worker
unfolding accept
accept-worker sid (after, ok call) e = refl
accept-worker sid (after, err x) e = refl

-- The engine tells its worker of each request.
serve-worker :
    (r : Request) (e next : MultiEngine)
    → serve r e ≡ ok next
    → next.worker ≡ (tell (command_of r) e).worker
unfolding serve submit_request step_engine idle_engine drain_engine
serve-worker (asks pid a) e next s =
    let told = tell (submit pid a) e in
    let here = session_for none pid told in
    let (f, g, last) = >>=-eq-ok (submit_request pid a none e).1 _ s in
    sym (ap (λ (x : MultiEngine). x.worker) (ok_injective last))
    ∙ accept-worker (here.1) (submit_call (here.1) a here.0.service) (here.0)
    ∙ session_for-worker pid told
serve-worker (steps n) e next s =
    let (p, s1, last) = >>=-eq-ok (step_engine n e) _ s in
    let (q, f, s2) = >>=-eq-ok (tick n e.service) _ s1 in
    sym (ap (λ (x : MultiEngine). x.worker) (ap (λ x. x.0) (ok_injective s2) ∙ ok_injective last))
serve-worker until_idle e next s =
    let (p, s1, last) = >>=-eq-ok (idle_engine e) _ s in
    let (q, f, s2) = >>=-eq-ok (serve_until_idle e.service) _ s1 in
    sym (ap (λ (x : MultiEngine). x.worker) (ap (λ x. x.0) (ok_injective s2) ∙ ok_injective last))
serve-worker drains e next s =
    let (p, s1, last) = >>=-eq-ok (drain_engine e) _ s in
    let (q, f, s2) = >>=-eq-ok (drain_service e.service) _ s1 in
    sym (ap (λ (x : MultiEngine). x.worker) (ap (λ x. x.0) (ok_injective s2) ∙ ok_injective last))

serve-Mirrors :
    (start : Worker) (r : Request) (e next : MultiEngine)
    → is_named r ≡ true
    → Mirrors start e
    → serve r e ≡ ok next
    → Mirrors start next
unfolding work_if
serve-Mirrors start r e next named (sent, told, agree) s =
    let c = command_of r in
    let grown = rw told at (serve-worker r e next s) in
    let last = worker_main sent start in
    let reached = worker_main-append sent c start ∙ ap (λ b. work_if b c last) agree.0 in
    (
      sent ++ (c ∷ []),
      grown,
      subst (λ (x : Worker). Agrees x next) (sym reached) (work-Agrees r last e next named agree s),
    )

-- If the worker process mirrors the engine, it does so after any sequence of steps, runs until idle,
-- drains and submissions that raises no error, where each submission names a program, by a text that
-- is not empty, and leaves the session to the engine: once the worker has done the commands sent to
-- it, its service is the engine's, and it knows the same sessions.
pub serve_list-Mirrors :
    (start : Worker) (rs : List Request) (e next : MultiEngine)
    → all is_named rs ≡ true
    → Mirrors start e
    → serve_list rs e ≡ ok next
    → Mirrors start next
unfolding serve_list
serve_list-Mirrors start [] e next named m h = subst (Mirrors start) (ok_injective h) m
serve_list-Mirrors start (r ∷ rs) e next named m h =
    let (mid, first, rest) = >>=-eq-ok (serve r e) _ h in
    serve_list-Mirrors start rs mid next (ground arith)
      (serve-Mirrors start r e mid (ground arith) m first) rest
