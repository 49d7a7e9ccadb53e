-- ===== src/Frontend/Service/Drain.antt =====
-- `AutellixService.drain` of autellix/frontend/service.py: the sessions that it drops.
use autellix.Prelude.{
  ℕ, ◌≡◌, inl, inr, true, [], ◌∷◌, none, some, ok, arith, ◌==◌, Bool-cases, Option-cases, >>=-eq-ok,
  ok_injective, some_injective, sym, ap, ◌∙◌, subst,
}
use autellix.Prelude.Dict.{Dict, lookup, has_key, lookup-erase}
use autellix.Core.Run.{run}
use autellix.Core.Metrics.{SimulationResult}
use autellix.Frontend.Service.{Session, Service}
use autellix.Frontend.Service.Drive.{
  drop_sessions, drained, drain, replay, serve_until_idle, ended, result_of, fuel,
}

drop_sessions-none :
    (r : SimulationResult) (d : Dict Session) (s : Service) (sid : ℕ)
    → lookup sid s.sessions ≡ none
    → lookup sid (drop_sessions r d s).sessions ≡ none
unfolding drop_sessions
drop_sessions-none r [] s sid h = h
drop_sessions-none r ((j, v) ∷ d) s sid h =
    elim (Bool-cases (has_key v.program_id r.program_metrics)) [
      | inl e ↦
          rw (e, drop_sessions)
            (drop_sessions-none r d _ sid (ground (arith, lookup-erase j sid s.sessions)))
      | inr e ↦ rw (e, drop_sessions) (drop_sessions-none r d s sid h)
    ]

drop_sessions-drops :
    (r : SimulationResult) (d : Dict Session) (s : Service) (sid : ℕ) (session : Session)
    → lookup sid d ≡ some session
    → has_key session.program_id r.program_metrics ≡ true
    → lookup sid (drop_sessions r d s).sessions ≡ none
unfolding drop_sessions
drop_sessions-drops r [] s sid session h e = absurd cc
drop_sessions-drops r ((j, v) ∷ d) s sid session h e = elim (Bool-cases (j == sid)) [
  | inr other ↦ drop_sessions-drops r d _ sid session (rw other at h) e
  | inl same ↦
      let this : v ≡ session = some_injective (rw same at h) in
      let known =
        subst (λ (x : Session). has_key x.program_id r.program_metrics ≡ true) (sym this) e in
      rw (known, drop_sessions)
        (drop_sessions-none r d _ sid (ground (arith, lookup-erase j sid s.sessions)))
]

drained-sessions :
    (s : Service) (p : Service × SimulationResult) → drained s ≡ ok p → p.0.sessions ≡ s.sessions
unfolding drained serve_until_idle
drained-sessions s p h = elim (Option-cases s.simulator) [
  | inl e ↦
      let h1 = rw (e, drained) at h in
      let (r, _, last) = >>=-eq-ok (replay true s) _ (rw (e, serve_until_idle) at h1) in
      sym (ap (λ (x : Service × SimulationResult). x.0.sessions) (ok_injective last))
  | inr (m, e) ↦
      let (end, _, h1) = >>=-eq-ok (ended (run (fuel m) m)) _ (rw (e, drained) at h) in
      let (r, _, last) = >>=-eq-ok (result_of end) _ h1 in
      sym (ap (λ (x : Service × SimulationResult). x.0.sessions) (ok_injective last))
]

-- `drain` leaves no simulator, and no session whose program is in its result.
pub drain-drops :
    (s after : Service) (r : SimulationResult) (sid : ℕ) (session : Session)
    → drain s ≡ ok (after, r)
    → lookup sid s.sessions ≡ some session
    → has_key session.program_id r.program_metrics ≡ true
    → (after.simulator ≡ none) × (lookup sid after.sessions ≡ none)
unfolding drain
drain-drops s after r sid session h found known =
    let (p, first, last) = >>=-eq-ok (drained s) _ h in
    let same = ok_injective last in
    let result : p.1 ≡ r = ap (λ (x : Service × SimulationResult). x.1) same in
    let there = ap (lookup sid) (drained-sessions s p first) ∙ found in
    let dropped = drop_sessions-drops (p.1) p.0.sessions (p.0) sid session there (
      subst (λ (x : SimulationResult). has_key session.program_id x.program_metrics ≡ true)
        (sym result) known) in
    (
      sym (ap (λ (x : Service × SimulationResult). x.0.simulator) same),
      subst (λ (x : Service × SimulationResult). lookup sid x.0.sessions ≡ none) same dropped,
    )
