-- ===== src/Core/Run/Termination.antt =====
-- The steps of `Simulator.run` of autellix/core/simulator.py, and how many there can be.
use autellix.Prelude.{
  ℕ, zero, suc, ◌+◌, ◌-◌, ◌≤◌, ◌<◌, ◌≡◌, refl, sym, ap, subst, ◌∙◌, ◌⊎◌, inl, inr, Bool, true,
  false, List, [], ◌∷◌, ok, arith, ltb, Bool-cases, Result-cases, >>=-eq-ok, ok_injective, any,
  or_fail, if◌then◌else◌,
}
use autellix.Prelude.Dict.{lookup}
use autellix.Prelude.Sort.{sort}
use autellix.Core.State.{CallState}
use autellix.Core.Program.{ProgramSpec}
use autellix.Core.Run.{
  is_busy, ready_times, schedule_all, execute_all, Simulator, SimulatorError, admit_call,
  place_ready, missing_call, missing_program, release_call, release_loop, release_ready_calls,
  next_time, skip_idle, step_phases, step_once, finished, run, arrival_of, arrival_le, ready_time,
}
use autellix.Core.Run.Outcome.{done, failed}

admit_call-max_time :
    (time r : ℕ) (c : CallState) (program : ProgramSpec) (s next : Simulator)
    → admit_call time r c program s ≡ ok next
    → next.max_time ≡ s.max_time
unfolding admit_call
admit_call-max_time time r c program s next h =
    let (a, _, rest) = >>=-eq-ok (place_ready time r c program s) _ h in
    sym (ap (λ (x : Simulator). x.max_time) (ok_injective rest))

branch-max_time :
    (early : Bool) (time r : ℕ) (c : CallState) (program : ProgramSpec) (s next : Simulator)
    → (if early then ok s else admit_call time r c program s) ≡ ok next
    → next.max_time ≡ s.max_time
branch-max_time true time r c program s next h =
    sym (ap (λ (x : Simulator). x.max_time) (ok_injective h))
branch-max_time false time r c program s next h = admit_call-max_time time r c program s next h

release_call-max_time :
    (time r : ℕ) (s next : Simulator) → release_call time r s ≡ ok next → next.max_time ≡ s.max_time
unfolding release_call
release_call-max_time time r s next h =
    let (ready, _, h1) = >>=-eq-ok (ready_time s r) _ h in
    let (c, _, h2) = >>=-eq-ok (or_fail (lookup r s.store.calls) missing_call) _ h1 in
    let (program, _, h3) =
      >>=-eq-ok (or_fail (lookup c.spec.program_id s.programs) missing_program) _ h2 in
    branch-max_time (ltb time ready) time r c program s next h3

release_loop-max_time :
    (time : ℕ) (rs : List ℕ) (s next : Simulator)
    → release_loop time rs s ≡ ok next
    → next.max_time ≡ s.max_time
unfolding release_loop
release_loop-max_time time [] s next h = sym (ap (λ (x : Simulator). x.max_time) (ok_injective h))
release_loop-max_time time (r ∷ rs) s next h =
    let (m, first, rest) = >>=-eq-ok (release_call time r s) _ h in
    release_loop-max_time time rs m next rest ∙ release_call-max_time time r s m first

release_ready_calls-max_time :
    (time : ℕ) (s next : Simulator)
    → release_ready_calls time s ≡ ok next
    → next.max_time ≡ s.max_time
unfolding release_ready_calls
release_ready_calls-max_time time s next h =
    release_loop-max_time time
      (sort (λ a b. arrival_le (arrival_of s a) (arrival_of s b)) s.pending) s next h

step_phases-max_time : (s next : Simulator) → step_phases s ≡ ok next → next.max_time ≡ s.max_time
unfolding step_phases
step_phases-max_time s next h =
    let (a, first, h1) = >>=-eq-ok (release_ready_calls s.time s) _ h in
    let (b, _, h2) = >>=-eq-ok (schedule_all a a.engines a.store) _ h1 in
    let (c, _, h3) = >>=-eq-ok (execute_all s.time b.engines b.store) _ h2 in
    sym (ap (λ (x : Simulator). x.max_time) (ok_injective h3))
    ∙ release_ready_calls-max_time s.time s a first

next_time-le : (time : ℕ) (ts : List ℕ) → time ≤ next_time time ts
unfolding next_time
next_time-le time [] = omega arith
next_time-le time (t ∷ ts) = ground arith

skip_idle-later :
    (s next : Simulator)
    → skip_idle s ≡ ok next
    → (s.time ≤ next.time) × (next.max_time ≡ s.max_time)
unfolding skip_idle
skip_idle-later s next h = elim (Bool-cases (any is_busy s.engines)) [
  | inl e ↦
      let same = ok_injective (rw e at h) in
      subst (λ (x : Simulator). (s.time ≤ x.time) × (x.max_time ≡ s.max_time)) same
        (omega arith, refl)
  | inr e ↦
      let (ts, _, rest) = >>=-eq-ok (ready_times s s.pending) _ (rw e at h) in
      subst (λ (x : Simulator). (s.time ≤ x.time) × (x.max_time ≡ s.max_time)) (ok_injective rest)
        (next_time-le s.time ts, refl)
]

-- A step is made within the limit.
step_once-early :
    (advance_idle : Bool) (s next : Simulator)
    → step_once advance_idle s ≡ ok next
    → ltb s.max_time s.time ≡ false
unfolding step_once
step_once-early advance_idle s next h = elim (Bool-cases (ltb s.max_time s.time)) [
  | inl late ↦ absurd (let g = rw late at h in cc)
  | inr early ↦ early
]

abbrev pub ticked : Simulator → Simulator → Simulator
ticked s a = record a { time = s.time + 1 }

pub step_once-phases :
    (advance_idle : Bool) (s next : Simulator)
    → step_once advance_idle s ≡ ok next
    → (a : Simulator) × (step_phases s ≡ ok a)
      × ((if advance_idle then skip_idle (ticked s a) else ok (ticked s a)) ≡ ok next)
unfolding step_once
step_once-phases advance_idle s next h =
    >>=-eq-ok (step_phases s) _ (rw (step_once-early advance_idle s next h) at h)

-- The clock grows with each step.
pub step_once-later :
    (advance_idle : Bool) (s next : Simulator)
    → step_once advance_idle s ≡ ok next
    → (s.time ≤ s.max_time) × (s.time < next.time) × (next.max_time ≡ s.max_time)
step_once-later true s next h =
    let (a, phases, rest) = step_once-phases true s next h in
    let (later, same) = skip_idle-later (ticked s a) next rest in
    let early = step_once-early true s next h in
    (ground arith, omega (arith, later), same ∙ step_phases-max_time s a phases)
step_once-later false s next h =
    let (a, phases, rest) = step_once-phases false s next h in
    let early = step_once-early false s next h in
    let now : ticked s a ≡ next = ok_injective rest in
    subst (λ (x : Simulator). (s.time ≤ s.max_time) × (s.time < x.time) × (x.max_time ≡ s.max_time))
      now (ground arith, omega arith, step_phases-max_time s a phases)

-- `run` ends, with fuel for the time that is left and one step more: either all calls have
-- finished, or a step raised an error, such as the timeout.
pub run-ends :
    (n : ℕ) (s : Simulator)
    → s.max_time + 1 - s.time < n
    → ((last : Simulator) × (run n s ≡ done last) × (finished last ≡ true))
      ⊎ ((e : SimulatorError) × (run n s ≡ failed e))
unfolding run
run-ends zero s h = absurd (omega arith)
run-ends (suc n) s h = elim (Bool-cases (finished s)) [
  | inl f ↦ inl (s, rw (f, run) refl, f)
  | inr f ↦ elim (Result-cases (step_once true s)) [
    | inr (e, p) ↦ inr (e, rw (f, p, run) refl)
    | inl (next, p) ↦
        let (now, grows, same) = step_once-later true s next p in
        rw (f, p, run) (run-ends n next (omega (arith, same)))
  ]
]
