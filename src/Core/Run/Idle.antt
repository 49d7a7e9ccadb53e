-- ===== src/Core/Run/Idle.antt =====
-- `Simulator.step` and `Simulator.run_until_idle` of autellix/core/simulator.py, which never skip time.
use autellix.Prelude.{
  ℕ, zero, suc, ◌+◌, ◌-◌, ◌<◌, ◌≡◌, refl, ◌⊎◌, inl, inr, Bool, true, false, not, ◌&&◌, ok, err,
  ◌>>=◌, ◌>>◌, require, any, arith, if◌then◌else◌, Bool-cases, Result-cases, require_iff, >>=-eq-ok,
  ok_injective, sym, ap,
}
use autellix.Prelude.Int.{ℤ, pos_part}
use autellix.Core.State.{is_positive}
use autellix.Core.Run.{
  Simulator, SimulatorError, Run, Outcome, is_busy, finished, step_once, bad_steps,
}
use autellix.Core.Run.Outcome.{done, failed, out_of_fuel}
use autellix.Core.Run.Termination.{step_once-later, step_once-phases}

-- One round of `step`: once all calls have finished only the clock goes on.
unfoldable pub step_round : Simulator → Run Simulator
unfolding finished step_once
step_round s = if finished s then ok (record s { time = s.time + 1 }) else step_once false s

unfoldable pub step_rounds : ℕ → Simulator → Run Simulator
unfolding step_round
step_rounds zero s = ok s
step_rounds (suc n) s = do next ← step_round s; step_rounds n next

-- `step`.
unfoldable pub step : ℤ → Simulator → Run Simulator
unfolding step_rounds
step steps s = do require (is_positive steps) bad_steps; step_rounds (pos_part steps) s

-- The condition of the loop of `run_until_idle`.
unfoldable pub is_active : Simulator → Bool
unfolding finished
is_active s = not (finished s) && any is_busy s.engines

-- `run_until_idle`, on fuel.
unfoldable pub run_until_idle : ℕ → Simulator → Outcome
unfolding step_once is_active
run_until_idle zero s = if is_active s then out_of_fuel else done s
run_until_idle (suc n) s = elim (is_active s) [
  | false ↦ done s
  | true ↦ elim (step_once false s) [ ok next ↦ run_until_idle n next | err e ↦ failed e ]
]

-- `run_until_idle` ends, with fuel for the time that is left and one step more: either no engine
-- has a call or all calls have finished, or a step raised an error.
pub run_until_idle-ends :
    (n : ℕ) (s : Simulator)
    → s.max_time + 1 - s.time < n
    → ((last : Simulator) × (run_until_idle n s ≡ done last) × (is_active last ≡ false))
      ⊎ ((e : SimulatorError) × (run_until_idle n s ≡ failed e))
unfolding run_until_idle
run_until_idle-ends zero s h = absurd (omega arith)
run_until_idle-ends (suc n) s h = elim (Bool-cases (is_active s)) [
  | inr f ↦ inl (s, rw (f, run_until_idle) refl, f)
  | inl f ↦ elim (Result-cases (step_once false s)) [
    | inr (e, p) ↦ inr (e, rw (f, p, run_until_idle) refl)
    | inl (next, p) ↦
        let (now, grows, same) = step_once-later false s next p in
        rw (f, p, run_until_idle) (run_until_idle-ends n next (omega (arith, same)))
  ]
]

step_round-time : (s next : Simulator) → step_round s ≡ ok next → next.time ≡ s.time + 1
unfolding step_round
step_round-time s next h = elim (Bool-cases (finished s)) [
  | inl f ↦ sym (ap (λ (x : Simulator). x.time) (ok_injective (rw f at h)))
  | inr f ↦
      let (a, _, rest) = step_once-phases false s next (rw f at h) in
      sym (ap (λ (x : Simulator). x.time) (ok_injective rest))
]

step_rounds-time : (n : ℕ) (s next : Simulator) → step_rounds n s ≡ ok next → next.time ≡ s.time + n
unfolding step_rounds
step_rounds-time zero s next h = omega (arith, ap (λ (x : Simulator). x.time) (ok_injective h))
step_rounds-time (suc n) s next h =
    let (m, first, rest) = >>=-eq-ok (step_round s) _ h in
    omega (arith, step_round-time s m first, step_rounds-time n m next rest)

-- `step` moves the clock by the number of steps, if it succeeds.
pub step-time :
    (steps : ℤ) (s next : Simulator) → step steps s ≡ ok next → next.time ≡ s.time + pos_part steps
unfolding step
step-time steps s next h =
    step_rounds-time (pos_part steps) s next
      ((require_iff (is_positive steps) bad_steps (step_rounds (pos_part steps) s)).0 h).1
