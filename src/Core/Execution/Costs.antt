-- ===== src/Core/Execution/Costs.antt =====
-- What the costs of autellix/core/execution.py add up to.
use autellix.Prelude.{
  ℕ, zero, suc, ◌+◌, ◌-◌, ◌*◌, ◌≤◌, ◌<◌, max, ◌≡◌, refl, false, ◌==◌, arith, ◌⊎◌, inl, inr,
  Bool-cases,
}
use native.Mathlib.Nat.{div-add-mod', mod-lt, div-le_of_le-mul}
use autellix.Core.State.{CallState, ProcessEntry}
use autellix.Core.Execution.{
  ExecutionModel, cache_hit_rate, effective_prefill, ceil_div, set_costs, prepare_call,
  preemption_penalty,
}

-- `ceil_div a b` is the least number of parts of size `max 1 b` that hold `a`.
ceil_div-le : (a b : ℕ) → a ≤ ceil_div a b * max 1 b
unfolding ceil_div
ceil_div-le a b =
    let m = max 1 b in
    omega (arith, div-add-mod' (a + (m - 1)) m, mod-lt (a + (m - 1)) {m = m} (omega arith))

ceil_div-lt : (a b : ℕ) → ceil_div a b * max 1 b < a + max 1 b
unfolding ceil_div
ceil_div-lt a b = let m = max 1 b in omega (arith, div-add-mod' (a + (m - 1)) m)

sum-le-product : (a n : ℕ) → 0 < a → 0 < n → a + n ≤ n * a + 1
sum-le-product zero n h k = absurd (omega arith)
sum-le-product (suc a) zero h k = absurd (omega arith)
sum-le-product (suc a) (suc n) h k = omega arith

ceil_div_le_self : (a n : ℕ) → 0 < a → ceil_div a n ≤ a
unfolding ceil_div
ceil_div_le_self a n h =
    div-le_of_le-mul (max 1 n) (omega (arith, sum-le-product a (max 1 n) h (omega arith)))

positive_factor : (c m a : ℕ) → a ≤ c * m → 0 < a → 0 < c
positive_factor zero m a h p = absurd (omega arith)
positive_factor (suc c) m a h p = omega arith

le-mul : (a n : ℕ) → 0 < n → a ≤ a * n
le-mul a zero h = absurd (omega arith)
le-mul a (suc n) h = omega arith

-- The penalties of `n` victims together cover the penalty of one swap, and none is larger than it;
-- batched, they exceed it by less than `n`.
pub preemption_penalty-covers :
    (m : ExecutionModel) (n : ℕ)
    → 0 < n
    → let p = preemption_penalty m n in
      (m.swap_penalty_per_preemption ≤ p * n)
      × (p ≤ m.swap_penalty_per_preemption)
      × ((m.batched_swap ≡ false) ⊎ (p * n < m.swap_penalty_per_preemption + n))
unfolding preemption_penalty
preemption_penalty-covers m n h = elim (Bool-cases (m.swap_penalty_per_preemption == 0)) [
  | inl e ↦ rw e (ground arith, ground arith, inr (omega arith))
  | inr e ↦
      let a = m.swap_penalty_per_preemption in
      let some_penalty : 0 < a = ground arith in
      let one : max 1 n ≡ n = omega arith in
      let le = ceil_div-le a n in
      let lt = ceil_div-lt a n in
      let positive = positive_factor (ceil_div a n) (max 1 n) a le some_penalty in
      let same : max 1 (ceil_div a n) ≡ ceil_div a n = omega arith in
      elim (Bool-cases m.batched_swap) [
        | inl b ↦
            rw (e, b, same) (rw one at le, ceil_div_le_self a n some_penalty, inr (rw one at lt))
        | inr b ↦ rw (e, b) (le-mul a n h, omega arith, inl refl)
      ]
]

set_costs-splits :
    (m : ExecutionModel) (n : ℕ) (c : CallState)
    → 0 < c.spec.model_time
    → let d = set_costs m n c in
      (0 < d.model_time)
      × (d.remaining_time ≡ d.model_time)
      × (d.model_time ≡ d.prefill_time + d.decode_time)
      × (d.swap_time ≡ 0)
unfolding set_costs
set_costs-splits m n c h = ground arith

-- A prepared call has its whole time before it, at least one step, which is its prefill and its
-- decode time, and no swap to pay.
pub prepare_call-splits :
    (m : ExecutionModel) (entry : ProcessEntry) (engine_id : ℕ) (c : CallState)
    → 0 < c.spec.model_time
    → let d = prepare_call m entry engine_id c in
      (0 < d.model_time)
      × (d.remaining_time ≡ d.model_time)
      × (d.model_time ≡ d.prefill_time + d.decode_time)
      × (d.swap_time ≡ 0)
unfolding prepare_call
prepare_call-splits m entry engine_id c h =
    set_costs-splits m
      (effective_prefill c.spec.prefill_tokens (cache_hit_rate m c entry engine_id)) c h
