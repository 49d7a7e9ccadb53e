-- ===== src/Core/Execution.antt =====
-- `ExecutionModel` of autellix/core/execution.py: the costs of a call. Rates are exact fractions, so
-- the rounding of the floats that stand for them is left out.
pub mod Costs
use autellix.Prelude.{
  ℕ, zero, suc, ◌+◌, ◌-◌, ◌*◌, ◌/◌, ◌%◌, ◌≤◌, ◌<◌, min, max, ◌≡◌, refl, Bool, true, false, not,
  ◌||◌, ◌==◌, leb, ltb, if◌then◌else◌, mem, arith, ◌⊎◌, inl, inr, Bool-cases,
}
use autellix.Core.State.{CallState, ProcessEntry, generated_tokens}

pub record Fraction : Type 0 where
  pub num : ℕ
  pub den : ℕ

abbrev pub fraction_le : Fraction → Fraction → Bool
fraction_le a b = leb (a.num * b.den) (b.num * a.den)

abbrev pub min_fraction : Fraction → Fraction → Fraction
min_fraction a b = if fraction_le a b then a else b

abbrev pub max_fraction : Fraction → Fraction → Fraction
max_fraction a b = if fraction_le b a then a else b

pub record ExecutionModel : Type 0 where
  pub prefill_tokens_per_step : ℕ
  pub decode_tokens_per_step : ℕ
  pub system_prompt_tokens : ℕ
  pub prefix_caching : Bool
  pub locality_cache_bonus : Fraction
  pub remote_cache_bonus : Fraction
  pub swap_penalty_per_preemption : ℕ
  pub batched_swap : Bool
  pub scheduler_overhead_per_call : ℕ
  pub fixed_model_time : Bool

-- `cache_hit_rate`.
unfoldable pub cache_hit_rate : ExecutionModel → CallState → ProcessEntry → ℕ → Fraction
cache_hit_rate m c entry engine_id =
    let prefill = c.spec.prefill_tokens in
    let common_hit : Fraction = record {
      num = min prefill m.system_prompt_tokens;
      den = prefill;
    } in
    if not m.prefix_caching || prefill == 0
    then record { num = 0; den = 1 }
    else if mem engine_id entry.completed_engine_ids
    then min_fraction (record { num = 98; den = 100 })
        (max_fraction common_hit m.locality_cache_bonus)
    else min_fraction (record { num = 75; den = 100 })
        (max_fraction common_hit m.remote_cache_bonus)

-- `round(a / b)`: the nearest whole number, and the even one of two that are as near.
unfoldable pub round_div : ℕ → ℕ → ℕ
round_div a b =
    let q = a / b in
    let r = a % b in if ltb (2 * r) b then q else if 2 * r == b then q + q % 2 else q + 1

-- `max(0, int(round(call.spec.prefill_tokens * (1.0 - cache_hit))))`.
unfoldable pub effective_prefill : ℕ → Fraction → ℕ
unfolding round_div
effective_prefill prefill hit = round_div (prefill * (hit.den - hit.num)) hit.den

-- `ceil(a / max(1, b))`.
unfoldable pub ceil_div : ℕ → ℕ → ℕ
ceil_div a b = (a + (max 1 b - 1)) / max 1 b

-- The costs of a call, of whose prompt `missed` tokens are not in the cache.
unfoldable pub set_costs : ExecutionModel → ℕ → CallState → CallState
set_costs m missed c =
    let prefill = ceil_div missed m.prefill_tokens_per_step in
    let decode = max 1 (ceil_div (generated_tokens c.spec) m.decode_tokens_per_step) in
    if m.fixed_model_time
    then record c {
      prefill_time = 0;
      decode_time = c.spec.model_time;
      scheduler_time = 0;
      swap_time = 0;
      model_time = c.spec.model_time;
      remaining_time = c.spec.model_time;
    }
    else record c {
      prefill_time = prefill;
      decode_time = decode;
      scheduler_time = m.scheduler_overhead_per_call;
      scheduler_remaining = m.scheduler_overhead_per_call;
      swap_time = 0;
      model_time = max 1 (prefill + decode);
      remaining_time = max 1 (prefill + decode);
    }

-- `prepare_call`, for the engine that the call is given to.
unfoldable pub prepare_call : ExecutionModel → ProcessEntry → ℕ → CallState → CallState
unfolding cache_hit_rate effective_prefill set_costs
prepare_call m entry engine_id c =
    set_costs m (effective_prefill c.spec.prefill_tokens (cache_hit_rate m c entry engine_id)) c

-- `preemption_penalty`.
unfoldable pub preemption_penalty : ExecutionModel → ℕ → ℕ
preemption_penalty m active_calls =
    if m.swap_penalty_per_preemption == 0
    then 0
    else if m.batched_swap
    then max 1 (ceil_div m.swap_penalty_per_preemption active_calls)
    else m.swap_penalty_per_preemption
