-- ===== src/Runtime/Config.antt =====
-- `PolicyConfig` of autellix/runtime/policy.py. Seconds are counted in whole nanoseconds, so a
-- float is a whole number of them; `beta` is in units of 10⁻⁹ too.
pub mod Bracket
use autellix.Prelude.{
  ℕ, zero, suc, ◌+◌, ◌≡◌, refl, Bool, true, false, not, ◌&&◌, ◌||◌, List, [], ◌∷◌, Option, none,
  some, Result, ok, err, ◌>>=◌, ◌>>◌, require, length, all, get_or, ◌==◌, if◌then◌else◌, min, ◌-◌,
}
use autellix.Prelude.Int.{ℤ, pos, negsuc, pos_part}
use autellix.Prelude.Float.{
  Float, nan, inf, neg_inf, fin, whole, is_nan, is_finite, is_inf, is_zero, is_nonpos, lt, le,
}

pub data Policy : Type 0 where
  fcfs mlfq plas atlas unknown : Policy

pub data Implementation : Type 0 where
  paper compat other : Implementation

pub record PolicyConfig : Type 0 where
  pub policy : Policy
  pub boundaries : List Float
  pub quanta : List Float
  pub beta : Float
  pub schedule_interval : ℤ
  pub overprovision : ℤ
  pub implementation : Implementation

pub data ConfigError : Type 0 where
  bad_implementation bad_policy bad_boundaries bad_quanta bad_beta bad_window : ConfigError

abbrev is_known : Policy → Bool
is_known unknown = false
is_known _ = true

abbrev is_supported : Implementation → Bool
is_supported other = false
is_supported _ = true

abbrev starts_at_zero : List Float → Bool
starts_at_zero [] = false
starts_at_zero (b ∷ bs) = is_zero b

-- `boundaries[-1] == inf`, for the tail `bs` behind `b`.
abbrev ends_at_inf : Float → List Float → Bool
ends_at_inf b [] = is_inf b
ends_at_inf b (c ∷ bs) = ends_at_inf c bs

abbrev last_is_inf : List Float → Bool
last_is_inf [] = false
last_is_inf (b ∷ bs) = ends_at_inf b bs

-- `any(a >= b for a, b in zip(boundaries, boundaries[1:]))`, negated.
abbrev increasing_from : Float → List Float → Bool
increasing_from b [] = true
increasing_from b (c ∷ bs) = if le c b then false else increasing_from c bs

abbrev increasing : List Float → Bool
increasing [] = true
increasing (b ∷ bs) = increasing_from b bs

unfoldable pub boundaries_ok : PolicyConfig → Bool
boundaries_ok c =
    (length c.boundaries == length c.quanta + 1)
    && starts_at_zero c.boundaries
    && last_is_inf c.boundaries
    && all (λ b. not (is_nan b)) c.boundaries
    && increasing c.boundaries

-- `__post_init__`. The arguments of the window are integers here, so its type test is left out.
unfoldable pub check : PolicyConfig → Result ConfigError (Unit {0})
unfolding boundaries_ok
check c = do
  require (is_supported c.implementation) bad_implementation
  require (is_known c.policy) bad_policy
  require (boundaries_ok c) bad_boundaries
  require (all (λ q. is_finite q && not (is_nonpos q)) c.quanta) bad_quanta
  require (is_finite c.beta && not (is_nonpos c.beta)) bad_beta
  require (not (lt (fin c.schedule_interval) (whole 1)) && not (lt (fin c.overprovision) (whole 0)))
      bad_window

queue_from : ℕ → ℕ → List Float → Option ℕ
queue_from i service [] = none
queue_from i service (hi ∷ bs) =
    if lt (whole service) hi then some i else queue_from (suc i) service bs

abbrev tail : List Float → List Float
tail [] = []
tail (b ∷ bs) = bs

-- `queue`; `none` is the StopIteration of `next`.
unfoldable pub queue : PolicyConfig → ℕ → Option ℕ
unfolding queue_from
queue c service = queue_from 0 service (tail c.boundaries)

-- `len(quanta) - 1`, where Python's result is never negative for a configuration that passes.
abbrev pub last_queue : PolicyConfig → ℕ
last_queue c = length c.quanta - 1

-- `quanta[i]`; the index is in range for every call of the scheduler.
abbrev pub quantum_at : PolicyConfig → ℕ → Float
quantum_at c i = get_or c.quanta i nan

-- The defaults: boundaries of .02 s to .64 s.
abbrev pub default_config : PolicyConfig
default_config = record {
  policy = atlas;
  boundaries =
      whole 0
      ∷ whole 20_000_000
      ∷ whole 40_000_000
      ∷ whole 80_000_000
      ∷ whole 160_000_000
      ∷ whole 320_000_000
      ∷ whole 640_000_000
      ∷ inf
      ∷ [];
  quanta =
      whole 10_000_000
      ∷ whole 20_000_000
      ∷ whole 40_000_000
      ∷ whole 80_000_000
      ∷ whole 160_000_000
      ∷ whole 320_000_000
      ∷ whole 640_000_000
      ∷ [];
  beta = whole 8_000_000_000;
  schedule_interval = pos 8;
  overprovision = pos 1;
  implementation = paper;
}
