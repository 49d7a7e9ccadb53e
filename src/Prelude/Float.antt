-- ===== src/Prelude/Float.antt =====
-- The floating-point values that the program compares and counts down, in units of a component's
-- own: a whole multiple of the unit, an infinity, or not a number.
use autellix.Prelude.{ℕ, ◌*◌, max, leb, Bool, true, false, not, ◌||◌, ◌==◌, if◌then◌else◌}
use autellix.Prelude.Int.{ℤ, pos, negsuc, ltb_ℤ, ◌-ℤ◌}

pub data Float : Type 0 where
  nan neg_inf inf : Float
  fin : ℤ → Float

abbrev pub whole : ℕ → Float
whole n = fin (pos n)

abbrev pub is_nan : Float → Bool
is_nan nan = true
is_nan _ = false

abbrev pub is_finite : Float → Bool
is_finite (fin _) = true
is_finite _ = false

-- `a < b`; every comparison with `nan` is false.
abbrev pub lt : Float → Float → Bool
lt (fin a) (fin b) = ltb_ℤ a b
lt (fin a) inf = true
lt neg_inf (fin b) = true
lt neg_inf inf = true
lt _ _ = false

abbrev pub le : Float → Float → Bool
le a b = if is_nan a || is_nan b then false else not (lt b a)

-- `a <= 0`.
abbrev pub is_nonpos : Float → Bool
is_nonpos (fin (pos n)) = n == 0
is_nonpos (fin (negsuc n)) = true
is_nonpos neg_inf = true
is_nonpos _ = false

-- `a == 0`.
abbrev pub is_zero : Float → Bool
is_zero (fin (pos n)) = n == 0
is_zero _ = false

-- `a == inf`.
abbrev pub is_inf : Float → Bool
is_inf inf = true
is_inf _ = false

-- `a - n`.
unfoldable pub minus : Float → ℕ → Float
unfolding ◌-ℤ◌
minus (fin a) n = fin (a -ℤ pos n)
minus other n = other

-- `wait / max(1, service) >= beta` of whole numbers, cross-multiplied, for beta in units of 10⁻⁹.
-- For nanoseconds the 1 is the floor of 1e-9 seconds.
unfoldable pub ratio_reaches : ℕ → ℕ → Float → Bool
ratio_reaches wait service (fin (pos b)) = leb (b * max 1 service) (wait * 1_000_000_000)
ratio_reaches wait service (fin (negsuc b)) = true
ratio_reaches wait service neg_inf = true
ratio_reaches wait service _ = false
