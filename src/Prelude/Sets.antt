-- ===== src/Prelude/Sets.antt =====
-- Sets of identifiers as lists in which each occurs once, and the lists' prefixes.
use Prim.Native.Nat.{ℕ, zero, suc, ◌+◌, ◌≤◌}
use autellix.Prelude.{
  true, ap, subst, ◌↔◌, inl, inr, Bool-cases, ◌==◌, ◌≡◌, refl, List, [], ◌∷◌, arith, if◌then◌else◌,
  mem, occurrences, Distinct, ==_iff, mem-occurrences, take, drop, filter, not, length,
}

-- `set(xs)`.
abbrev pub to_set : List ℕ → List ℕ
to_set [] = []
to_set (x ∷ xs) = let rest = to_set xs in if mem x rest then rest else x ∷ rest

pub mem-to_set : (x : ℕ) (xs : List ℕ) → mem x (to_set xs) ≡ mem x xs
mem-to_set x [] = refl
mem-to_set x (y ∷ ys) = ground (arith, mem-to_set x ys, mem-to_set y ys, ==_iff y x)

pub to_set-Distinct : (xs : List ℕ) → Distinct (to_set xs)
to_set-Distinct [] x = omega arith
to_set-Distinct (y ∷ ys) x =
    ground (arith, to_set-Distinct ys x, mem-occurrences y (to_set ys), ==_iff y x)

-- `a & b` and `a - b`.
abbrev pub intersect : List ℕ → List ℕ → List ℕ
intersect a b = filter (λ x. mem x b) a

abbrev pub minus : List ℕ → List ℕ → List ℕ
minus a b = filter (λ x. not (mem x b)) a

pub occurrences-take-drop :
    (x n : ℕ) (xs : List ℕ)
    → occurrences x (take n xs) + occurrences x (drop n xs) ≡ occurrences x xs
occurrences-take-drop x zero xs = omega arith
occurrences-take-drop x (suc n) [] = omega arith
occurrences-take-drop x (suc n) (y ∷ ys) = ground (arith, occurrences-take-drop x n ys)

pub drop-take : (n m : ℕ) (xs : List ℕ) → length xs ≤ n + m → length (drop n xs) ≤ m
drop-take zero m xs h = omega arith
drop-take (suc n) m [] h = omega arith
drop-take (suc n) m (x ∷ xs) h = drop-take n m xs (omega arith)

pub length-take-le : (n : ℕ) (xs : List ℕ) → length (take n xs) ≤ n
length-take-le zero xs = omega arith
length-take-le (suc n) [] = omega arith
length-take-le (suc n) (x ∷ xs) = omega (arith, length-take-le n xs)

pub nil-take : (n : ℕ) → ◌≡◌ {A = List ℕ} [] (take n [])
nil-take zero = refl
nil-take (suc n) = refl

pub nil-drop : (n : ℕ) → ◌≡◌ {A = List ℕ} [] (drop n [])
nil-drop zero = refl
nil-drop (suc n) = refl

-- As many different numbers as items: each occurs once.
to_set-same : (xs : List ℕ) → Distinct xs → to_set xs ≡ xs
to_set-same [] one = refl
to_set-same (x ∷ xs) one =
    let rest = to_set-same xs (λ y. ground (arith, one y)) in
    rw (rest) (ground (arith, one x, mem-occurrences x xs))

length-to_set-le : (xs : List ℕ) → length (to_set xs) ≤ length xs
length-to_set-le [] = omega arith
length-to_set-le (x ∷ xs) = ground (arith, length-to_set-le xs)

same-of_length : (xs : List ℕ) → length (to_set xs) ≡ length xs → to_set xs ≡ xs
same-of_length [] h = refl
same-of_length (x ∷ xs) h = elim (Bool-cases (mem x (to_set xs))) [
  | inl e ↦ absurd (ground (arith, length-to_set-le xs))
  | inr e ↦ rw (e) (ap (λ ys. x ∷ ys) (same-of_length xs (ground arith)))
]

pub length-to_set_iff : (xs : List ℕ) → ((length (to_set xs) == length xs) ≡ true) ↔ Distinct xs
length-to_set_iff xs = (
  λ h. subst Distinct (same-of_length xs (ground arith)) (to_set-Distinct xs),
  λ one. rw (to_set-same xs one) (ground (arith, ==_iff (length xs) (length xs))),
)
