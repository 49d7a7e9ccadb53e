-- ===== src/Prelude/Predicates.antt =====
-- Predicates on lists by recursion, which the tactics read as tuples, and membership of numbers.
use Prim.Native.Nat.{ℕ, zero, suc, ◌+◌, ◌≤◌, ◌<◌}
use mathlib.Core.Path.{◌≡◌, refl}
use mathlib.Core.Logic.{inl, inr, ◌↔◌}
use mathlib.Core.List.{List, [], ◌∷◌, ◌++◌}
use mathlib.Core.Bool.{Bool, true}
use native.Mathlib.Omega.{arith}
use autellix.Prelude.Tests.{if◌then◌else◌, ◌==◌, ==_iff, Bool-cases}
use autellix.Prelude.Lists.{filter, take, drop, count, any, all}

module _ {ℓ} {A : Type ℓ} where
  abbrev pub All {μ} : (A → Type μ) → List A → Type μ
  All Q [] = Unit
  All Q (a ∷ rest) = Q a × All Q rest

  pub All-append {μ} :
      (Q : A → Type μ) (front rear : List A) → All Q front → All Q rear → All Q (front ++ rear)
  All-append Q [] rear p q = q
  All-append Q (a ∷ front) rear (h, p) q = (h, All-append Q front rear p q)

  pub All-map {κ μ} :
      {P : A → Type κ} {Q : A → Type μ} (xs : List A) → ((x : A) → P x → Q x) → All P xs → All Q xs
  All-map [] f h = tt
  All-map (x ∷ xs) f h = (f x h.0, All-map xs f h.1)

  pub All-take {κ} : (P : A → Type κ) (n : ℕ) (xs : List A) → All P xs → All P (take n xs)
  All-take P zero xs h = tt
  All-take P (suc n) [] h = tt
  All-take P (suc n) (x ∷ xs) h = (h.0, All-take P n xs h.1)

  pub All-drop {κ} : (P : A → Type κ) (n : ℕ) (xs : List A) → All P xs → All P (drop n xs)
  All-drop P zero xs h = h
  All-drop P (suc n) [] h = tt
  All-drop P (suc n) (x ∷ xs) h = All-drop P n xs h.1

  pub All-filter {κ} :
      (P : A → Type κ) (p : A → Bool) (xs : List A) → All P xs → All P (filter p xs)
  All-filter P p [] h = tt
  All-filter P p (x ∷ xs) h = ground (arith, All-filter P p xs h.1)

  pub All-filter_self : (p : A → Bool) (xs : List A) → All (λ x. p x ≡ true) (filter p xs)
  All-filter_self p [] = tt
  All-filter_self p (x ∷ xs) = ground (arith, All-filter_self p xs)

-- Membership as a test, and how often a number occurs.
abbrev pub mem : ℕ → List ℕ → Bool
mem x xs = any (λ y. y == x) xs

abbrev pub occurrences : ℕ → List ℕ → ℕ
occurrences x xs = count (λ y. y == x) xs

pub mem-occurrences : (x : ℕ) (xs : List ℕ) → (mem x xs ≡ true) ↔ (0 < occurrences x xs)
mem-occurrences x [] = ground arith
mem-occurrences x (y ∷ ys) = ground (arith, mem-occurrences x ys)

pub occurrences-append :
    (x : ℕ) (xs ys : List ℕ) → occurrences x (xs ++ ys) ≡ occurrences x xs + occurrences x ys
occurrences-append x [] ys = omega arith
occurrences-append x (y ∷ xs) ys = ground (arith, occurrences-append x xs ys)

pub occurrences-filter :
    (x : ℕ) (p : ℕ → Bool) (xs : List ℕ)
    → occurrences x (filter p xs) ≡ (if p x then occurrences x xs else 0)
occurrences-filter x p [] = ground arith
occurrences-filter x p (y ∷ ys) = elim (Bool-cases (y == x)) [
  | inl e ↦ ground (arith, occurrences-filter x p ys, (==_iff y x).0 e)
  | inr e ↦ ground (arith, occurrences-filter x p ys)
]

-- Every number occurs at most once.
abbrev pub Distinct : List ℕ → Type 0
Distinct xs = (x : ℕ) → occurrences x xs ≤ 1

pub All-of_mem {κ} : {P : ℕ → Type κ} (xs : List ℕ) → ((x : ℕ) → mem x xs ≡ true → P x) → All P xs
All-of_mem [] f = tt
All-of_mem (x ∷ xs) f = (f x (ground arith), All-of_mem xs (λ y h. f y (ground arith)))

pub mem-of_All {κ} : (P : ℕ → Type κ) (x : ℕ) (xs : List ℕ) → All P xs → mem x xs ≡ true → P x
mem-of_All P x [] h m = absurd (ground arith)
mem-of_All P x (y ∷ ys) h m = elim (Bool-cases (y == x)) [
  | inl e ↦ rw ((==_iff y x).0 e) at h.0
  | inr e ↦ mem-of_All P x ys h.1 (ground arith)
]

pub all-of_mem :
    (p : ℕ → Bool) (xs : List ℕ) → ((x : ℕ) → mem x xs ≡ true → p x ≡ true) → all p xs ≡ true
all-of_mem p [] f = refl
all-of_mem p (x ∷ xs) f = ground (arith, f x, all-of_mem p xs (λ y h. f y (ground arith)))
