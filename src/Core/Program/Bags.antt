-- ===== src/Core/Program/Bags.antt =====
-- Lists compared by how often each number occurs in them, for the check of programs in
-- autellix/core/models.py.
use autellix.Prelude.{
  ℕ, suc, ◌+◌, ◌≤◌, ◌<◌, ◌≡◌, List, [], ◌∷◌, arith, ◌==◌, ==_iff, if◌then◌else◌, occurrences,
  length,
}

abbrev without_one : ℕ → List ℕ → List ℕ
without_one x [] = []
without_one x (y ∷ ys) = if y == x then ys else y ∷ without_one x ys

occurrences-without_one :
    (x z : ℕ) (ys : List ℕ)
    → 0 < occurrences x ys
    → occurrences z ys ≡ (if x == z then 1 else 0) + occurrences z (without_one x ys)
occurrences-without_one x z [] h = absurd (omega arith)
occurrences-without_one x z (y ∷ ys) h =
    ground (arith, occurrences-without_one x z ys, ==_iff y x, ==_iff x z, ==_iff y z)

length-without_one :
    (x : ℕ) (ys : List ℕ) → 0 < occurrences x ys → length ys ≡ suc (length (without_one x ys))
length-without_one x [] h = absurd (omega arith)
length-without_one x (y ∷ ys) h = ground (arith, length-without_one x ys)

-- The rest of `ks` when the items of `xs` are taken from it.
pub record Rest (xs ks : List ℕ) : Type 0 where
  pub rest : List ℕ
  pub split : (z : ℕ) → occurrences z xs + occurrences z rest ≡ occurrences z ks
  pub lengths : length xs + length rest ≡ length ks

pub Rest-of_le : (xs ks : List ℕ) → ((z : ℕ) → occurrences z xs ≤ occurrences z ks) → Rest xs ks
Rest-of_le [] ks h = record { rest = ks; split = λ z. omega arith; lengths = omega arith }
Rest-of_le (x ∷ xs) ks h =
    let some_x : 0 < occurrences x ks = ground (arith, h x, ==_iff x x) in
    let r =
      Rest-of_le xs (without_one x ks) (λ z. ground (arith, h z, occurrences-without_one x z ks)) in
    record {
      rest = r.rest;
      split = λ z. ground (arith, r.split z, occurrences-without_one x z ks);
      lengths = omega (arith, r.lengths, length-without_one x ks some_x);
    }

-- A list that has at most the items of another, and as many in all, has the same.
pub occurrences_of_length :
    (xs ks : List ℕ) (z : ℕ)
    → ((y : ℕ) → occurrences y xs ≤ occurrences y ks)
    → length xs ≡ length ks
    → occurrences z xs ≡ occurrences z ks
occurrences_of_length xs ks z h e =
    let r = Rest-of_le xs ks h in
    let empty : length r.rest ≡ 0 = omega (arith, r.lengths) in
    omega (arith, r.split z, occurrences_nil z r.rest empty)
  where
    occurrences_nil : (z : ℕ) (ys : List ℕ) → length ys ≡ 0 → occurrences z ys ≡ 0
    occurrences_nil z [] h = omega arith
    occurrences_nil z (y ∷ ys) h = absurd (omega arith)

-- A list that has at most the items of another is at most as long.
pub length-le_of_occurrences :
    (xs ks : List ℕ) → ((y : ℕ) → occurrences y xs ≤ occurrences y ks) → length xs ≤ length ks
length-le_of_occurrences xs ks h = let r = Rest-of_le xs ks h in omega (arith, r.lengths)
