-- ===== src/Prelude/Sort.antt =====
-- `sorted` and `list.sort`: a stable insertion sort by a Boolean order, and the lexicographic
-- order of pairs.
use mathlib.Core.List.{Perm}
use mathlib.Core.List.Perm
use autellix.Prelude.{
  ℕ, zero, suc, ◌≡◌, refl, ◌⊎◌, inl, inr, Bool, true, false, List, [], ◌∷◌, arith, ltb, leb, ◌==◌,
  if◌then◌else◌, count, length, All, All-map, All-take, All-drop, Bool-cases, take, drop,
}

abbrev pub lex_le : ℕ × ℕ → ℕ × ℕ → Bool
lex_le (a, b) (c, d) = if ltb a c then true else if a == c then leb b d else false

pub lex_le-total : (a b : ℕ × ℕ) → (lex_le a b ≡ true) ⊎ (lex_le b a ≡ true)
lex_le-total (a, b) (c, d) = ground arith

pub lex_le_trans : (a b c : ℕ × ℕ) → lex_le a b ≡ true → lex_le b c ≡ true → lex_le a c ≡ true
lex_le_trans (a, b) (c, d) (e, f) p q = ground arith

module _ {ℓ} {A : Type ℓ} (le : A → A → Bool) where
  -- Equal items keep their order: `x` came first.
  unfoldable pub insert : A → List A → List A
  insert x [] = x ∷ []
  insert x (y ∷ ys) = if le x y then x ∷ y ∷ ys else y ∷ insert x ys

  unfoldable pub sort : List A → List A
  unfolding insert
  sort [] = []
  sort (x ∷ xs) = insert x (sort xs)

  pub insert-perm : (x : A) (ys : List A) → Perm (insert x ys) (x ∷ ys)
  unfolding insert
  insert-perm x [] = Perm.refl (x ∷ [])
  insert-perm x (y ∷ ys) =
      let rest = Perm.trans (Perm.cons y (insert-perm x ys)) (Perm.swap x y ys) in
      ground (arith, rest, Perm.refl (x ∷ y ∷ ys))

  pub sort-perm : (xs : List A) → Perm (sort xs) xs
  unfolding sort
  sort-perm [] = Perm.refl []
  sort-perm (x ∷ xs) = Perm.trans (insert-perm x (sort xs)) (Perm.cons x (sort-perm xs))

  insert-count : (p : A → Bool) (x : A) (ys : List A) → count p (insert x ys) ≡ count p (x ∷ ys)
  unfolding insert
  insert-count p x [] = refl
  insert-count p x (y ∷ ys) = ground (arith, insert-count p x ys)

  pub count-sort : (p : A → Bool) (xs : List A) → count p (sort xs) ≡ count p xs
  unfolding sort
  count-sort p [] = refl
  count-sort p (x ∷ xs) = ground (arith, insert-count p x (sort xs), count-sort p xs)

  insert-length : (x : A) (ys : List A) → length (insert x ys) ≡ suc (length ys)
  unfolding insert
  insert-length x [] = refl
  insert-length x (y ∷ ys) = ground (arith, insert-length x ys)

  pub length-sort : (xs : List A) → length (sort xs) ≡ length xs
  unfolding sort
  length-sort [] = refl
  length-sort (x ∷ xs) = ground (arith, insert-length x (sort xs), length-sort xs)

  insert-All {κ} : (P : A → Type κ) (x : A) (ys : List A) → P x → All P ys → All P (insert x ys)
  unfolding insert
  insert-All P x [] h hs = (h, hs)
  insert-All P x (y ∷ ys) h hs = ground (arith, insert-All P x ys h hs.1)

  pub All-sort {κ} : (P : A → Type κ) (xs : List A) → All P xs → All P (sort xs)
  unfolding sort
  All-sort P [] hs = hs
  All-sort P (x ∷ xs) hs = insert-All P x (sort xs) hs.0 (All-sort P xs hs.1)

  -- Each item goes before all that follow it.
  abbrev pub IsSorted : List A → Type ℓ
  IsSorted [] = Unit
  IsSorted (x ∷ xs) = All (λ y. le x y ≡ true) xs × IsSorted xs

module _ {ℓ} {A : Type ℓ} (le : A → A → Bool)
    (total : (a b : A) → (le a b ≡ true) ⊎ (le b a ≡ true))
    (trans : (a b c : A) → le a b ≡ true → le b c ≡ true → le a c ≡ true) where
  insert-IsSorted : (x : A) (ys : List A) → IsSorted le ys → IsSorted le (insert le x ys)
  unfolding insert
  insert-IsSorted x [] h = (tt, tt)
  insert-IsSorted x (y ∷ ys) h = elim (Bool-cases (le x y)) [
    | inl e ↦ rw e ((e, All-map ys (λ z. trans x y z e) h.0), h)
    | inr e ↦ rw e (
      insert-All le (λ z. le y z ≡ true) x ys (ground (arith, total x y)) h.0,
      insert-IsSorted x ys h.1,
    )
  ]

  pub sort-IsSorted : (xs : List A) → IsSorted le (sort le xs)
  unfolding sort
  sort-IsSorted [] = tt
  sort-IsSorted (x ∷ xs) = insert-IsSorted x (sort le xs) (sort-IsSorted xs)

module _ {ℓ} {A : Type ℓ} (le : A → A → Bool) where
  -- A sorted list's head, cut anywhere, goes before its rest.
  pub IsSorted-take-drop :
      (n : ℕ) (xs : List A)
      → IsSorted le xs
      → All (λ x. All (λ y. le x y ≡ true) (drop n xs)) (take n xs)
  IsSorted-take-drop zero xs h = tt
  IsSorted-take-drop (suc n) [] h = tt
  IsSorted-take-drop (suc n) (x ∷ xs) h =
      (All-drop (λ y. le x y ≡ true) n xs h.0, IsSorted-take-drop n xs h.1)

  pub IsSorted-take : (n : ℕ) (xs : List A) → IsSorted le xs → IsSorted le (take n xs)
  IsSorted-take zero xs h = tt
  IsSorted-take (suc n) [] h = tt
  IsSorted-take (suc n) (x ∷ xs) h =
      (All-take (λ y. le x y ≡ true) n xs h.0, IsSorted-take n xs h.1)
