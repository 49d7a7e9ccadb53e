-- ===== src/Prelude/Dict.antt =====
-- A dictionary keyed by identifiers, as an association list in insertion order.
use autellix.Prelude.{
  ℕ, ◌≡◌, refl, inl, inr, Bool, true, false, List, [], ◌∷◌, map, Option, none, some, arith, ◌==◌,
  if◌then◌else◌, mem, Bool-cases,
}

abbrev pub Dict {κ} : Type κ → Type κ
Dict Value = List (ℕ × Value)

module _ {κ} {V : Type κ} where
  -- `d.get(k)`.
  abbrev pub lookup : ℕ → Dict V → Option V
  lookup k [] = none
  lookup k ((j, w) ∷ d) = if j == k then some w else lookup k d

  -- `d[k] = v`: in place for a key that is there, else at the end.
  abbrev pub insert : ℕ → V → Dict V → Dict V
  insert k w [] = (k, w) ∷ []
  insert k w ((j, v) ∷ d) = if j == k then (j, w) ∷ d else (j, v) ∷ insert k w d

  -- `d.pop(k, None)`, the dictionary's part of it.
  abbrev pub erase : ℕ → Dict V → Dict V
  erase k [] = []
  erase k ((j, w) ∷ d) = if j == k then erase k d else (j, w) ∷ erase k d

  -- A change of the object that `d[k]` refers to; no key is added.
  abbrev pub update : ℕ → (V → V) → Dict V → Dict V
  update k f [] = []
  update k f ((j, w) ∷ d) = if j == k then (j, f w) ∷ update k f d else (j, w) ∷ update k f d

  abbrev pub keys : Dict V → List ℕ
  keys d = map (λ e. e.0) d

  abbrev pub values : Dict V → List V
  values d = map (λ e. e.1) d

  abbrev pub has_key : ℕ → Dict V → Bool
  has_key k d = mem k (keys d)

  pub lookup-insert :
      (k j : ℕ) (v : V) (d : Dict V)
      → lookup j (insert k v d) ≡ (if k == j then some v else lookup j d)
  lookup-insert k j v [] = refl
  lookup-insert k j v ((i, w) ∷ d) = ground (arith, lookup-insert k j v d)

  pub lookup-erase :
      (k j : ℕ) (d : Dict V) → lookup j (erase k d) ≡ (if k == j then none else lookup j d)
  lookup-erase k j [] = ground arith
  lookup-erase k j ((i, w) ∷ d) = ground (arith, lookup-erase k j d)

  pub has_key-lookup : (k : ℕ) (d : Dict V) {v : V} → lookup k d ≡ some v → has_key k d ≡ true
  has_key-lookup k [] e = ground arith
  has_key-lookup k ((j, w) ∷ d) {v} e = ground (arith, has_key-lookup k d {v = v})

  pub lookup-has_key : (k : ℕ) (d : Dict V) → has_key k d ≡ true → (v : V) × (lookup k d ≡ some v)
  lookup-has_key k [] e = absurd (ground arith)
  lookup-has_key k ((j, w) ∷ d) e = elim (Bool-cases (j == k)) [
    | inl h ↦ (w, ground arith)
    | inr h ↦ let (v, p) = lookup-has_key k d (ground arith) in (v, ground arith)
  ]

  pub lookup-not_has_key : (k : ℕ) (d : Dict V) → has_key k d ≡ false → lookup k d ≡ none
  lookup-not_has_key k [] e = refl
  lookup-not_has_key k ((j, w) ∷ d) e = ground (arith, lookup-not_has_key k d)

  pub keys-update : (k : ℕ) (f : V → V) (d : Dict V) → keys (update k f d) ≡ keys d
  keys-update k f [] = refl
  keys-update k f ((j, w) ∷ d) = ground (arith, keys-update k f d)

  pub lookup-update :
      (k j : ℕ) (f : V → V) (d : Dict V)
      → lookup j (update k f d)
        ≡ (if k == j then elim (lookup j d) [ none ↦ none | some v ↦ some (f v) ] else lookup j d)
  lookup-update k j f [] = ground arith
  lookup-update k j f ((i, w) ∷ d) = ground (arith, lookup-update k j f d)
