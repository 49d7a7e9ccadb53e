-- ===== src/Prelude/Entries.antt =====
-- Sorting the entries of a dictionary, and loops that update it entry by entry.
use autellix.Prelude.{
  ℕ, ◌≡◌, refl, Bool, [], ◌∷◌, none, some, arith, occurrences, Distinct, All, ==_iff,
}
use autellix.Prelude.Dict.{Dict, lookup, update, keys, lookup-update}
use autellix.Prelude.Sort

module _ {ℓ} {V : Type ℓ} where
  pub lookup-none : (k : ℕ) (d : Dict V) → occurrences k (keys d) ≡ 0 → lookup k d ≡ none
  lookup-none k [] h = refl
  lookup-none k ((j, v) ∷ d) h = ground (arith, lookup-none k d)

  occurrences-insert :
      (le : ℕ × V → ℕ × V → Bool) (k : ℕ) (e : ℕ × V) (d : Dict V)
      → occurrences k (keys (Sort.insert le e d)) ≡ occurrences k (keys (e ∷ d))
  unfolding Sort.insert
  occurrences-insert le k e [] = refl
  occurrences-insert le k e (f ∷ d) = ground (arith, occurrences-insert le k e d)

  pub occurrences-sort :
      (le : ℕ × V → ℕ × V → Bool) (k : ℕ) (d : Dict V)
      → occurrences k (keys (Sort.sort le d)) ≡ occurrences k (keys d)
  unfolding Sort.sort
  occurrences-sort le k [] = refl
  occurrences-sort le k (e ∷ d) =
      ground (arith, occurrences-insert le k e (Sort.sort le d), occurrences-sort le k d)

  lookup-insert :
      (le : ℕ × V → ℕ × V → Bool) (k : ℕ) (e : ℕ × V) (d : Dict V)
      → occurrences e.0 (keys d) ≡ 0
      → lookup k (Sort.insert le e d) ≡ lookup k (e ∷ d)
  unfolding Sort.insert
  lookup-insert le k e [] h = refl
  lookup-insert le k (i, v) ((j, w) ∷ d) h =
      ground (arith, lookup-insert le k (i, v) d, ==_iff i k, ==_iff j k)

  -- Sorting the entries does not change what a key stands for.
  pub lookup-sort :
      (le : ℕ × V → ℕ × V → Bool) (k : ℕ) (d : Dict V)
      → Distinct (keys d)
      → lookup k (Sort.sort le d) ≡ lookup k d
  unfolding Sort.sort
  lookup-sort le k [] h = refl
  lookup-sort le k ((j, v) ∷ d) h = ground (
    arith,
    h j,
    lookup-insert le k (j, v) (Sort.sort le d),
    occurrences-sort le j d,
    lookup-sort le k d (λ x. ground (arith, h x)),
  )

  -- Each entry is what its key stands for in `d`.
  abbrev pub Agrees : Dict V → Dict V → Type ℓ
  Agrees es d = All (λ (e : ℕ × V). lookup e.0 d ≡ some e.1) es

  pub Agrees-update :
      (k : ℕ) (f : V → V) (es d : Dict V)
      → occurrences k (keys es) ≡ 0
      → Agrees es d
      → Agrees es (update k f d)
  Agrees-update k f [] d h a = tt
  Agrees-update k f ((j, v) ∷ es) d h a =
      (ground (arith, lookup-update k j f d), Agrees-update k f es d (ground arith) a.1)

  Agrees-cons :
      (j : ℕ) (v : V) (es d : Dict V)
      → occurrences j (keys es) ≡ 0
      → Agrees es d
      → Agrees es ((j, v) ∷ d)
  Agrees-cons j v [] d h a = tt
  Agrees-cons j v ((i, w) ∷ es) d h a = (ground arith, Agrees-cons j v es d (ground arith) a.1)

  pub Agrees-self : (d : Dict V) → Distinct (keys d) → Agrees d d
  Agrees-self [] h = tt
  Agrees-self ((j, v) ∷ d) h = (
    ground arith,
    Agrees-cons j v d d (ground (arith, h j)) (Agrees-self d (λ x. ground (arith, h x))),
  )
