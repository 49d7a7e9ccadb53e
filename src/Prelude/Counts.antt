-- ===== src/Prelude/Counts.antt =====
-- How insertion and removal change the number of entries of a dictionary that pass a test.
use autellix.Prelude.{
  ℕ, ◌+◌, ◌≤◌, ◌≡◌, refl, inl, inr, Bool, true, false, [], ◌∷◌, some, arith, ◌==◌, if◌then◌else◌,
  count, occurrences, Bool-cases,
}
use autellix.Prelude.Dict.{Dict, lookup, insert, erase, update, keys, has_key}

abbrev pub one_if : Bool → ℕ
one_if true = 1
one_if false = 0

module _ {ℓ} {V : Type ℓ} where
  abbrev pub count_values : (V → Bool) → Dict V → ℕ
  count_values p d = count (λ (e : ℕ × V). p e.1) d

  pub count-insert :
      (p : V → Bool) (k : ℕ) (v : V) (d : Dict V)
      → has_key k d ≡ false
      → count_values p (insert k v d) ≡ count_values p d + one_if (p v)
  count-insert p k v [] h = ground arith
  count-insert p k v ((j, w) ∷ d) h = ground (arith, count-insert p k v d)

  pub erase-absent : (k : ℕ) (d : Dict V) → occurrences k (keys d) ≡ 0 → erase k d ≡ d
  erase-absent k [] h = refl
  erase-absent k ((j, w) ∷ d) h = ground (arith, erase-absent k d)

  pub count-erase :
      (p : V → Bool) (k : ℕ) (d : Dict V) {v : V}
      → occurrences k (keys d) ≤ 1
      → lookup k d ≡ some v
      → count_values p d ≡ count_values p (erase k d) + one_if (p v)
  count-erase p k [] h e = cc
  count-erase p k ((j, w) ∷ d) {v} h e = elim (Bool-cases (j == k)) [
    | inl same ↦ ground (arith, erase-absent k d)
    | inr other ↦ ground (arith, count-erase p k d {v = v})
  ]

  pub occurrences-insert :
      (j k : ℕ) (v : V) (d : Dict V)
      → occurrences j (keys (insert k v d))
        ≡ (if has_key k d then occurrences j (keys d) else occurrences j (keys d) + one_if (k == j))
  occurrences-insert j k v [] = ground arith
  occurrences-insert j k v ((i, w) ∷ d) = ground (arith, occurrences-insert j k v d)

  pub occurrences-erase :
      (j k : ℕ) (d : Dict V)
      → occurrences j (keys (erase k d)) ≡ (if k == j then 0 else occurrences j (keys d))
  occurrences-erase j k [] = ground arith
  occurrences-erase j k ((i, w) ∷ d) = ground (arith, occurrences-erase j k d)

  pub occurrences-update :
      (j k : ℕ) (f : V → V) (d : Dict V)
      → occurrences j (keys (update k f d)) ≡ occurrences j (keys d)
  occurrences-update j k f [] = refl
  occurrences-update j k f ((i, w) ∷ d) = ground (arith, occurrences-update j k f d)
