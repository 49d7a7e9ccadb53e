-- ===== src/Prelude/Torch/Functions.antt =====
-- Layers as functions from their slots to rows, on which the laws of torch's operations hold.
use autellix.Prelude.{
  ℕ, ◌≡◌, refl, ap, ◌∙◌, inl, inr, List, [], ◌∷◌, length, map, ◌==◌, ==_iff, if◌then◌else◌,
  occurrences, mem-occurrences, Distinct, Bool-cases, length-map, arith,
}
use autellix.Prelude.Torch.{Torch, TorchLaws}

module _ {V : Type 0} where
  abbrev pub with_row : ℕ → V → (ℕ → V) → ℕ → V
  with_row i v layer slot = if i == slot then v else layer slot

  unfoldable pub index_copy : List ℕ → List V → (ℕ → V) → ℕ → V
  index_copy [] values layer = layer
  index_copy (i ∷ is) [] layer = layer
  index_copy (i ∷ is) (v ∷ vs) layer = index_copy is vs (with_row i v layer)

  -- A row that is not written again stays.
  index_copy-other :
      (is : List ℕ) (vs : List V) (layer : ℕ → V) (slot : ℕ)
      → occurrences slot is ≡ 0
      → index_copy is vs layer slot ≡ layer slot
  unfolding index_copy
  index_copy-other [] vs layer slot h = refl
  index_copy-other (i ∷ is) [] layer slot h = refl
  index_copy-other (i ∷ is) (v ∷ vs) layer slot h = elim (Bool-cases (i == slot)) [
    | inl e ↦ absurd (ground arith)
    | inr e ↦ index_copy-other is vs (with_row i v layer) slot (ground arith) ∙ rw (e) refl
  ]

  index_copy-reads :
      (is : List ℕ) (vs : List V) (layer : ℕ → V)
      → Distinct is
      → length is ≡ length vs
      → map (index_copy is vs layer) is ≡ vs
  unfolding index_copy
  index_copy-reads [] [] layer one h = refl
  index_copy-reads [] (v ∷ vs) layer one h = absurd (omega arith)
  index_copy-reads (i ∷ is) [] layer one h = absurd (omega arith)
  index_copy-reads (i ∷ is) (v ∷ vs) layer one h =
      let written : ℕ → V = with_row i v layer in
      let head : index_copy is vs written i ≡ v =
        index_copy-other is vs written i (ground (arith, one i, ==_iff i i))
        ∙ rw ((==_iff i i).1 refl) refl in
      let tail : map (index_copy is vs written) is ≡ vs =
        index_copy-reads is vs written (λ x. ground (arith, one x)) (omega arith) in
      ap (λ z. z ∷ map (index_copy is vs written) is) head ∙ ap (λ zs. v ∷ zs) tail

unfoldable pub functions : (V : Type 0) → Torch (ℕ → V) V
unfolding index_copy
functions V = record { index_select = λ is layer. map layer is; index_copy = index_copy }

pub functions-TorchLaws : (V : Type 0) → TorchLaws (functions V)
unfolding functions
functions-TorchLaws V = record {
  length-select = λ is layer. length-map layer is;
  select-copy = index_copy-reads;
  select-copy_other = λ is rows layer i h.
      ap (λ (v : V). v ∷ [])
        (index_copy-other is rows layer i (ground (arith, mem-occurrences i is)));
}
