-- ===== src/Prelude/Torch/Layers.antt =====
-- Rows written to all layers are read back from them.
use autellix.Prelude.{
  ℕ, ◌≡◌, refl, sym, ap, ◌∙◌, List, [], ◌∷◌, length, All, Distinct, arith, false, mem,
}
use autellix.Prelude.Torch.{Torch, TorchLaws, select_layers, copy_layers}

abbrev pub HasLength : {V : Type 0} → ℕ → List V → Type 0
HasLength n row = length row ≡ n

module _ {L V : Type 0} (t : Torch L V) (laws : TorchLaws t) where
  pub copy_layers-reads :
      (is : List ℕ) (payload : List (List V)) (layers : List L)
      → Distinct is
      → length payload ≡ length layers
      → All (HasLength (length is)) payload
      → select_layers t is (copy_layers t is payload layers) ≡ payload
  unfolding copy_layers
  copy_layers-reads is [] [] one h rows = refl
  copy_layers-reads is [] (layer ∷ layers) one h rows = absurd (omega arith)
  copy_layers-reads is (row ∷ payload) [] one h rows = absurd (omega arith)
  copy_layers-reads is (row ∷ payload) (layer ∷ layers) one h rows =
      let head = laws.select-copy is row layer one (sym rows.0) in
      let tail = copy_layers-reads is payload layers one (omega arith) rows.1 in
      ap (λ z. z ∷ select_layers t is (copy_layers t is payload layers)) head
      ∙ ap (λ zs. row ∷ zs) tail

  -- A row that is not written stays, in all layers.
  pub copy_layers-other :
      (is : List ℕ) (payload : List (List V)) (layers : List L) (i : ℕ)
      → mem i is ≡ false
      → select_layers t (i ∷ []) (copy_layers t is payload layers) ≡ select_layers t (i ∷ []) layers
  unfolding copy_layers
  copy_layers-other is payload [] i h = refl
  copy_layers-other is [] (layer ∷ layers) i h = refl
  copy_layers-other is (rows ∷ payload) (layer ∷ layers) i h =
      let head = laws.select-copy_other is rows layer i h in
      let tail = copy_layers-other is payload layers i h in
      ap (λ z. z ∷ select_layers t (i ∷ []) (copy_layers t is payload layers)) head
      ∙ ap (λ zs. t.index_select (i ∷ []) layer ∷ zs) tail
