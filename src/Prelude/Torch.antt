-- ===== src/Prelude/Torch.antt =====
-- The two operations of torch that move rows of a layer, which are parameters of the code that swaps
-- caches (autellix/runtime/swap.py and integrations/sglang/swap.py), with what torch documents of them.
pub mod Layers
pub mod Functions
use autellix.Prelude.{ℕ, ◌≡◌, Bool, false, List, [], ◌∷◌, length, mem, all, not, map, Distinct}

-- `layer.index_select(d, indices)` and `layer.index_copy_(d, indices, rows)`.
pub record Torch (L V : Type 0) : Type 0 where
  pub index_select : List ℕ → L → List V
  pub index_copy : List ℕ → List V → L → L

-- As many rows are read as indices are given; rows written at different indices are read back; a
-- row at another index stays.
pub record TorchLaws {L V : Type 0} (t : Torch L V) : Type 0 where
  pub length-select : (is : List ℕ) (layer : L) → length (t.index_select is layer) ≡ length is
  pub select-copy :
      (is : List ℕ) (rows : List V) (layer : L)
      → Distinct is
      → length is ≡ length rows
      → t.index_select is (t.index_copy is rows layer) ≡ rows
  pub select-copy_other :
      (is : List ℕ) (rows : List V) (layer : L) (i : ℕ)
      → mem i is ≡ false
      → t.index_select (i ∷ []) (t.index_copy is rows layer) ≡ t.index_select (i ∷ []) layer

module _ {L V : Type 0} (t : Torch L V) where
  abbrev pub select_layers : List ℕ → List L → List (List V)
  select_layers indices layers = map (t.index_select indices) layers

  -- The loop over the layers and what is written to them.
  unfoldable pub copy_layers : List ℕ → List (List V) → List L → List L
  copy_layers indices payload [] = []
  copy_layers indices [] (layer ∷ layers) = layer ∷ layers
  copy_layers indices (rows ∷ payload) (layer ∷ layers) =
      t.index_copy indices rows layer ∷ copy_layers indices payload layers
