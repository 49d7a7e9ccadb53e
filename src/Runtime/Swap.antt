-- ===== src/Runtime/Swap.antt =====
-- `batched_swap` of autellix/runtime/swap.py: blocks of a cache are copied to another, in all layers
-- at once. The copies to and from the staging memory change no row.
pub mod Copied
use autellix.Prelude.{
  ℕ, zero, suc, ◌+◌, ◌*◌, Bool, true, false, not, ◌&&◌, ◌||◌, List, [], ◌∷◌, Option, none, some,
  Result, ok, err, ◌>>=◌, ◌>>◌, require, length, map, all, any, ltb, ◌==◌, if◌then◌else◌,
}
use autellix.Prelude.Int.{ℤ, pos, negsuc, pos_part}
use autellix.Prelude.Torch.{Torch, select_layers, copy_layers}

-- One layer of a cache: `standard` says that its shape begins with 2, has three dimensions at least,
-- and is contiguous; `shape` stands for the rest of its shape, and device 0 is the CPU.
pub record Tensor (L : Type 0) : Type 0 where
  pub rows : L
  pub device : ℕ
  pub blocks : ℕ
  pub standard : Bool
  pub shape : ℕ
  pub dtype : ℕ

pub data SwapError : Type 0 where
  bad_counts duplicate_blocks bad_devices unsupported out_of_bounds : SwapError

abbrev pub in_bounds : ℕ → ℤ → Bool
in_bounds blocks (pos n) = ltb n blocks
in_bounds blocks (negsuc n) = false

-- The blocks that are read, and those that are written.
abbrev pub sources_of : List (ℤ × ℤ) → List ℕ
sources_of pairs = map (λ p. pos_part p.0) pairs

abbrev pub targets_of : List (ℤ × ℤ) → List ℕ
targets_of pairs = map (λ p. pos_part p.1) pairs

abbrev pub same_ℤ : ℤ → ℤ → Bool
same_ℤ (pos a) (pos b) = a == b
same_ℤ (negsuc a) (negsuc b) = a == b
same_ℤ _ _ = false

abbrev pub same_bool : Bool → Bool → Bool
same_bool true b = b
same_bool false b = not b

-- `len(set(xs)) == len(xs)`.
abbrev pub all_differ : List ℤ → Bool
all_differ [] = true
all_differ (x ∷ xs) = not (any (same_ℤ x) xs) && all_differ xs

module _ {L : Type 0} where
  abbrev pub rows_of : List (Tensor L) → List L
  rows_of tensors = map (λ x. x.rows) tensors

  abbrev pub with_rows : List L → List (Tensor L) → List (Tensor L)
  with_rows [] tensors = tensors
  with_rows (l ∷ ls) [] = []
  with_rows (l ∷ ls) (x ∷ tensors) = record x { rows = l } ∷ with_rows ls tensors

  -- The formats that a copy supports, next to the first layers of both sides.
  abbrev pub is_supported : Tensor L → Tensor L → Tensor L → Tensor L → Bool
  is_supported first_src first_dst src dst =
      src.standard
      && dst.standard
      && src.shape == dst.shape
      && src.dtype == first_src.dtype
      && dst.dtype == src.dtype
      && src.device == first_src.device
      && dst.device == first_dst.device

  -- The loop of the checks over the pairs of layers.
  unfoldable pub check_layers :
      Tensor L
      → Tensor L
      → List (ℤ × ℤ)
      → List (Tensor L)
      → List (Tensor L)
      → Result SwapError (Unit {0})
  check_layers s d pairs [] targets = ok tt
  check_layers s d pairs (src ∷ sources) [] = ok tt
  check_layers s d pairs (src ∷ sources) (dst ∷ targets) = do
    require (is_supported s d src dst) unsupported
    require (all (λ p. in_bounds src.blocks p.0 && in_bounds dst.blocks p.1) pairs) out_of_bounds
    check_layers s d pairs sources targets

  -- The checks of a mapping that is not empty.
  unfoldable pub check_swap :
      List (ℤ × ℤ) → List (Tensor L) → List (Tensor L) → Result SwapError (Unit {0})
  unfolding check_layers
  check_swap pairs (s ∷ sources) (d ∷ targets) = do
    require (all_differ (map (λ p. p.1) pairs)) duplicate_blocks
    require (not (same_bool (s.device == 0) (d.device == 0))) bad_devices
    check_layers s d pairs (s ∷ sources) (d ∷ targets)
  check_swap pairs _ _ = err bad_counts

abbrev pub is_pair : List (ℤ × ℤ) → Bool
is_pair [] = false
is_pair (p ∷ ps) = true

module _ {L V : Type 0} (t : Torch L V) where
  -- The gather of all layers, and the scatter to the other side.
  abbrev pub moved : List (ℤ × ℤ) → List (Tensor L) → List (Tensor L) → List (Tensor L)
  unfolding copy_layers
  moved pairs sources targets =
      with_rows
        (copy_layers t (targets_of pairs) (select_layers t (sources_of pairs) (rows_of sources))
          (rows_of targets))
        targets

  -- `batched_swap`, which writes to the layers of `targets`.
  unfoldable pub batched_swap :
      List (Tensor L) → List (Tensor L) → List (ℤ × ℤ) → Result SwapError (List (Tensor L))
  unfolding check_swap moved
  batched_swap sources targets pairs = do
    require (length sources == length targets && not (length sources == 0)) bad_counts
    if is_pair pairs
        then (check_swap pairs sources targets >> ok (moved pairs sources targets))
        else ok targets
