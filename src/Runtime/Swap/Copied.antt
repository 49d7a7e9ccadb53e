-- ===== src/Runtime/Swap/Copied.antt =====
-- The blocks that `batched_swap` of autellix/runtime/swap.py copies.
use autellix.Prelude.{
  ℕ, suc, ◌≡◌, refl, sym, ap, ◌∙◌, subst, Bool, true, false, not, ◌&&◌, List, [], ◌∷◌, ok, length,
  map, all, any, ◌==◌, ==_iff, mem, mem-occurrences, Distinct, All, passed, >>=-eq-ok, ok_injective,
  length-map, arith,
}
use autellix.Prelude.Int.{ℤ, pos, negsuc, pos_part}
use autellix.Prelude.Torch.{Torch, TorchLaws, select_layers, copy_layers}
use autellix.Prelude.Torch.Layers.{HasLength, copy_layers-reads, copy_layers-other}
use autellix.Runtime.Swap.{
  Tensor, bad_counts, duplicate_blocks, bad_devices, unsupported, out_of_bounds, in_bounds,
  sources_of, targets_of, all_differ, same_ℤ, same_bool, rows_of, with_rows, is_supported,
  check_layers, check_swap, is_pair, moved, batched_swap,
}

-- A block's number is not negative.
abbrev is_block : ℤ → Bool
is_block (pos n) = true
is_block (negsuc n) = false

any-same :
    (x : ℤ) (ys : List ℤ)
    → is_block x ≡ true
    → all is_block ys ≡ true
    → any (same_ℤ x) ys ≡ mem (pos_part x) (map pos_part ys)
any-same x [] h a = refl
any-same (pos n) (pos m ∷ ys) h a = ground (arith, any-same (pos n) ys h, ==_iff n m, ==_iff m n)
any-same (pos n) (negsuc m ∷ ys) h a = absurd (ground arith)
any-same (negsuc n) (y ∷ ys) h a = absurd (ground arith)

all_differ-Distinct :
    (xs : List ℤ) → all is_block xs ≡ true → all_differ xs ≡ true → Distinct (map pos_part xs)
all_differ-Distinct [] a h x = omega arith
all_differ-Distinct (y ∷ ys) a h x = ground (
  arith,
  all_differ-Distinct ys (ground arith) (ground arith) x,
  any-same y ys,
  mem-occurrences (pos_part y) (map pos_part ys),
  ==_iff (pos_part y) x,
)

targets-pos_part : (pairs : List (ℤ × ℤ)) → map pos_part (map (λ p. p.1) pairs) ≡ targets_of pairs
targets-pos_part [] = refl
targets-pos_part (p ∷ pairs) = ap (λ xs. pos_part p.1 ∷ xs) (targets-pos_part pairs)

bounded-is_block :
    (a b : ℕ) (pairs : List (ℤ × ℤ))
    → all (λ p. in_bounds a p.0 && in_bounds b p.1) pairs ≡ true
    → all is_block (map (λ p. p.1) pairs) ≡ true
bounded-is_block a b [] h = refl
bounded-is_block a b ((x, pos n) ∷ pairs) h = ground (arith, bounded-is_block a b pairs)
bounded-is_block a b ((x, negsuc n) ∷ pairs) h = absurd (ground arith)

module _ {L : Type 0} where
  -- The mapping that the checks let through writes each block once.
  check_swap-Distinct :
      (pairs : List (ℤ × ℤ)) (sources targets : List (Tensor L))
      → check_swap pairs sources targets ≡ ok tt
      → Distinct (targets_of pairs)
  unfolding check_swap check_layers
  check_swap-Distinct pairs [] targets h = absurd cc
  check_swap-Distinct pairs (s ∷ sources) [] h = absurd cc
  check_swap-Distinct pairs (s ∷ sources) (d ∷ targets) h =
      let (differ, h1) = passed (all_differ (map (λ p. p.1) pairs)) duplicate_blocks h in
      let h2 = (passed (not (same_bool (s.device == 0) (d.device == 0))) bad_devices h1).1 in
      let h3 = (passed (is_supported s d s d) unsupported h2).1 in
      let bounds : Bool = all (λ p. in_bounds s.blocks p.0 && in_bounds d.blocks p.1) pairs in
      let (within, _) = passed bounds out_of_bounds h3 in
      subst Distinct (targets-pos_part pairs) (
        all_differ-Distinct (map (λ p. p.1) pairs) (bounded-is_block s.blocks d.blocks pairs within)
          differ)

  rows_of-with_rows :
      (ls : List L) (tensors : List (Tensor L))
      → length ls ≡ length tensors
      → rows_of (with_rows ls tensors) ≡ ls
  rows_of-with_rows [] [] h = refl
  rows_of-with_rows [] (x ∷ tensors) h = absurd (omega arith)
  rows_of-with_rows (l ∷ ls) [] h = absurd (omega arith)
  rows_of-with_rows (l ∷ ls) (x ∷ tensors) h =
      ap (λ ks. l ∷ ks) (rows_of-with_rows ls tensors (omega arith))

module _ {L V : Type 0} (t : Torch L V) (laws : TorchLaws t) where
  length-copy_layers :
      (is : List ℕ) (payload : List (List V)) (layers : List L)
      → length (copy_layers t is payload layers) ≡ length layers
  unfolding copy_layers
  length-copy_layers is payload [] = refl
  length-copy_layers is [] (layer ∷ layers) = refl
  length-copy_layers is (rows ∷ payload) (layer ∷ layers) =
      ap suc (length-copy_layers is payload layers)

  selected-HasLength :
      (is : List ℕ) (n : ℕ) (layers : List L)
      → length is ≡ n
      → All (HasLength n) (select_layers t is layers)
  selected-HasLength is n [] h = tt
  selected-HasLength is n (layer ∷ layers) h =
      (laws.length-select is layer ∙ h, selected-HasLength is n layers h)

  -- A swap of some blocks that raises no error has copied each block of the mapping from its source to its
  -- destination, in all layers, and has changed no block `i` that is no destination.
  pub batched_swap-copies :
      (sources targets after : List (Tensor L)) (pairs : List (ℤ × ℤ)) (i : ℕ)
      → is_pair pairs ≡ true
      → mem i (targets_of pairs) ≡ false
      → batched_swap t sources targets pairs ≡ ok after
      → (select_layers t (targets_of pairs) (rows_of after)
          ≡ select_layers t (sources_of pairs) (rows_of sources))
        × (select_layers t (i ∷ []) (rows_of after) ≡ select_layers t (i ∷ []) (rows_of targets))
  unfolding batched_swap moved
  batched_swap-copies sources targets after pairs i some_pair other h =
      let counts : Bool = length sources == length targets && not (length sources == 0) in
      let (even, h1) = passed counts bad_counts h in
      let (_, checks, last) = >>=-eq-ok (check_swap pairs sources targets) _ (rw some_pair at h1) in
      let payload = select_layers t (sources_of pairs) (rows_of sources) in
      let written = copy_layers t (targets_of pairs) payload (rows_of targets) in
      let same : rows_of after ≡ written =
        sym (ap rows_of (ok_injective last))
        ∙ rows_of-with_rows written targets (
            length-copy_layers (targets_of pairs) payload (rows_of targets)
            ∙ length-map (λ (x : Tensor L). x.rows) targets) in
      let one = check_swap-Distinct pairs sources targets checks in
      let sizes : length payload ≡ length (rows_of targets) = ground (
        arith,
        even,
        length-map (λ (x : Tensor L). x.rows) targets,
        length-map (λ (x : Tensor L). x.rows) sources,
        length-map (t.index_select (sources_of pairs)) (rows_of sources),
      ) in
      let widths : length (sources_of pairs) ≡ length (targets_of pairs) = omega (
        arith,
        length-map (λ (p : ℤ × ℤ). pos_part p.0) pairs,
        length-map (λ (p : ℤ × ℤ). pos_part p.1) pairs,
      ) in
      (
        ap (select_layers t (targets_of pairs)) same
            ∙ copy_layers-reads t laws (targets_of pairs) payload (rows_of targets) one sizes (
                selected-HasLength (sources_of pairs) (length (targets_of pairs)) (rows_of sources)
                  widths),
        ap (select_layers t (i ∷ [])) same
            ∙ copy_layers-other t laws (targets_of pairs) payload (rows_of targets) i other,
      )
