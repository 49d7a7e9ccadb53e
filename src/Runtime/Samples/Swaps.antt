-- ===== src/Runtime/Samples/Swaps.antt =====
-- Two layers of a cache on the CPU, of which two blocks are swapped to the device.
use autellix.Prelude.{ℕ, ◌+◌, ◌≡◌, refl, true, List, [], ◌∷◌, Result, ok, err}
use autellix.Prelude.Int.{ℤ, pos}
use autellix.Prelude.Torch.{Torch, select_layers}
use autellix.Prelude.Torch.Functions.{functions, functions-TorchLaws}
use autellix.Runtime.Swap.{Tensor, SwapError, batched_swap, rows_of}
use autellix.Runtime.Swap.Copied.{batched_swap-copies}

abbrev torch : Torch (ℕ → ℕ) ℕ
torch = functions ℕ

abbrev layer : ℕ → ℕ → Tensor (ℕ → ℕ)
layer device base = record {
  rows = λ block. base + block;
  device = device;
  blocks = 8;
  standard = true;
  shape = 0;
  dtype = 0;
}

abbrev sources : List (Tensor (ℕ → ℕ))
sources = layer 0 10 ∷ layer 0 20 ∷ []

abbrev targets : List (Tensor (ℕ → ℕ))
targets = layer 1 50 ∷ layer 1 60 ∷ []

abbrev pairs : List (ℤ × ℤ)
pairs = (pos 1, pos 3) ∷ (pos 2, pos 5) ∷ []

abbrev value : Result SwapError (List (Tensor (ℕ → ℕ))) → List (Tensor (ℕ → ℕ))
value (ok x) = x
value (err e) = targets

abbrev after : List (Tensor (ℕ → ℕ))
unfolding batched_swap
after = value (batched_swap torch sources targets pairs)

swaps : batched_swap torch sources targets pairs ≡ ok after
unfolding batched_swap
swaps = refl

batched_swap-copies_example :
    (select_layers torch (3 ∷ 5 ∷ []) (rows_of after)
      ≡ select_layers torch (1 ∷ 2 ∷ []) (rows_of sources))
    × (select_layers torch (4 ∷ []) (rows_of after)
        ≡ select_layers torch (4 ∷ []) (rows_of targets))
batched_swap-copies_example =
    batched_swap-copies torch (functions-TorchLaws ℕ) sources targets after pairs 4 refl refl swaps
