-- ===== src/Integrations/HostKv.antt =====
-- `HostKV` of integrations/sglang/swap.py: copies of key and value rows in host memory, under a budget.
-- The radix cache and the slot allocator are SGLang's, so what they answer are arguments; so are the
-- two operations of torch on the layers of the device's pool.
pub mod Budget
pub mod Restoring
use autellix.Prelude.{
  ℕ, zero, suc, ◌+◌, ◌-◌, ◌*◌, max, Bool, true, false, List, [], ◌∷◌, Option, none, some, Result,
  ok, err, ◌>>=◌, ◌>>◌, require, length, map, take, drop, leb, ◌==◌, if◌then◌else◌,
}
use autellix.Prelude.Dict.{Dict, lookup, insert, erase}
use autellix.Prelude.Torch.{Torch, select_layers, copy_layers}

pub data HostError : Type 0 where
  budget_exhausted : HostError

-- The tokens of a request, its rows in each layer, and how many bytes these take.
pub record Entry (V : Type 0) : Type 0 where
  pub tokens : List ℕ
  pub rows : List (List V)
  pub bytes : ℕ

pub record HostKv (V : Type 0) : Type 0 where
  pub limit_bytes : ℕ
  pub used_bytes : ℕ
  pub saved : Dict (Entry V)

-- The slots that `restore` asks the cache to evict.
abbrev pub to_evict : ℕ → ℕ → ℕ
to_evict needed available = needed - available

-- The new slots that the cache had already, which `restore` frees.
abbrev pub duplicates : ℕ → List ℕ → List ℕ → List ℕ
duplicates shared prefix indices = take (shared - length prefix) indices

module _ {V : Type 0} where
  abbrev pub bytes_of : ℕ → Dict (Entry V) → ℕ
  bytes_of rid saved = elim (lookup rid saved) [ none ↦ 0 | some entry ↦ entry.bytes ]

  -- `discard`.
  unfoldable pub discard : ℕ → HostKv V → HostKv V
  discard rid h = record h {
    saved = erase rid h.saved;
    used_bytes = h.used_bytes - bytes_of rid h.saved;
  }

module _ {L V : Type 0} (t : Torch L V) where
  -- `save`, of rows of `row_bytes` bytes over all layers.
  unfoldable pub save : ℕ → ℕ → List ℕ → List ℕ → List L → HostKv V → Result HostError (HostKv V)
  save row_bytes rid tokens indices layers h = do
    let old_size = bytes_of rid h.saved
    let size = row_bytes * length indices
    require (leb (h.used_bytes + size) (h.limit_bytes + old_size)) budget_exhausted
    let entry : Entry V = record {
      tokens = tokens;
      rows = select_layers t indices layers;
      bytes = size;
    }
    ok (record h { saved = insert rid entry h.saved; used_bytes = h.used_bytes + size - old_size })

  -- `restore`, when the cache has `prefix` of the tokens and the allocator gives `allocated`. An
  -- error of a copy is not modelled.
  unfoldable pub restore : ℕ → List ℕ → Option (List ℕ) → HostKv V → List L → List L × Bool
  unfolding copy_layers
  restore rid prefix allocated h layers = elim (lookup rid h.saved) [
    | none ↦ (layers, false)
    | some entry ↦ elim (length prefix == length entry.tokens) [
      | true ↦ (layers, true)
      | false ↦ elim allocated [
        | none ↦ (layers, false)
        | some indices ↦
            (copy_layers t indices (map (drop (length prefix)) entry.rows) layers, true)
      ]
    ]
  ]
