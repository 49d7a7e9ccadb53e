-- ===== src/Integrations/Reserve.antt =====
-- `release_reserves` of integrations/sglang/reserve.py: a reserve's rows are copied to the host before
-- the radix cache may drop them. What the cache finds for tokens is an argument, as is the pool.
pub mod Preserved
use autellix.Prelude.{
  ℕ, Bool, true, false, List, [], ◌∷◌, ◌++◌, Option, none, some, Result, ok, err, ◌>>=◌, ◌>>◌,
  or_fail, require, map_err, length, ◌==◌,
}
use autellix.Prelude.Dict.{Dict, lookup, erase, keys}
use autellix.Prelude.Torch.{Torch}
use autellix.Integrations.HostKv.{HostKv, HostError, save}

-- The scheduler's pins by request, its host copies, and the nodes that it has unpinned.
pub record Reserving (V : Type 0) : Type 0 where
  pub reserves : Dict ℕ
  pub host : Option (HostKv V)
  pub unpinned : List ℕ

pub data ReserveError : Type 0 where
  no_reserve no_request lost_prefix : ReserveError
  in_host : HostError → ReserveError

abbrev pub selected {ℓ} : {A : Type ℓ} → Dict A → Option (List ℕ) → List ℕ
selected reserves none = keys reserves
selected reserves (some rids) = rids

-- The waiting requests' reserved tokens are those of `requests`.
module _ {L V : Type 0} (t : Torch L V) (row_bytes : ℕ) (match_prefix : List ℕ → List ℕ)
    (layers : List L) (requests : Dict (List ℕ)) where
  -- The copy of one reserve.
  unfoldable pub copied : Bool → ℕ → Option (HostKv V) → Result ReserveError (Option (HostKv V))
  copied preserve rid none = ok none
  copied false rid (some h) = ok (some h)
  copied true rid (some h) = do
    tokens ← or_fail (lookup rid requests) no_request
    let indices = match_prefix tokens
    require (length indices == length tokens) lost_prefix
    host ← map_err in_host (save t row_bytes rid tokens indices layers h)
    ok (some host)

  unfoldable pub release_one : Bool → ℕ → Reserving V → Result ReserveError (Reserving V)
  unfolding copied
  release_one preserve rid s = do
    node ← or_fail (lookup rid s.reserves) no_reserve
    host ← copied preserve rid s.host
    ok (record s {
      reserves = erase rid s.reserves;
      host = host;
      unpinned = s.unpinned ++ (node ∷ []);
    })

  -- The loop, with the state that an error leaves.
  unfoldable pub release_all :
      Bool → List ℕ → Reserving V → Reserving V × Result ReserveError (Unit {0})
  unfolding release_one
  release_all preserve [] s = (s, ok tt)
  release_all preserve (rid ∷ rids) s = elim (release_one preserve rid s) [
    | err e ↦ (s, err e)
    | ok next ↦ release_all preserve rids next
  ]

  -- `release_reserves`.
  unfoldable pub release_reserves :
      Option (List ℕ) → Bool → Reserving V → Reserving V × Result ReserveError (Unit {0})
  unfolding release_all
  release_reserves rids preserve s = release_all preserve (selected s.reserves rids) s
