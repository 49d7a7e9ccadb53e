-- ===== src/Integrations/HostKv/Restoring.antt =====
-- `HostKV.save` and `HostKV.restore` of integrations/sglang/swap.py: the rows come back.
use autellix.Prelude.{
  ℕ, ◌+◌, ◌*◌, ◌<◌, ◌≡◌, refl, sym, ap, ◌∙◌, true, false, List, [], ◌∷◌, some, ok, length, map,
  drop, leb, ◌==◌, ==_iff, Distinct, passed, ok_injective, arith, length-map, length-drop, All,
}
use autellix.Prelude.Dict.{lookup, lookup-insert}
use autellix.Prelude.Torch.{Torch, TorchLaws, select_layers}
use autellix.Prelude.Torch.Layers.{HasLength, copy_layers-reads}
use autellix.Integrations.HostKv.{budget_exhausted, Entry, HostKv, bytes_of, save, restore}

module _ {L V : Type 0} (t : Torch L V) (laws : TorchLaws t) where
  selected-HasLength :
      (n m : ℕ) (indices : List ℕ) (layers : List L)
      → n + m ≡ length indices
      → All (HasLength m) (map (drop n) (select_layers t indices layers))
  selected-HasLength n m indices [] h = tt
  selected-HasLength n m indices (layer ∷ layers) h = (
    omega (arith, length-drop n (t.index_select indices layer), laws.length-select indices layer),
    selected-HasLength n m indices layers h,
  )

  -- What `save` has kept of a request comes back: when the cache has a proper prefix of its tokens and
  -- the allocator gives as many different slots as rows are missing, then whatever as many layers hold
  -- later, `restore` writes to these slots the rows that the request had after the prefix.
  pub restore-save :
      (row_bytes rid : ℕ) (tokens indices prefix new : List ℕ) (layers later : List L)
      (h after : HostKv V)
      → save t row_bytes rid tokens indices layers h ≡ ok after
      → length prefix < length tokens
      → length prefix + length new ≡ length indices
      → Distinct new
      → length later ≡ length layers
      → ((restore t rid prefix (some new) after later).1 ≡ true)
        × (select_layers t new (restore t rid prefix (some new) after later).0
            ≡ map (drop (length prefix)) (select_layers t indices layers))
  unfolding save restore
  restore-save row_bytes rid tokens indices prefix new layers later h after q shorter fits one
        same =
      let size = row_bytes * length indices in
      let (_, last) =
        passed (leb (h.used_bytes + size) (h.limit_bytes + bytes_of rid h.saved)) budget_exhausted
          q in
      let entry : Entry V = record {
        tokens = tokens;
        rows = select_layers t indices layers;
        bytes = size;
      } in
      let stored : lookup rid after.saved ≡ some entry =
        sym (ap (λ (x : HostKv V). lookup rid x.saved) (ok_injective last))
        ∙ ground (arith, lookup-insert rid rid entry h.saved, ==_iff rid rid) in
      let more : (length prefix == length tokens) ≡ false = ground arith in
      let payload = map (drop (length prefix)) (select_layers t indices layers) in
      let reads =
        copy_layers-reads t laws new payload later one
          (omega (
            arith,
            same,
            length-map (drop {A = V} (length prefix)) (select_layers t indices layers),
            length-map (t.index_select indices) layers,
          ))
          (selected-HasLength (length prefix) (length new) indices layers fits) in
      rw (stored, more, restore) (refl, reads)
