-- ===== src/Integrations/HostKv/Budget.antt =====
-- The budget of `HostKV` in integrations/sglang/swap.py.
use autellix.Prelude.{
  ℕ, ◌+◌, ◌*◌, ◌≤◌, ◌≡◌, inl, inr, List, [], ◌∷◌, ok, length, leb, leb→le, ◌==◌, ==_iff,
  occurrences, Distinct, Bool-cases, mem-occurrences, passed, ok_injective, subst, arith,
}
use autellix.Prelude.Dict.{Dict, insert, erase, keys}
use autellix.Prelude.Counts.{occurrences-insert, occurrences-erase, erase-absent}
use autellix.Prelude.Torch.{Torch, select_layers}
use autellix.Integrations.HostKv.{
  budget_exhausted, Torch, Entry, HostKv, select_layers, bytes_of, discard, save,
}

module _ {V : Type 0} where
  abbrev pub total : Dict (Entry V) → ℕ
  total [] = 0
  total ((rid, entry) ∷ d) = entry.bytes + total d

  -- Each request has one copy; the bytes in use are those of the copies, within the limit.
  pub record IsBudgeted (h : HostKv V) : Type 0 where
    pub distinct : Distinct (keys h.saved)
    pub used : h.used_bytes ≡ total h.saved
    pub within : h.used_bytes ≤ h.limit_bytes

  total-insert :
      (rid : ℕ) (entry : Entry V) (d : Dict (Entry V))
      → total (insert rid entry d) + bytes_of rid d ≡ total d + entry.bytes
  total-insert rid entry [] = omega arith
  total-insert rid entry ((j, v) ∷ d) = ground (arith, total-insert rid entry d)

  total-erase :
      (rid : ℕ) (d : Dict (Entry V))
      → occurrences rid (keys d) ≤ 1
      → total (erase rid d) + bytes_of rid d ≡ total d
  total-erase rid [] h = omega arith
  total-erase rid ((j, v) ∷ d) h = elim (Bool-cases (j == rid)) [
    | inl e ↦ ground (arith, erase-absent rid d)
    | inr e ↦ ground (arith, total-erase rid d)
  ]

  pub discard-IsBudgeted : (rid : ℕ) (h : HostKv V) → IsBudgeted h → IsBudgeted (discard rid h)
  unfolding discard
  discard-IsBudgeted rid h b = record {
    distinct = λ x. ground (arith, b.distinct x, occurrences-erase x rid h.saved);
    used = omega (arith, b.used, total-erase rid h.saved (b.distinct rid));
    within = omega (arith, b.within);
  }

module _ {L V : Type 0} (t : Torch L V) where
  -- A `save` that succeeds keeps the account of the bytes in use exact and within the limit, whether
  -- the request had a copy or not.
  pub save-IsBudgeted :
      (row_bytes rid : ℕ) (tokens indices : List ℕ) (layers : List L) (h after : HostKv V)
      → IsBudgeted h
      → save t row_bytes rid tokens indices layers h ≡ ok after
      → IsBudgeted after
  unfolding save
  save-IsBudgeted row_bytes rid tokens indices layers h after b q =
      let size = row_bytes * length indices in
      let (fits, last) =
        passed (leb (h.used_bytes + size) (h.limit_bytes + bytes_of rid h.saved)) budget_exhausted
          q in
      let entry : Entry V = record {
        tokens = tokens;
        rows = select_layers t indices layers;
        bytes = size;
      } in
      subst IsBudgeted (ok_injective last) (record {
        distinct = λ x. ground (
          arith,
          b.distinct x,
          occurrences-insert x rid entry h.saved,
          mem-occurrences rid (keys h.saved),
          ==_iff rid x,
        );
        used = omega (arith, b.used, total-insert rid entry h.saved);
        within = omega (
          arith,
          b.within,
          leb→le (h.used_bytes + size) (h.limit_bytes + bytes_of rid h.saved) fits,
        );
      })
