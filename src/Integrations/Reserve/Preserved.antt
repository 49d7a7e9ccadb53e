-- ===== src/Integrations/Reserve/Preserved.antt =====
-- The copies that `release_reserves` of integrations/sglang/reserve.py leaves.
use autellix.Prelude.{
  ℕ, ◌≡◌, refl, sym, ap, ◌∙◌, subst, ◌⊎◌, inl, inr, true, List, [], ◌∷◌, Option, some, ok, or_fail,
  map_err, length, ◌*◌, ◌+◌, leb, ◌==◌, ==_iff, if◌then◌else◌, Bool-cases, Result-cases, >>=-eq-ok,
  passed, or_fail-ok, map_err-ok, ok_injective,
}
use autellix.Prelude.Dict.{Dict, lookup, erase, lookup-insert, lookup-erase}
use autellix.Prelude.Torch.{Torch, select_layers}
use autellix.Integrations.HostKv.{HostKv, Entry, save, bytes_of, budget_exhausted}
use autellix.Integrations.Reserve.{
  Reserving, no_reserve, no_request, lost_prefix, in_host, selected, copied, release_one,
  release_all, release_reserves,
}

save-saved :
    {L V : Type 0} (t : Torch L V) (row_bytes rid : ℕ) (tokens indices : List ℕ) (layers : List L)
    (h after : HostKv V) (other : ℕ)
    → save t row_bytes rid tokens indices layers h ≡ ok after
    → lookup other after.saved ≡ (
        if rid == other
        then some (record {
          tokens = tokens;
          rows = select_layers t indices layers;
          bytes = row_bytes * length indices;
        })
        else lookup other h.saved)
unfolding save
save-saved {V = V} t row_bytes rid tokens indices layers h after other q =
    let size = row_bytes * length indices in
    let (_, last) =
      passed (leb (h.used_bytes + size) (h.limit_bytes + bytes_of rid h.saved)) budget_exhausted
        q in
    let entry : Entry V = record {
      tokens = tokens;
      rows = select_layers t indices layers;
      bytes = size;
    } in
    sym (ap (λ (x : HostKv V). lookup other x.saved) (ok_injective last))
    ∙ lookup-insert rid other entry h.saved

module _ {L V : Type 0} (t : Torch L V) (row_bytes : ℕ) (match_prefix : List ℕ → List ℕ)
    (layers : List L) (requests : Dict (List ℕ)) where
  -- The host's copy of a request holds the request's reserved tokens and, of each layer, the rows at
  -- the slots that the cache has for all of them.
  abbrev pub IsSaved : ℕ → Entry V → Type 0
  IsSaved rid entry =
      (lookup rid requests ≡ some entry.tokens)
      × (length (match_prefix entry.tokens) ≡ length entry.tokens)
      × (entry.rows ≡ select_layers t (match_prefix entry.tokens) layers)

  -- The request is pinned still, or the host has such a copy of its rows.
  abbrev pub IsSafe : ℕ → ℕ → Reserving V → Type 0
  IsSafe rid node s =
      (h : HostKv V) × (s.host ≡ some h)
      × ((lookup rid s.reserves ≡ some node)
          ⊎ ((entry : Entry V) × (lookup rid h.saved ≡ some entry) × IsSaved rid entry))

  release_one-IsSafe :
      (rid node r : ℕ) (s next : Reserving V)
      → IsSafe rid node s
      → release_one t row_bytes match_prefix layers requests true r s ≡ ok next
      → IsSafe rid node next
  unfolding release_one copied
  release_one-IsSafe rid node r s next (h, here, safe) q =
      let (n, _, q1) = >>=-eq-ok (or_fail (lookup r s.reserves) no_reserve) _ q in
      let (host, c, last) =
        >>=-eq-ok (copied t row_bytes match_prefix layers requests true r s.host) _ q1 in
      let c1 = ap (copied t row_bytes match_prefix layers requests true r) (sym here) ∙ c in
      let (tokens, k, c2) = >>=-eq-ok (or_fail (lookup r requests) no_request) _ c1 in
      let known = or_fail-ok (lookup r requests) no_request k in
      let (whole, c3) = passed (length (match_prefix tokens) == length tokens) lost_prefix c2 in
      let saving = save t row_bytes r tokens (match_prefix tokens) layers h in
      let (after, w, c4) = >>=-eq-ok (map_err in_host saving) _ c3 in
      let stored =
        save-saved t row_bytes r tokens (match_prefix tokens) layers h after rid
          (map_err-ok in_host saving w) in
      let kept : next.host ≡ some after =
        sym (ap (λ (x : Reserving V). x.host) (ok_injective last)) ∙ sym (ok_injective c4) in
      let pins : lookup rid next.reserves ≡ lookup rid (erase r s.reserves) =
        sym (ap (λ (x : Reserving V). lookup rid x.reserves) (ok_injective last)) in
      (
        after,
        kept,
        elim (Bool-cases (r == rid)) [
          | inl e ↦
              let same = (==_iff r rid).0 e in
              inr (
                record {
                  tokens = tokens;
                  rows = select_layers t (match_prefix tokens) layers;
                  bytes = row_bytes * length (match_prefix tokens);
                },
                rw e at stored,
                (
                  subst (λ k. lookup k requests ≡ some tokens) same known,
                  (==_iff (length (match_prefix tokens)) (length tokens)).0 whole,
                  refl,
                ),
              )
          | inr e ↦ elim safe [
            | inl p ↦ inl (pins ∙ rw e at (lookup-erase r rid s.reserves) ∙ p)
            | inr (entry, l, k) ↦ inr (entry, rw e at stored ∙ l, k)
          ]
        ],
      )

  release_all-IsSafe :
      (rid node : ℕ) (rs : List ℕ) (s : Reserving V)
      → IsSafe rid node s
      → IsSafe rid node (release_all t row_bytes match_prefix layers requests true rs s).0
  unfolding release_all
  release_all-IsSafe rid node [] s safe = safe
  release_all-IsSafe rid node (r ∷ rs) s safe =
      elim (Result-cases (release_one t row_bytes match_prefix layers requests true r s)) [
        | inr (x, e) ↦ rw (e, release_all) safe
        | inl (next, e) ↦
            rw (e, release_all)
              (release_all-IsSafe rid node rs next (release_one-IsSafe rid node r s next safe e))
      ]

  -- With host copies and the request to preserve them, whether `release_reserves` ends or raises an
  -- error on the way, no pinned request loses its rows: it is pinned still, or the host has a copy with
  -- its reserved tokens whose rows are those that the layers hold at the slots that the cache has for
  -- these tokens, one slot for each token.
  pub release_reserves-IsSafe :
      (rids : Option (List ℕ)) (rid node : ℕ) (s : Reserving V)
      → IsSafe rid node s
      → IsSafe rid node (release_reserves t row_bytes match_prefix layers requests rids true s).0
  unfolding release_reserves
  release_reserves-IsSafe rids rid node s safe =
      release_all-IsSafe rid node (selected s.reserves rids) s safe
