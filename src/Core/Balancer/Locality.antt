-- ===== src/Core/Balancer/Locality.antt =====
-- Which engine the balancers of autellix/core/load_balancer.py choose.
use autellix.Prelude.{
  ℕ, suc, zero, ◌≡◌, refl, sym, ap, subst, ok_injective, ◌∙◌, inl, inr, true, false, List, [], ◌∷◌,
  none, some, ok, get_elem?, arith, Bool-cases, Option-cases, All,
}
use autellix.Prelude.Dict.{Dict, lookup, update, lookup-update}
use autellix.Prelude.Sort.{lex_le, lex_le-total, lex_le_trans}
use autellix.Prelude.Int.{ℤ}
use autellix.Core.State.{CallSpec, EngineState, ProcessEntry}
use autellix.Core.Balancer.{
  locality_aware, least_used, least_from, load_key, assign, assign_local, assign_to, Assignment,
  is_short, used, pinned,
}

abbrev pub IsLeast : EngineState → EngineState → Type 0
IsLeast best e = lex_le (load_key best) (load_key e) ≡ true

lex_le_refl : (a : ℕ × ℕ) → lex_le a a ≡ true
lex_le_refl (a, b) = ground arith

least_from-kept :
    (best e : EngineState) (es : List EngineState)
    → IsLeast best e
    → least_from best (e ∷ es) ≡ least_from best es
unfolding least_from
least_from-kept best e es h = rw h refl

least_from-replaced :
    (best e : EngineState) (es : List EngineState)
    → lex_le (load_key best) (load_key e) ≡ false
    → least_from best (e ∷ es) ≡ least_from e es
unfolding least_from
least_from-replaced best e es h = rw h refl

least_from-single : (e : EngineState) → All (IsLeast (least_from e [])) (e ∷ [])
unfolding least_from
least_from-single e = (lex_le_refl (load_key e), tt)

least_from-IsLeast :
    (best : EngineState) (es : List EngineState) → All (IsLeast (least_from best es)) (best ∷ es)
least_from-IsLeast best [] = least_from-single best
least_from-IsLeast best (e ∷ es) = elim (Bool-cases (lex_le (load_key best) (load_key e))) [
  | inl h ↦
      let (a, rest) = least_from-IsLeast best es in
      subst (λ r. All (IsLeast r) (best ∷ e ∷ es)) (sym (least_from-kept best e es h))
        (a, (lex_le_trans (load_key (least_from best es)) (load_key best) (load_key e) a h, rest))
  | inr h ↦
      let (a, rest) = least_from-IsLeast e es in
      let le : IsLeast e best = ground (arith, lex_le-total (load_key best) (load_key e)) in
      subst (λ r. All (IsLeast r) (best ∷ e ∷ es)) (sym (least_from-replaced best e es h))
        (lex_le_trans (load_key (least_from e es)) (load_key e) (load_key best) a le, (a, rest))
]

-- A place in a list that has no second element is one in the list that has it.
skip :
    (best e : EngineState) (es : List EngineState) (b : EngineState)
    → (i : ℕ) × (get_elem? (best ∷ es) i ≡ some b)
    → (i : ℕ) × (get_elem? (best ∷ e ∷ es) i ≡ some b)
skip best e es b (zero, p) = (0, p)
skip best e es b (suc i, p) = (suc (suc i), p)

least_from-mem :
    (best : EngineState) (es : List EngineState)
    → (i : ℕ) × (get_elem? (best ∷ es) i ≡ some (least_from best es))
unfolding least_from
least_from-mem best [] = (0, refl)
least_from-mem best (e ∷ es) = elim (Bool-cases (lex_le (load_key best) (load_key e))) [
  | inl h ↦ rw h (skip best e es _ (least_from-mem best es))
  | inr h ↦ let (i, p) = least_from-mem e es in rw h (suc i, p)
]

-- `least_used` chooses one of the engines, and no engine has a smaller workload, or the same and a
-- smaller identifier.
pub least_used-IsLeast :
    (es : List EngineState) (best : EngineState)
    → least_used es ≡ some best
    → All (IsLeast best) es × (i : ℕ) × (get_elem? es i ≡ some best)
unfolding least_used
least_used-IsLeast [] best h = cc
least_used-IsLeast (e ∷ es) best h =
    let same : least_from e es ≡ best = cc in
    let all = least_from-IsLeast e es in
    let (i, p) = least_from-mem e es in
    (subst (λ r. All (IsLeast r) (e ∷ es)) same all, i, p ∙ ap some same)

-- Engines that stand at the places that they are named by, as `Simulator` builds them.
abbrev pub IsNumbered : List EngineState → Type 0
IsNumbered es = (i : ℕ) (e : EngineState) → get_elem? es i ≡ some e → e.engine_id ≡ i

abbrev pub HomeIs : ℕ → ℕ → Dict ProcessEntry → Type 0
HomeIs pid home table =
    (entry : ProcessEntry) × (lookup pid table ≡ some entry) × (entry.engine_id ≡ some home)

module _ (threshold : ℤ) (call : CallSpec) (engines : List EngineState) (table : Dict ProcessEntry)
    (a : Assignment) where
  -- A pinned program's long request goes to the home engine.
  assign_home :
      {home : ℕ}
      → is_short threshold call ≡ false
      → HomeIs call.program_id home table
      → assign call engines table (locality_aware threshold) ≡ ok a
      → (e : EngineState) × (get_elem? engines home ≡ some e)
        × (assign_to call engines table (locality_aware threshold) e table ≡ a)
  unfolding assign assign_local
  assign_home {home = home} long (entry, p, q) h = elim (Option-cases (get_elem? engines home)) [
    | inl none_there ↦ absurd (let g = rw (p, long, q, none_there) at h in cc)
    | inr (e, there) ↦ (e, there, ok_injective (rw (p, long, q, there) at h))
  ]

  assign_new :
      (entry : ProcessEntry)
      → is_short threshold call ≡ false
      → lookup call.program_id table ≡ some entry
      → entry.engine_id ≡ none
      → assign call engines table (locality_aware threshold) ≡ ok a
      → (e : EngineState) × (least_used engines ≡ some e)
        × (assign_to call engines table
              (locality_aware threshold)
              e
              (update call.program_id (pinned e) table)
            ≡ a)
  unfolding assign assign_local
  assign_new entry long p q h = elim (Option-cases (least_used engines)) [
    | inl none_there ↦ absurd (let g = rw (p, long, q, none_there) at h in cc)
    | inr (e, there) ↦ (e, there, ok_injective (rw (p, long, q, there) at h))
  ]

  assign_known :
      assign call engines table (locality_aware threshold) ≡ ok a
      → (entry : ProcessEntry) × (lookup call.program_id table ≡ some entry)
  unfolding assign
  assign_known h = elim (Option-cases (lookup call.program_id table)) [
    | inl none_there ↦ absurd (let g = rw none_there at h in cc)
    | inr there ↦ there
  ]

  -- A long request leaves its program pinned to the engine that it was given.
  assign-HomeIs :
      IsNumbered engines
      → is_short threshold call ≡ false
      → assign call engines table (locality_aware threshold) ≡ ok a
      → HomeIs call.program_id a.engine.engine_id a.processes
  unfolding assign_to
  assign-HomeIs numbered long h =
      let pid = call.program_id in
      let (entry, p) = assign_known h in
      elim (Option-cases entry.engine_id) [
        | inl new ↦
            let (e, _, same) = assign_new entry long p new h in
            subst (λ b. HomeIs pid b.engine.engine_id b.processes) same
              (
                used e (pinned e entry),
                ground (
                  arith,
                  lookup-update pid pid (used e) (update pid (pinned e) table),
                  lookup-update pid pid (pinned e) table,
                ),
                refl,
              )
        | inr (home, q) ↦
            let (e, there, same) = assign_home long (entry, p, q) h in
            subst (λ b. HomeIs pid b.engine.engine_id b.processes) same
              (
                used e entry,
                ground (arith, lookup-update pid pid (used e) table),
                q ∙ ap some (sym (numbered home e there)),
              )
      ]

  assign-engine_id :
      {home : ℕ}
      → IsNumbered engines
      → is_short threshold call ≡ false
      → HomeIs call.program_id home table
      → assign call engines table (locality_aware threshold) ≡ ok a
      → a.engine.engine_id ≡ home
  unfolding assign_to
  assign-engine_id {home = home} numbered long known h =
      let (e, there, same) = assign_home long known h in
      subst (λ b. b.engine.engine_id ≡ home) same (numbered home e there)

-- Two long requests of a program go to the same engine under locality-aware balancing, whatever
-- the loads of the engines are at the second one and whatever happened to other programs between
-- them, if the engines are numbered by their places at both and the program's entry was kept.
pub assign_sticks :
    (threshold : ℤ) (first second : CallSpec) (engines later : List EngineState)
    (table between : Dict ProcessEntry) (a b : Assignment)
    → IsNumbered engines
    → IsNumbered later
    → is_short threshold first ≡ false
    → is_short threshold second ≡ false
    → first.program_id ≡ second.program_id
    → assign first engines table (locality_aware threshold) ≡ ok a
    → lookup first.program_id between ≡ lookup first.program_id a.processes
    → assign second later between (locality_aware threshold) ≡ ok b
    → b.engine.engine_id ≡ a.engine.engine_id
assign_sticks threshold first second engines later table between a b m n s l same h kept g =
    let (entry, p, q) = assign-HomeIs threshold first engines table a m s h in
    assign-engine_id threshold second later between b n l
      (entry, ap (λ x. lookup x between) (sym same) ∙ kept ∙ p, q) g
