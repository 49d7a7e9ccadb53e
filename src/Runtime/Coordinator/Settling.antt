-- ===== src/Runtime/Coordinator/Settling.antt =====
-- How `_resolve` and `_fail_replica` of autellix/runtime/engine.py settle requests.
use autellix.Prelude.{
  ℕ, ◌≡◌, ◌≢◌, refl, inl, inr, true, false, ◌&&◌, [], ◌∷◌, none, some, arith, ◌==◌, if◌then◌else◌,
  occurrences, Distinct, Bool-cases, ==_iff,
}
use autellix.Prelude.Dict.{Dict, lookup, keys, lookup-update, lookup-erase, lookup-has_key}
use autellix.Runtime.Coordinator.State.{
  Item, Future, Event, error, Coordinator, is_done, update_future,
}
use autellix.Runtime.Coordinator.Balance.{IsBalanced}
use autellix.Runtime.Coordinator.{
  cleanup_session, resolve, settle, settle_rpc, fail_pending, is_progress, text_of,
}

module _ (encode : ℕ → ℕ → ℕ) where
  -- What a report of the end of a request does to the pending requests and the remote calls.
  resolve-pending :
      (rid : ℕ) (event : Event) (now r : ℕ) (c : Coordinator)
      → is_progress encode event ≡ false
      → lookup rid c.rpc ≡ none
      → (lookup r (resolve encode rid event now c).pending
          ≡ (if rid == r then none else lookup r c.pending))
        × ((resolve encode rid event now c).rpc ≡ c.rpc)
  unfolding resolve cleanup_session
  resolve-pending rid event now r c p q = ground (arith, lookup-erase rid r c.pending, ==_iff rid r)

  unresolved :
      (rid : ℕ) (event : Event) (now : ℕ) (d : Coordinator)
      → lookup rid d.pending ≡ none
      → lookup rid d.rpc ≡ none
      → resolve encode rid event now d ≡ d
  unfolding resolve
  unresolved rid event now d g s = ground (arith, lookup-has_key rid d.pending)

  -- A request is settled once: when its end has been reported, nothing that is reported of it
  -- later, by a worker or by the failure of its replica, changes the coordinator.
  pub resolve_once :
      (rid : ℕ) (first second : Event) (now later : ℕ) (c : Coordinator)
      → is_progress encode first ≡ false
      → lookup rid c.rpc ≡ none
      → resolve encode rid second later (resolve encode rid first now c)
        ≡ resolve encode rid first now c
  resolve_once rid first second now later c p q =
      let d = resolve encode rid first now c in
      let (gone, same) = resolve-pending rid first now rid c p q in
      unresolved rid second later d (ground (arith, gone)) (ground (arith, same))

  -- A future that is done, also one that its client has cancelled, is never settled again.
  pub resolve-done :
      (rid : ℕ) (event : Event) (now r : ℕ) (c : Coordinator) (f : Future)
      → lookup r c.futures ≡ some f
      → is_done f ≡ true
      → lookup r (resolve encode rid event now c).futures ≡ some f
  unfolding resolve cleanup_session settle
  resolve-done rid event now r c f e d = ground (
    arith,
    lookup-update rid r (settle event now) c.futures,
    lookup-update rid r (settle_rpc event) c.futures,
    lookup-update rid r (λ g. if is_done g then g else update_future (text_of encode event) now g)
        c.futures,
  )

  module _ (index now : ℕ) where
    -- One round of the loop over the pending requests.
    round :
        (r k : ℕ) (it : Item) (c : Coordinator)
        → lookup k c.rpc ≡ none
        → let d = if it.index == index then resolve encode k error now c else c in
          (lookup r d.pending ≡ (
            if it.index == index
            then (if k == r then none else lookup r c.pending)
            else lookup r c.pending))
          × (d.rpc ≡ c.rpc)
    round r k it c h = elim (Bool-cases (it.index == index)) [
      | inl e ↦ rw e (resolve-pending k error now r c refl h)
      | inr e ↦ rw e (refl, refl)
    ]

    -- No pending request is also a remote call; both go by fresh identifiers.
    abbrev pub Disjoint : Dict Item → Dict ℕ → Type 0
    Disjoint [] rpc = Unit
    Disjoint ((k, it) ∷ items) rpc = (lookup k rpc ≡ none) × Disjoint items rpc

    stays :
        (r : ℕ) (items : Dict Item) (c : Coordinator)
        → Disjoint items c.rpc
        → lookup r c.pending ≡ none
        → lookup r (fail_pending encode index now items c).pending ≡ none
    unfolding fail_pending
    stays r [] c h e = e
    stays r ((k, it) ∷ rest) c h e =
        let (after, same) = round r k it c h.0 in
        stays r rest (if it.index == index then resolve encode k error now c else c) (rw same h.1)
          (ground (arith, after))

    gone :
        (r : ℕ) (items : Dict Item) (c : Coordinator) (it : Item)
        → Disjoint items c.rpc
        → lookup r items ≡ some it
        → it.index ≡ index
        → lookup r (fail_pending encode index now items c).pending ≡ none
    unfolding fail_pending
    gone r [] c it h e i = absurd (ground arith)
    gone r ((k, x) ∷ rest) c it h e i =
        let (after, same) = round r k x c h.0 in
        let d = if x.index == index then resolve encode k error now c else c in
        elim (Bool-cases (k == r)) [
          | inl here ↦ stays r rest d (rw same h.1) (ground (arith, after))
          | inr there ↦ gone r rest d it (rw same h.1) (ground arith) i
        ]

    abbrev Spares : ℕ → Dict Item → Type 0
    Spares r [] = Unit
    Spares r ((k, x) ∷ items) = ((k == r && x.index == index) ≡ false) × Spares r items

    Spares-absent : (r : ℕ) (d : Dict Item) → occurrences r (keys d) ≡ 0 → Spares r d
    Spares-absent r [] h = tt
    Spares-absent r ((k, x) ∷ d) h = (ground arith, Spares-absent r d (ground arith))

    Spares-lookup :
        (r : ℕ) (d : Dict Item) (it : Item)
        → Distinct (keys d)
        → lookup r d ≡ some it
        → it.index ≢ index
        → Spares r d
    Spares-lookup r [] it h e n = tt
    Spares-lookup r ((k, x) ∷ d) it h e n = elim (Bool-cases (k == r)) [
      | inl same ↦ (
        ground (arith, ==_iff x.index index),
        Spares-absent r d (ground (arith, h r, ==_iff k r)),
      )
      | inr other ↦ (ground arith, Spares-lookup r d it (λ y. ground (arith, h y)) (ground arith) n)
    ]

    kept :
        (r : ℕ) (items : Dict Item) (c : Coordinator) (it : Item)
        → Disjoint items c.rpc
        → Spares r items
        → lookup r c.pending ≡ some it
        → lookup r (fail_pending encode index now items c).pending ≡ some it
    unfolding fail_pending
    kept r [] c it h other e = e
    kept r ((k, x) ∷ rest) c it h other e =
        let (after, same) = round r k x c h.0 in
        kept r rest (if x.index == index then resolve encode k error now c else c) it (rw same h.1)
          other.1 (ground (arith, after, other.0))

    -- When a replica fails, its pending requests are settled and no other: after the loop over the
    -- pending requests exactly those that another replica serves are still pending.
    pub fail_pending-settles :
        (r : ℕ) (c : Coordinator) (it : Item)
        → IsBalanced c
        → Disjoint c.pending c.rpc
        → lookup r c.pending ≡ some it
        → lookup r (fail_pending encode index now c.pending c).pending
          ≡ (if it.index == index then none else some it)
    fail_pending-settles r c it v h e = elim (Bool-cases (it.index == index)) [
      | inl own ↦ rw own (gone r c.pending c it h e ((==_iff it.index index).0 own))
      | inr other ↦ rw other (
          kept r c.pending c it h
            (Spares-lookup r c.pending it v.distinct e (λ x. ground (arith, ==_iff it.index index)))
            e)
    ]
