-- ===== src/Core/Metrics/Sequential.antt =====
-- `is_sequential_program` of autellix/core/simulator.py against the graph of the calls.
use autellix.Prelude.{
  ℕ, suc, ◌+◌, ◌≤◌, ◌<◌, ◌≡◌, ◌↔◌, inl, inr, true, List, [], ◌∷◌, ◌++◌, none, some, length, ltb,
  ◌==◌, ==_iff, if◌then◌else◌, All, occurrences, count, arith, Bool-cases, Option-cases,
  occurrences-append, some_injective,
}
use autellix.Prelude.Dict.{Dict, insert, lookup-insert}
use autellix.Core.State.{CallSpec}
use autellix.Core.Metrics.{
  child_count, add_children, is_root, sequential_loop, is_sequential_program,
}

-- The parents of all calls.
abbrev pub all_parents : List CallSpec → List ℕ
all_parents [] = []
all_parents (c ∷ cs) = c.parents ++ all_parents cs

-- A chain: one call has no parent, the others have one, and no two have the same.
abbrev pub IsChain : List CallSpec → Type 0
IsChain calls =
    (count is_root calls ≡ 1)
    × All (λ c. length c.parents ≤ 1) calls
    × ((id : ℕ) → occurrences id (all_parents calls) ≤ 1)

child_count-insert :
    (k j n : ℕ) (d : Dict ℕ)
    → child_count j (insert k n d) ≡ (if k == j then n else child_count j d)
child_count-insert k j n d = ground (arith, lookup-insert k j n d)

add_children-some :
    (ps : List ℕ) (d next : Dict ℕ)
    → add_children ps d ≡ some next
    → (id : ℕ) → child_count id next ≡ child_count id d + occurrences id ps
unfolding add_children
add_children-some [] d next h id = ground (arith, some_injective h)
add_children-some (p ∷ ps) d next h id =
    let n = suc (child_count p d) in
    elim (Bool-cases (ltb 1 n)) [
      | inl e ↦ absurd (let g = rw e at h in cc)
      | inr e ↦
          let rest = add_children-some ps (insert p n d) next (rw e at h) id in
          ground (arith, rest, child_count-insert p id n d, ==_iff p id)
    ]

add_children-none :
    (ps : List ℕ) (d : Dict ℕ)
    → add_children ps d ≡ none
    → (id : ℕ) × (1 < child_count id d + occurrences id ps)
unfolding add_children
add_children-none [] d h = absurd (ground arith)
add_children-none (p ∷ ps) d h =
    let n = suc (child_count p d) in
    elim (Bool-cases (ltb 1 n)) [
      | inl e ↦ (p, ground (arith, ==_iff p p))
      | inr e ↦
          let (id, rest) = add_children-none ps (insert p n d) (rw e at h) in
          (id, ground (arith, rest, child_count-insert p id n d, ==_iff p id))
    ]

add_children-bounded :
    (ps : List ℕ) (d next : Dict ℕ)
    → ((id : ℕ) → child_count id d ≤ 1)
    → add_children ps d ≡ some next
    → (id : ℕ) → child_count id next ≤ 1
unfolding add_children
add_children-bounded [] d next b h id = ground (arith, some_injective h, b id)
add_children-bounded (p ∷ ps) d next b h id =
    let n = suc (child_count p d) in
    elim (Bool-cases (ltb 1 n)) [
      | inl e ↦ absurd (let g = rw e at h in cc)
      | inr e ↦
          add_children-bounded ps (insert p n d) next
            (λ j. ground (arith, b j, child_count-insert p j n d)) (rw e at h) id
    ]

sequential_loop_iff :
    (calls : List CallSpec) (d : Dict ℕ) (roots : ℕ)
    → ((id : ℕ) → child_count id d ≤ 1)
    → (sequential_loop calls d roots ≡ true) ↔ (
        (roots + count is_root calls ≡ 1)
        × All (λ c. length c.parents ≤ 1) calls
        × ((id : ℕ) → child_count id d + occurrences id (all_parents calls) ≤ 1))
unfolding sequential_loop
sequential_loop_iff [] d roots b =
    (λ h. (ground arith, tt, λ id. omega (arith, b id)), λ h. ground (arith, h.0))
sequential_loop_iff (c ∷ cs) d roots b = elim (Bool-cases (ltb 1 (length c.parents))) [
  | inl e ↦ (λ h. absurd (let g = rw (e, sequential_loop) at h in cc), λ h. absurd (ground arith))
  | inr e ↦ elim (Option-cases (add_children c.parents d)) [
    | inl f ↦
        let (id, twice) = add_children-none c.parents d f in
        (
          λ h. absurd (let g = rw (e, f, sequential_loop) at h in cc),
          λ h. absurd (omega (arith, h.2 id, occurrences-append id c.parents (all_parents cs))),
        )
    | inr (next, f) ↦
        let more : ℕ = if is_root c then suc roots else roots in
        let rest = sequential_loop_iff cs next more (add_children-bounded c.parents d next b f) in
        let grown : (id : ℕ) → child_count id next ≡ child_count id d + occurrences id c.parents =
          add_children-some c.parents d next f in
        (
          λ h.
              let (one, short, few) = rest.0 (rw (e, f, sequential_loop) at h) in
              (
                ground arith,
                (ground arith, short),
                λ id.
                    omega
                      (arith, few id, grown id, occurrences-append id c.parents (all_parents cs)),
              ),
          λ h.
              let inner = rest.1 (
                ground (arith, h.0),
                h.1.1,
                λ id.
                    omega
                      (arith, h.2 id, grown id, occurrences-append id c.parents (all_parents cs)),
              ) in
              rw (e, f, sequential_loop) inner,
        )
  ]
]

-- A program is sequential if and only if its calls are a chain.
pub is_sequential_program_iff :
    (calls : List CallSpec) → (is_sequential_program calls ≡ true) ↔ IsChain calls
unfolding is_sequential_program
is_sequential_program_iff calls =
    let loop = sequential_loop_iff calls [] 0 (λ id. omega arith) in
    (
      λ h. let (one, short, few) = loop.0 h in (omega arith, short, λ id. omega (arith, few id)),
      λ h. loop.1 (omega (arith, h.0), h.1, λ id. omega (arith, h.2 id)),
    )
