-- ===== src/Core/Program/Removal.antt =====
-- The removal of roots in `ProgramSpec.__post_init__` of autellix/core/models.py.
use autellix.Prelude.{
  ℕ, ◌+◌, ◌-◌, ◌≤◌, ◌≡◌, refl, List, [], ◌∷◌, none, some, arith, ◌==◌, if◌then◌else◌, occurrences,
  count-append, Distinct,
}
use autellix.Prelude.Dict.{Dict, insert, lookup-insert}
use autellix.Core.State.{CallSpec}
use autellix.Core.Program.{ids, find, times, children, degree_of, release}

-- How often `x` is a parent of the call `id`.
abbrev pub edges : List CallSpec → ℕ → ℕ → ℕ
edges calls x id = elim (find id calls) [ none ↦ 0 | some c ↦ occurrences x c.parents ]

occurrences-times :
    (x child id : ℕ) (ps : List ℕ)
    → occurrences id (times x child ps) ≡ (if child == id then occurrences x ps else 0)
occurrences-times x child id [] = ground arith
occurrences-times x child id (p ∷ ps) = ground (arith, occurrences-times x child id ps)

not_found : (id : ℕ) (calls : List CallSpec) → occurrences id (ids calls) ≡ 0 → find id calls ≡ none
not_found id [] h = refl
not_found id (c ∷ cs) h = ground (arith, not_found id cs)

pub occurrences-children :
    (x id : ℕ) (calls : List CallSpec)
    → Distinct (ids calls)
    → occurrences id (children x calls) ≡ edges calls x id
occurrences-children x id [] one = omega arith
occurrences-children x id (c ∷ cs) one = ground (
  arith,
  one id,
  not_found id cs,
  count-append (λ y. y == id) (times x c.call_id c.parents) (children x cs),
  occurrences-times x c.call_id id c.parents,
  occurrences-children x id cs (λ y. ground (arith, one y)),
)

degree_of-insert :
    (k j n : ℕ) (d : Dict ℕ) → degree_of j (insert k n d) ≡ (if k == j then n else degree_of j d)
degree_of-insert k j n d = ground (arith, lookup-insert k j n d)

-- What the loop over the children does to the degrees and to the roots.
pub release_lem :
    (cs : List ℕ) (d : Dict ℕ) (ready : List ℕ) (id : ℕ)
    → ((j : ℕ) → occurrences j cs ≤ degree_of j d)
    → (degree_of id (release cs d ready).0 + occurrences id cs ≡ degree_of id d)
      × (occurrences id (release cs d ready).1
          ≡ occurrences id ready
            + (if occurrences id cs == 0
                then 0
                else if degree_of id (release cs d ready).0 == 0
                then 1
                else 0))
unfolding release
release_lem [] d ready id h = ground arith
release_lem (c ∷ cs) d ready id h =
    let n = degree_of c d - 1 in
    let rest =
      release_lem cs (insert c n d) (if n == 0 then c ∷ ready else ready) id
        (λ j. ground (arith, h j, degree_of-insert c j n d)) in
    ground (arith, rest.0, rest.1, degree_of-insert c id n d, h id)
