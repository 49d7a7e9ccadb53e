-- ===== src/Core/Program.antt =====
-- `ProgramSpec` of autellix/core/models.py: a program is a graph of calls, which is checked to have
-- no cycle by removing calls whose parents are all removed.
pub mod Bags
pub mod Removal
pub mod Visit
pub mod Acyclic
pub mod Growth
use autellix.Prelude.{
  ℕ, zero, suc, ◌+◌, ◌-◌, Bool, true, false, not, List, [], ◌∷◌, ◌++◌, Option, none, some, Result,
  ok, err, ◌>>=◌, ◌>>◌, require, length, map, filter, all, mem, ◌==◌, if◌then◌else◌,
}
use autellix.Prelude.Dict.{Dict, lookup, insert, update}
use autellix.Prelude.Int.{ℤ, pos_part}
use autellix.Prelude.Sets.{to_set}
use autellix.Core.State.{CallSpec, is_negative}

pub record ProgramSpec : Type 0 where
  pub program_id : ℕ
  pub calls : List CallSpec
  pub arrival_time : ℕ

pub data ProgramError : Type 0 where
  bad_arrival no_calls duplicate_ids foreign_call missing_parents cycle : ProgramError

abbrev pub ids : List CallSpec → List ℕ
ids calls = map (λ c. c.call_id) calls

-- The loop over the calls: each belongs to the program and has its parents in it.
unfoldable pub check_calls : ℕ → List ℕ → List CallSpec → Result ProgramError (Unit {0})
check_calls pid known [] = ok tt
check_calls pid known (c ∷ cs) = do
  require (c.program_id == pid) foreign_call
  require (all (λ p. mem p known) c.parents) missing_parents
  check_calls pid known cs

-- `indegree`: how many parents of each call are still there.
abbrev pub indegrees : List CallSpec → Dict ℕ
indegrees calls = map (λ c. (c.call_id, length c.parents)) calls

-- `children[id]`: a call stands there once for each time that it names the parent.
abbrev pub times : ℕ → ℕ → List ℕ → List ℕ
times id child [] = []
times id child (p ∷ ps) = if p == id then child ∷ times id child ps else times id child ps

abbrev pub children : ℕ → List CallSpec → List ℕ
children id [] = []
children id (c ∷ cs) = times id c.call_id c.parents ++ children id cs

abbrev pub find : ℕ → List CallSpec → Option CallSpec
find id [] = none
find id (c ∷ cs) = if c.call_id == id then some c else find id cs

-- The roots.
abbrev pub roots : Dict ℕ → List ℕ
roots [] = []
roots ((id, degree) ∷ rest) = if degree == 0 then id ∷ roots rest else roots rest

abbrev pub degree_of : ℕ → Dict ℕ → ℕ
degree_of id degrees = elim (lookup id degrees) [ none ↦ 0 | some n ↦ n ]

-- The loop over the children of a removed call. The new roots go to the end of `ready`, here its
-- head, since `ready.pop()` takes the last one. A child is there once for each parent that is left,
-- so no degree falls below 0.
unfoldable pub release : List ℕ → Dict ℕ → List ℕ → Dict ℕ × List ℕ
release [] degrees ready = (degrees, ready)
release (c ∷ cs) degrees ready =
    let n = degree_of c degrees - 1 in
    release cs (insert c n degrees) (if n == 0 then c ∷ ready else ready)

-- The loop that removes roots, on fuel; it returns the calls in the order of their removal.
unfoldable pub remove_roots : ℕ → List CallSpec → Dict ℕ → List ℕ → List ℕ
unfolding release
remove_roots zero calls degrees ready = []
remove_roots (suc n) calls degrees ready = elim ready [
  | [] ↦ []
  | id ∷ rest ↦
      let p = release (children id calls) degrees rest in id ∷ remove_roots n calls p.0 p.1
]

abbrev pub reverse_onto : List ℕ → List ℕ → List ℕ
reverse_onto [] ys = ys
reverse_onto (x ∷ xs) ys = reverse_onto xs (x ∷ ys)

-- The calls in the order in which the check visits them. Each is visited at most once, so there is
-- fuel for all of them.
unfoldable pub visited : List CallSpec → List ℕ
unfolding remove_roots
visited calls =
    remove_roots (length calls) calls (indegrees calls) (reverse_onto (roots (indegrees calls)) [])

abbrev pub is_empty : List CallSpec → Bool
is_empty [] = true
is_empty (c ∷ cs) = false

-- `ProgramSpec(program_id, calls, arrival_time)`.
unfoldable pub new_program : ℕ → List CallSpec → ℤ → Result ProgramError ProgramSpec
unfolding check_calls visited
new_program pid calls arrival = do
  require (not (is_negative arrival)) bad_arrival
  require (not (is_empty calls)) no_calls
  require (length (to_set (ids calls)) == length calls) duplicate_ids
  check_calls pid (ids calls) calls
  require (length (visited calls) == length calls) cycle
  ok (record { program_id = pid; calls = calls; arrival_time = pos_part arrival })
