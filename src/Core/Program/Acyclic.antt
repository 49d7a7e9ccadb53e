-- ===== src/Core/Program/Acyclic.antt =====
-- The checks of `ProgramSpec.__post_init__` of autellix/core/models.py: the programs that they accept.
use autellix.Prelude.{
  ℕ, ◌≤◌, ◌≡◌, refl, inl, inr, true, false, not, List, [], ◌∷◌, Option, none, some, ok, arith, ◌==◌,
  ==_iff, if◌then◌else◌, occurrences, mem, length, all, All, Bool-cases, mem-occurrences, Distinct,
  ◌↔◌, length-map, require, require_iff, passed, ◌>>◌, >>=-eq-ok, ok_injective, sym,
}
use autellix.Prelude.Int.{ℤ, pos_part}
use autellix.Prelude.Sets.{to_set, length-to_set_iff}
use autellix.Core.State.{CallSpec, is_negative}
use autellix.Core.Program.{
  ids, find, visited, reverse_onto, ProgramSpec, new_program, check_calls, is_empty, foreign_call,
  missing_parents, cycle, duplicate_ids, no_calls, bad_arrival,
}
use autellix.Core.Program.Bags.{length-le_of_occurrences, occurrences_of_length}
use autellix.Core.Program.Visit.{
  met, may_run, InOrder, HasOrder, visited-Removed, met-le, occurrences-reverse_onto,
}

-- A call that may run once `seen` have run may run once more have.
pub may_run_mono :
    (seen more : List ℕ) (o : Option CallSpec)
    → ((x : ℕ) → mem x seen ≡ true → mem x more ≡ true)
    → met seen o ≡ true
    → met more o ≡ true
may_run_mono seen more none h m = absurd (ground arith)
may_run_mono seen more (some c) h m = all_mono c.parents m
  where
    all_mono : (ps : List ℕ) → all (λ p. mem p seen) ps ≡ true → all (λ p. mem p more) ps ≡ true
    all_mono [] m = refl
    all_mono (p ∷ ps) m = ground (arith, all_mono ps, h p)

-- Each call of an order is among those that the check removes.
InOrder-removed :
    (calls : List CallSpec) (seen order removed : List ℕ) (id : ℕ)
    → ((y : ℕ) → occurrences y removed ≡ (if may_run calls removed y then 1 else 0))
    → ((x : ℕ) → mem x seen ≡ true → mem x removed ≡ true)
    → InOrder calls seen order
    → mem id order ≡ true
    → mem id removed ≡ true
InOrder-removed calls seen [] removed id closed within h m = absurd (ground arith)
InOrder-removed calls seen (x ∷ order) removed id closed within h m =
    let ready = may_run_mono seen removed (find x calls) within h.0 in
    let here : mem x removed ≡ true = ground (arith, closed x, mem-occurrences x removed) in
    let inside : (y : ℕ) → mem y (x ∷ seen) ≡ true → mem y removed ≡ true =
      λ y e. ground (arith, within y, ==_iff x y) in
    elim (Bool-cases (x == id)) [
      | inl e ↦ ground (arith, ==_iff x id)
      | inr e ↦ InOrder-removed calls (x ∷ seen) order removed id closed inside h.1 (ground arith)
    ]

visited-unrolled :
    (calls : List CallSpec) (y : ℕ)
    → occurrences y (reverse_onto (visited calls) []) ≡ occurrences y (visited calls)
visited-unrolled calls y = omega (arith, occurrences-reverse_onto y (visited calls) [])

visited-within :
    (calls : List CallSpec) (y : ℕ)
    → Distinct (ids calls)
    → occurrences y (visited calls) ≤ occurrences y (ids calls)
visited-within calls y one = omega (
  arith,
  visited-unrolled calls y,
  (visited-Removed calls one).closed y,
  met-le (reverse_onto (visited calls) []) y calls,
)

-- As many visits as calls: every call is visited.
pub visited-all :
    (calls : List CallSpec) (id : ℕ)
    → Distinct (ids calls)
    → length (visited calls) ≡ length calls
    → occurrences id (ids calls) ≤ occurrences id (visited calls)
visited-all calls id one full =
    let known = length-map (λ (c : CallSpec). c.call_id) calls in
    omega (
      arith,
      occurrences_of_length (visited calls) (ids calls) id (λ y. visited-within calls y one)
          (omega arith),
    )

-- The check visits every call if and only if the calls have an order.
pub visited_iff :
    (calls : List CallSpec)
    → Distinct (ids calls)
    → (length (visited calls) ≡ length calls) ↔ HasOrder calls
visited_iff calls one =
    let r = visited-Removed calls one in
    let known = length-map (λ (c : CallSpec). c.call_id) calls in
    (
      λ full. (visited calls, r.in_order, λ id. visited-all calls id one full),
      λ has.
          let (order, in_order, every) = has in
          let shorter =
            length-le_of_occurrences (visited calls) (ids calls)
              (λ y. visited-within calls y one) in
          let longer = length-le_of_occurrences (ids calls) (visited calls) (λ y.
            let found =
              InOrder-removed calls [] order (reverse_onto (visited calls) []) y r.closed
                (λ x e. absurd (ground arith)) in_order in
            ground (
              arith,
              found,
              one y,
              every y,
              visited-unrolled calls y,
              mem-occurrences y order,
              mem-occurrences y (reverse_onto (visited calls) []),
            )) in
          omega arith,
    )

-- The call belongs to the program, and its parents are among `known`.
abbrev pub IsMember : ℕ → List ℕ → CallSpec → Type 0
IsMember pid known c = (c.program_id ≡ pid) × (all (λ p. mem p known) c.parents ≡ true)

check_calls_iff :
    (pid : ℕ) (known : List ℕ) (calls : List CallSpec)
    → (check_calls pid known calls ≡ ok tt) ↔ All (IsMember pid known) calls
unfolding check_calls
check_calls_iff pid known [] = (λ h. tt, λ h. refl)
check_calls_iff pid known (c ∷ cs) =
    let inner = check_calls pid known cs in
    let parents = require_iff (all (λ p. mem p known) c.parents) missing_parents inner {t = tt} in
    let own =
      require_iff (c.program_id == pid) foreign_call
        (require (all (λ p. mem p known) c.parents) missing_parents >> inner) {t = tt} in
    let rest = check_calls_iff pid known cs in
    let same = ==_iff c.program_id pid in
    (
      λ h. let (e, h1) = own.0 h in let (ps, h2) = parents.0 h1 in ((same.0 e, ps), rest.0 h2),
      λ h. own.1 (same.1 h.0.0, parents.1 (h.0.1, rest.1 h.1)),
    )

-- The calls are a program's own, each stands once, their parents are among them, and there is an
-- order in which they can run.
abbrev pub IsGraph : ℕ → List CallSpec → Type 0
IsGraph pid calls = Distinct (ids calls) × All (IsMember pid (ids calls)) calls × HasOrder calls

-- A program may be made of these calls.
abbrev pub IsProgram : ℕ → List CallSpec → ℤ → Type 0
IsProgram pid calls arrival =
    (is_negative arrival ≡ false) × (is_empty calls ≡ false) × IsGraph pid calls

-- `ProgramSpec` accepts exactly the programs whose arrival is not negative, that have a call, whose
-- calls are their own and have different identifiers, whose parents are calls of the program, and
-- whose calls can run in some order, each after its parents; it then keeps what it was given.
pub new_program_iff :
    (pid : ℕ) (calls : List CallSpec) (arrival : ℤ)
    → (new_program pid calls arrival
        ≡ ok (record { program_id = pid; calls = calls; arrival_time = pos_part arrival }))
      ↔ IsProgram pid calls arrival
unfolding new_program
new_program_iff pid calls arrival =
    let full = length (visited calls) == length calls in
    let made : ProgramSpec = record {
      program_id = pid;
      calls = calls;
      arrival_time = pos_part arrival;
    } in
    let end = require full cycle >> ok made in
    let third = check_calls pid (ids calls) calls >> end in
    let different = length (to_set (ids calls)) == length calls in
    let second = require different duplicate_ids >> third in
    let first = require (not (is_empty calls)) no_calls >> second in
    let r1 = require_iff (not (is_negative arrival)) bad_arrival first {t = made} in
    let r2 = require_iff (not (is_empty calls)) no_calls second {t = made} in
    let r3 = require_iff different duplicate_ids third {t = made} in
    let r4 = require_iff full cycle (ok made) {t = made} in
    let known = length-map (λ (c : CallSpec). c.call_id) calls in
    let distinct = length-to_set_iff (ids calls) in
    let members = check_calls_iff pid (ids calls) calls in
    (
      λ h.
          let (sign, h1) = r1.0 h in
          let (some_call, h2) = r2.0 h1 in
          let (unlike, h3) = r3.0 h2 in
          let (u, checks, h4) = >>=-eq-ok (check_calls pid (ids calls) calls) _ h3 in
          let one = distinct.0 (ground arith) in
          (
            ground arith,
            ground arith,
            (one, members.0 checks, (visited_iff calls one).0 (ground (arith, (r4.0 h4).0))),
          ),
      λ h.
          let (sign, some_call, (one, own, order)) = h in
          let unlike : different ≡ true = ground (arith, distinct.1 one) in
          let visits : full ≡ true = ground (arith, (visited_iff calls one).1 order) in
          let checked : third ≡ ok made = rw (members.1 own) (r4.1 (visits, refl)) in
          r1.1 (ground arith, r2.1 (ground arith, r3.1 (unlike, checked))),
    )

-- A program is what it was made of.
pub new_program-keeps :
    (pid : ℕ) (calls : List CallSpec) (arrival : ℤ) (p : ProgramSpec)
    → new_program pid calls arrival ≡ ok p
    → p ≡ record { program_id = pid; calls = calls; arrival_time = pos_part arrival }
unfolding new_program
new_program-keeps pid calls arrival p h =
    let h1 = (passed (not (is_negative arrival)) bad_arrival h).1 in
    let h2 = (passed (not (is_empty calls)) no_calls h1).1 in
    let h3 = (passed (length (to_set (ids calls)) == length calls) duplicate_ids h2).1 in
    let (_, _, h4) = >>=-eq-ok (check_calls pid (ids calls) calls) _ h3 in
    let h5 = (passed (length (visited calls) == length calls) cycle h4).1 in sym (ok_injective h5)
