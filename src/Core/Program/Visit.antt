-- ===== src/Core/Program/Visit.antt =====
-- The loop of `ProgramSpec.__post_init__` of autellix/core/models.py that removes roots: the calls
-- that it visits, and those that it leaves.
use autellix.Prelude.{
  ℕ, zero, suc, ◌+◌, ◌≤◌, ◌≡◌, refl, inl, inr, Bool, true, false, not, List, [], ◌∷◌, ◌++◌, Option,
  none, some, arith, ◌==◌, ==_iff, if◌then◌else◌, occurrences, mem, length, count, all,
  Option-cases, mem-occurrences, Distinct, ◌∙◌, occurrences-append, length-append, length-map,
}
use autellix.Prelude.Dict.{Dict}
use autellix.Core.State.{CallSpec}
use autellix.Core.Program.{
  ids, find, children, degree_of, release, remove_roots, indegrees, roots, reverse_onto, visited,
}
use autellix.Core.Program.Bags.{length-le_of_occurrences}
use autellix.Core.Program.Removal.{edges, occurrences-children, release_lem}

-- The call is one of the program, and its parents are among `seen`.
abbrev pub met : List ℕ → Option CallSpec → Bool
met seen none = false
met seen (some c) = all (λ p. mem p seen) c.parents

-- The call `id` can run once those of `seen` have run.
abbrev pub may_run : List CallSpec → List ℕ → ℕ → Bool
may_run calls seen id = met seen (find id calls)

-- The calls can run in this order once those of `seen` have run.
abbrev pub InOrder : List CallSpec → List ℕ → List ℕ → Type 0
InOrder calls seen [] = Unit
InOrder calls seen (id ∷ order) = (may_run calls seen id ≡ true) × InOrder calls (id ∷ seen) order

-- There is an order in which all calls can run.
abbrev pub HasOrder : List CallSpec → Type 0
HasOrder calls =
    (order : List ℕ) × InOrder calls [] order
    × ((id : ℕ) → occurrences id (ids calls) ≤ occurrences id order)

-- How many parents of the call are not among `seen`.
abbrev unmet : List ℕ → Option CallSpec → ℕ
unmet seen none = 0
unmet seen (some c) = count (λ p. not (mem p seen)) c.parents

abbrev parents_like : ℕ → Option CallSpec → ℕ
parents_like x none = 0
parents_like x (some c) = occurrences x c.parents

record Inv (calls : List CallSpec) (seen : List ℕ) (degrees : Dict ℕ) (ready : List ℕ)
    : Type 0 where
  deg : (id : ℕ) → degree_of id degrees ≡ unmet seen (find id calls)
  once :
      (id : ℕ)
      → occurrences id seen + occurrences id ready ≡ (if may_run calls seen id then 1 else 0)

count-all : (seen ps : List ℕ) → all (λ p. mem p seen) ps ≡ (count (λ p. not (mem p seen)) ps == 0)
count-all seen [] = ground arith
count-all seen (p ∷ ps) = ground (arith, count-all seen ps)

count-seen :
    (x : ℕ) (seen ps : List ℕ)
    → mem x seen ≡ false
    → count (λ p. not (mem p seen)) ps ≡ count (λ p. not (mem p (x ∷ seen))) ps + occurrences x ps
count-seen x seen [] h = omega arith
count-seen x seen (p ∷ ps) h = ground (arith, count-seen x seen ps, ==_iff x p, ==_iff p x)

unmet-seen :
    (x : ℕ) (seen : List ℕ) (o : Option CallSpec)
    → mem x seen ≡ false
    → unmet seen o ≡ unmet (x ∷ seen) o + parents_like x o
unmet-seen x seen none h = omega arith
unmet-seen x seen (some c) h = count-seen x seen c.parents h

met-seen :
    (x : ℕ) (seen : List ℕ) (o : Option CallSpec)
    → mem x seen ≡ false
    → (if met (x ∷ seen) o then 1 else 0)
      ≡ (if met seen o then 1 else 0)
        + (if parents_like x o == 0 then 0 else if unmet (x ∷ seen) o == 0 then 1 else 0)
met-seen x seen none h = ground arith
met-seen x seen (some c) h =
    ground (
      arith,
      count-seen x seen c.parents h,
      count-all seen c.parents,
      count-all (x ∷ seen) c.parents,
    )

edges-parents_like :
    (calls : List CallSpec) (x id : ℕ) → edges calls x id ≡ parents_like x (find id calls)
edges-parents_like calls x id = elim (Option-cases (find id calls)) [
  | inl e ↦ rw (e, edges) refl
  | inr (c, e) ↦ rw (e, edges) refl
]

pub met-le :
    (seen : List ℕ) (id : ℕ) (calls : List CallSpec)
    → (if may_run calls seen id then 1 else 0) ≤ occurrences id (ids calls)
met-le seen id [] = ground arith
met-le seen id (c ∷ cs) = ground (arith, met-le seen id cs)

Inv-step :
    (x : ℕ) (calls : List CallSpec) (seen : List ℕ) (degrees : Dict ℕ) (ready : List ℕ)
    → Distinct (ids calls)
    → Inv calls seen degrees (x ∷ ready)
    → Inv calls
        (x ∷ seen)
        (release (children x calls) degrees ready).0
        (release (children x calls) degrees ready).1
Inv-step x calls seen degrees ready one h =
    let new : mem x seen ≡ false = ground (arith, h.once x, mem-occurrences x seen) in
    let removed : (id : ℕ) → occurrences id (children x calls) ≡ parents_like x (find id calls) =
      λ id. occurrences-children x id calls one ∙ edges-parents_like calls x id in
    let enough : (j : ℕ) → occurrences j (children x calls) ≤ degree_of j degrees =
      λ j. omega (arith, h.deg j, removed j, unmet-seen x seen (find j calls) new) in
    let deg : (id : ℕ)
        → degree_of id (release (children x calls) degrees ready).0
          ≡ unmet (x ∷ seen) (find id calls) =
      λ id. omega (
        arith,
        (release_lem (children x calls) degrees ready id enough).0,
        h.deg id,
        removed id,
        unmet-seen x seen (find id calls) new,
      ) in
    record {
      deg = deg;
      once = λ id.
          let out = (release_lem (children x calls) degrees ready id enough).1 in
          let was = h.once id in
          let now = met-seen x seen (find id calls) new in
          (let g = rw (removed id, deg id) at out in ground (arith, g, was, now));
    }

-- The calls removed from a state of the loop, in order, leave no call that may run.
pub record Removed (calls : List CallSpec) (seen order : List ℕ) : Type 0 where
  pub in_order : InOrder calls seen order
  pub closed :
      (id : ℕ)
      → occurrences id (reverse_onto order seen)
        ≡ (if may_run calls (reverse_onto order seen) id then 1 else 0)

Inv-lengths :
    (calls : List CallSpec) (seen : List ℕ) (degrees : Dict ℕ) (ready : List ℕ)
    → Inv calls seen degrees ready
    → length seen + length ready ≤ length calls
Inv-lengths calls seen degrees ready h =
    let shorter =
      length-le_of_occurrences (seen ++ ready) (ids calls)
        (λ y. omega (arith, h.once y, met-le seen y calls, occurrences-append y seen ready)) in
    omega (arith, shorter, length-append seen ready, length-map (λ (c : CallSpec). c.call_id) calls)

remove_roots_lem :
    (n : ℕ) (calls : List CallSpec) (seen : List ℕ) (degrees : Dict ℕ) (ready : List ℕ)
    → Distinct (ids calls)
    → Inv calls seen degrees ready
    → length calls ≤ n + length seen
    → Removed calls seen (remove_roots n calls degrees ready)
unfolding remove_roots
remove_roots_lem zero calls seen degrees [] one h fuel = record {
  in_order = tt;
  closed = λ id. omega (arith, h.once id);
}
remove_roots_lem zero calls seen degrees (x ∷ ready) one h fuel =
    absurd (omega (arith, fuel, Inv-lengths calls seen degrees (x ∷ ready) h))
remove_roots_lem (suc n) calls seen degrees [] one h fuel = record {
  in_order = tt;
  closed = λ id. omega (arith, h.once id);
}
remove_roots_lem (suc n) calls seen degrees (x ∷ ready) one h fuel =
    let p = release (children x calls) degrees ready in
    let rest =
      remove_roots_lem n calls (x ∷ seen) p.0 p.1 one (Inv-step x calls seen degrees ready one h)
        (omega arith) in
    record { in_order = (ground (arith, h.once x), rest.in_order); closed = rest.closed }

-- The start of the loop.
count_none : (ps : List ℕ) → count (λ p. not (mem p [])) ps ≡ length ps
count_none [] = refl
count_none (p ∷ ps) = omega (arith, count_none ps)

degree_of-indegrees :
    (calls : List CallSpec) (id : ℕ) → degree_of id (indegrees calls) ≡ unmet [] (find id calls)
degree_of-indegrees [] id = refl
degree_of-indegrees (c ∷ cs) id = ground (arith, degree_of-indegrees cs id, count_none c.parents)

occurrences-roots :
    (calls : List CallSpec) (id : ℕ)
    → Distinct (ids calls)
    → occurrences id (roots (indegrees calls)) ≡ (if may_run calls [] id then 1 else 0)
occurrences-roots [] id one = omega arith
occurrences-roots (c ∷ cs) id one = ground (
  arith,
  occurrences-roots cs id (λ y. ground (arith, one y)),
  count-all [] c.parents,
  count_none c.parents,
  one id,
  met-le [] id cs,
)

pub occurrences-reverse_onto :
    (x : ℕ) (xs ys : List ℕ)
    → occurrences x (reverse_onto xs ys) ≡ occurrences x xs + occurrences x ys
occurrences-reverse_onto x [] ys = omega arith
occurrences-reverse_onto x (z ∷ xs) ys = ground (arith, occurrences-reverse_onto x xs (z ∷ ys))

pub visited-Removed :
    (calls : List CallSpec) → Distinct (ids calls) → Removed calls [] (visited calls)
unfolding visited
visited-Removed calls one =
    let start = reverse_onto (roots (indegrees calls)) [] in
    remove_roots_lem (length calls) calls [] (indegrees calls) start one
      (record {
        deg = degree_of-indegrees calls;
        once = λ id. omega (
          arith,
          occurrences-roots calls id one,
          occurrences-reverse_onto id (roots (indegrees calls)) [],
        );
      })
      (omega arith)
