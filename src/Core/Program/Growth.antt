-- ===== src/Core/Program/Growth.antt =====
-- A program of autellix/core/models.py stays one when a call is added after its parents.
use autellix.Prelude.{
  ℕ, ◌+◌, ◌≤◌, ◌<◌, ◌≡◌, refl, inl, inr, true, List, [], ◌∷◌, ◌++◌, some, ◌==◌, ==_iff,
  if◌then◌else◌, all, mem, occurrences, arith, Option-cases, All-append, All-map, mem-occurrences,
  occurrences-append,
}
use autellix.Core.State.{CallSpec}
use autellix.Core.Program.{ids, find}
use autellix.Core.Program.Visit.{met, may_run, InOrder}
use autellix.Core.Program.Acyclic.{IsMember, IsGraph, may_run_mono}

pub ids-append :
    (calls : List CallSpec) (c : CallSpec) (x : ℕ)
    → occurrences x (ids (calls ++ (c ∷ [])))
      ≡ occurrences x (ids calls) + (if c.call_id == x then 1 else 0)
ids-append [] c x = ground arith
ids-append (d ∷ calls) c x = ground (arith, ids-append calls c x)

find-append :
    (calls : List CallSpec) (c d : CallSpec) (x : ℕ)
    → find x calls ≡ some d
    → find x (calls ++ (c ∷ [])) ≡ some d
find-append [] c d x h = absurd (ground arith)
find-append (e ∷ calls) c d x h = ground (arith, find-append calls c d x)

find-new :
    (calls : List CallSpec) (c : CallSpec)
    → occurrences c.call_id (ids calls) ≡ 0
    → find c.call_id (calls ++ (c ∷ [])) ≡ some c
find-new [] c h = ground (arith, ==_iff c.call_id c.call_id)
find-new (e ∷ calls) c h = ground (arith, find-new calls c)

may_run-append :
    (calls : List CallSpec) (c : CallSpec) (seen : List ℕ) (x : ℕ)
    → may_run calls seen x ≡ true
    → may_run (calls ++ (c ∷ [])) seen x ≡ true
may_run-append calls c seen x h = elim (Option-cases (find x calls)) [
  | inl e ↦ absurd (let g = rw (e, met) at h in cc)
  | inr (d, e) ↦ rw (find-append calls c d x e, met) (rw (e, met) at h)
]

-- The new call may stand at the end of an order of the others.
InOrder-append :
    (calls : List CallSpec) (c : CallSpec) (seen order : List ℕ)
    → InOrder calls seen order
    → occurrences c.call_id (ids calls) ≡ 0
    → all (λ p. mem p (ids calls)) c.parents ≡ true
    → ((x : ℕ) → mem x (ids calls) ≡ true → (0 < occurrences x seen + occurrences x order))
    → InOrder (calls ++ (c ∷ [])) seen (order ++ (c.call_id ∷ []))
InOrder-append calls c seen [] o new known every =
    let more =
      may_run_mono (ids calls) seen (some c)
        (λ x m. ground (arith, every x m, mem-occurrences x seen)) known in
    (rw (find-new calls c new) more, tt)
InOrder-append calls c seen (x ∷ order) o new known every = (
  may_run-append calls c seen x o.0,
  InOrder-append calls c (x ∷ seen) order o.1 new known (λ y m. ground (arith, every y m)),
)

all_mono :
    (xs ys ps : List ℕ)
    → ((x : ℕ) → occurrences x xs ≤ occurrences x ys)
    → all (λ p. mem p xs) ps ≡ true
    → all (λ p. mem p ys) ps ≡ true
all_mono xs ys [] h m = refl
all_mono xs ys (p ∷ ps) h m =
    ground (arith, all_mono xs ys ps h, h p, mem-occurrences p xs, mem-occurrences p ys)

-- A new call whose parents are there keeps the calls a program's.
pub extended-IsGraph :
    (pid : ℕ) (calls : List CallSpec) (c : CallSpec)
    → IsGraph pid calls
    → c.program_id ≡ pid
    → occurrences c.call_id (ids calls) ≡ 0
    → all (λ p. mem p (ids calls)) c.parents ≡ true
    → IsGraph pid (calls ++ (c ∷ []))
extended-IsGraph pid calls c (one, own, (order, in_order, every)) same new known =
    let all_ids = ids (calls ++ (c ∷ [])) in
    let grown : (x : ℕ) → occurrences x (ids calls) ≤ occurrences x all_ids =
      λ x. ground (arith, ids-append calls c x) in
    (
      λ x. ground (arith, one x, ids-append calls c x, ==_iff c.call_id x),
      All-append (IsMember pid all_ids) calls (c ∷ [])
          (All-map calls (λ d h. (h.0, all_mono (ids calls) all_ids d.parents grown h.1)) own)
          ((same, all_mono (ids calls) all_ids c.parents grown known), tt),
      (
        order ++ (c.call_id ∷ []),
        InOrder-append calls c [] order in_order new known
            (λ x m. ground (arith, every x, mem-occurrences x (ids calls))),
        λ x.
            ground
              (arith, every x, ids-append calls c x, occurrences-append x order (c.call_id ∷ [])),
      ),
    )
