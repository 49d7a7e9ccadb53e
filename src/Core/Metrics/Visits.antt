-- ===== src/Core/Metrics/Visits.antt =====
-- The recursion of `Simulator._critical_path_response_time` in autellix/core/simulator.py ends.
use autellix.Prelude.{
  ℕ, zero, suc, ◌+◌, max, ◌≡◌, refl, inl, inr, true, List, [], ◌∷◌, some, Result, ok, or_fail,
  length, ◌==◌, ==_iff, all, mem, arith, Bool-cases, Option-cases, Distinct, >>=-eq-ok,
  mem-occurrences, subst, ◌⊎◌,
}
use autellix.Prelude.Dict.{Dict, lookup}
use autellix.Core.State.{CallSpec, CallState}
use autellix.Core.Program.{ids, find, visited}
use autellix.Core.Program.Visit.{met, may_run, met-le, InOrder, HasOrder, visited-Removed}
use autellix.Core.Program.Acyclic.{visited_iff, visited-all}
use autellix.Core.Metrics.{MetricsError, no_call, largest, visit, local_response}

-- A value is found.
abbrev pub IsFound : Result MetricsError ℕ → Type 0
IsFound r = (n : ℕ) × (r ≡ ok n)

largest_mono :
    (f g : ℕ → Result MetricsError ℕ) (xs : List ℕ) (n : ℕ)
    → ((x m : ℕ) → f x ≡ ok m → g x ≡ ok m)
    → largest f xs ≡ ok n
    → largest g xs ≡ ok n
largest_mono f g [] n h e = e
largest_mono f g (x ∷ xs) n h e =
    let (a, first, e1) = >>=-eq-ok (f x) _ e in
    let (b, rest, e2) = >>=-eq-ok (largest f xs) _ e1 in
    rw (h x a first, largest_mono f g xs b h rest) e2

largest-IsFound :
    (f : ℕ → Result MetricsError ℕ) (seen xs : List ℕ)
    → ((x : ℕ) → mem x seen ≡ true → IsFound (f x))
    → all (λ x. mem x seen) xs ≡ true
    → IsFound (largest f xs)
largest-IsFound f seen [] h e = (0, refl)
largest-IsFound f seen (x ∷ xs) h e =
    let (a, first) = h x (ground arith) in
    let (b, rest) = largest-IsFound f seen xs h (ground arith) in (max a b, rw (first, rest) refl)

module _ (arrival : ℕ) (calls : List CallSpec) (states : Dict CallState) where
  -- More fuel does not change a value.
  visit-suc :
      (n id m : ℕ)
      → visit n arrival calls states id ≡ ok m
      → visit (suc n) arrival calls states id ≡ ok m
  unfolding visit
  visit-suc zero id m h = absurd cc
  visit-suc (suc n) id m h =
      let (spec, e1, h1) = >>=-eq-ok (or_fail (find id calls) no_call) _ h in
      let (c, e2, h2) = >>=-eq-ok (or_fail (lookup id states) no_call) _ h1 in
      let (longest, e3, h3) =
        >>=-eq-ok (largest (visit n arrival calls states) spec.parents) _ h2 in
      let more =
        largest_mono (visit n arrival calls states) (visit (suc n) arrival calls states)
          spec.parents longest (λ x k. visit-suc n x k) e3 in
      rw (e1, e2, more, visit) h3

  -- A call is found once its parents are.
  met-IsFound :
      (n x : ℕ) (seen : List ℕ)
      → ((c : CallState) × (lookup x states ≡ some c))
      → ((y : ℕ) → mem y seen ≡ true → IsFound (visit n arrival calls states y))
      → may_run calls seen x ≡ true
      → IsFound (visit (suc n) arrival calls states x)
  unfolding visit
  met-IsFound n x seen (c, e) h m = elim (Option-cases (find x calls)) [
    | inl f ↦ absurd (let g = rw (f, met) at m in cc)
    | inr (spec, f) ↦
        let (longest, l) =
          largest-IsFound (visit n arrival calls states) seen spec.parents h (rw (f, met) at m) in
        (longest + local_response arrival c, rw (f, e, l, visit) refl)
  ]

  InOrder-IsFound :
      (n m : ℕ) (seen order : List ℕ) (id : ℕ)
      → ((x : ℕ) → mem x (ids calls) ≡ true → (c : CallState) × (lookup x states ≡ some c))
      → ((x : ℕ) → mem x seen ≡ true → IsFound (visit n arrival calls states x))
      → InOrder calls seen order
      → m ≡ n + length order
      → (mem id seen ≡ true) ⊎ (mem id order ≡ true)
      → IsFound (visit m arrival calls states id)
  InOrder-IsFound n m seen [] id known h o e i =
      let same : n ≡ m = omega arith in
      subst (λ k. IsFound (visit k arrival calls states id)) same (h id (ground arith))
  InOrder-IsFound n m seen (x ∷ order) id known h o e i =
      let inside : mem x (ids calls) ≡ true =
        ground (arith, o.0, met-le seen x calls, mem-occurrences x (ids calls)) in
      let here = met-IsFound n x seen (known x inside) h o.0 in
      InOrder-IsFound (suc n) m (x ∷ seen) order id known
        (λ y e. elim (Bool-cases (x == y)) [
          | inl s ↦
              subst (λ k. IsFound (visit (suc n) arrival calls states k)) ((==_iff x y).0 s) here
          | inr s ↦ let (v, found) = h y (ground arith) in (v, visit-suc n y v found)
        ])
        o.1 (omega arith) (ground arith)

  -- In a program whose calls have different names, can run in some order and all have a state, each
  -- call has a critical path, which the recursion finds with fuel for as many levels as the program
  -- has calls.
  pub visit-IsFound :
      (id : ℕ)
      → Distinct (ids calls)
      → HasOrder calls
      → ((x : ℕ) → mem x (ids calls) ≡ true → (c : CallState) × (lookup x states ≡ some c))
      → mem id (ids calls) ≡ true
      → IsFound (visit (length calls) arrival calls states id)
  visit-IsFound id one has known m =
      let full = (visited_iff calls one).1 has in
      InOrder-IsFound 0 (length calls) [] (visited calls) id known (λ x e. absurd (ground arith))
        (visited-Removed calls one).in_order (omega arith)
        (inr (
          ground (
            arith,
            visited-all calls id one full,
            mem-occurrences id (ids calls),
            mem-occurrences id (visited calls),
          )))
