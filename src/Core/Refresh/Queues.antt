-- ===== src/Core/Refresh/Queues.antt =====
-- How `Scheduler.refresh` of autellix/core/schedulers.py changes the queues of an engine.
use autellix.Prelude.{
  ℕ, zero, suc, ◌+◌, ◌<◌, ◌≡◌, refl, subst, inl, inr, List, [], ◌∷◌, ◌++◌, some, length, modify,
  ◌==◌, ==_iff, if◌then◌else◌, occurrences, occurrences-append, Bool-cases, Option-cases,
  some_injective, arith,
}
use autellix.Prelude.Dict.{Dict}
use autellix.Prelude.Sort.{sort, count-sort, length-sort}
use autellix.Core.State.{CallState, iter_queued}
use autellix.Core.Policy.{Scheduler, sort_queue, call_le}
use autellix.Core.Refresh.{remove_first, take_out}

abbrev pub one_of : ℕ → ℕ → ℕ
one_of r x = if r == x then 1 else 0

pub iter_queued-modify :
    (x r i : ℕ) (qs : List (List ℕ))
    → i < length qs
    → occurrences x (iter_queued (modify qs i (λ q. q ++ (r ∷ []))))
      ≡ occurrences x (iter_queued qs) + one_of r x
unfolding iter_queued
iter_queued-modify x r i [] h = absurd (omega arith)
iter_queued-modify x r zero (q ∷ qs) h = ground (
  arith,
  occurrences-append x (q ++ (r ∷ [])) (iter_queued qs),
  occurrences-append x q (r ∷ []),
  occurrences-append x q (iter_queued qs),
)
iter_queued-modify x r (suc i) (q ∷ qs) h = omega (
  arith,
  iter_queued-modify x r i qs (omega arith),
  occurrences-append x q (iter_queued qs),
  occurrences-append x q (iter_queued (modify qs i (λ q. q ++ (r ∷ [])))),
)

remove_first-some :
    (x r : ℕ) (q p : List ℕ)
    → remove_first r q ≡ some p
    → occurrences x p + one_of r x ≡ occurrences x q
remove_first-some x r [] p h = absurd cc
remove_first-some x r (y ∷ q) p h = elim (Bool-cases (y == r)) [
  | inl e ↦
      let same = some_injective (rw e at h) in
      subst (λ ys. occurrences x ys + one_of r x ≡ occurrences x (y ∷ q)) same
        (ground (arith, ==_iff y r))
  | inr e ↦ elim (Option-cases (remove_first r q)) [
    | inl f ↦ absurd (let g = rw (e, f) at h in cc)
    | inr (ys, f) ↦
        let same = some_injective (rw (e, f) at h) in
        subst (λ zs. occurrences x zs + one_of r x ≡ occurrences x (y ∷ q)) same
          (ground (arith, remove_first-some x r q ys f))
  ]
]

pub take_out-some :
    (x r i : ℕ) (qs ps : List (List ℕ))
    → take_out r i qs ≡ some ps
    → (occurrences x (iter_queued ps) + one_of r x ≡ occurrences x (iter_queued qs))
      × (length ps ≡ length qs)
unfolding iter_queued
take_out-some x r i [] ps h = absurd cc
take_out-some x r zero (q ∷ qs) ps h = elim (Option-cases (remove_first r q)) [
  | inl f ↦ absurd (let g = rw (f, take_out) at h in cc)
  | inr (p, f) ↦
      let same = some_injective (rw (f, take_out) at h) in
      subst
        (λ zs.
          (occurrences x (iter_queued zs) + one_of r x ≡ occurrences x (iter_queued (q ∷ qs)))
          × (length zs ≡ length (q ∷ qs)))
        same
        (
          omega (
            arith,
            remove_first-some x r q p f,
            occurrences-append x q (iter_queued qs),
            occurrences-append x p (iter_queued qs),
          ),
          refl,
        )
]
take_out-some x r (suc i) (q ∷ qs) ps h = elim (Option-cases (take_out r i qs)) [
  | inl f ↦ absurd (let g = rw (f, take_out) at h in cc)
  | inr (p, f) ↦
      let same = some_injective (rw (f, take_out) at h) in
      let rest = take_out-some x r i qs p f in
      subst
        (λ zs.
          (occurrences x (iter_queued zs) + one_of r x ≡ occurrences x (iter_queued (q ∷ qs)))
          × (length zs ≡ length (q ∷ qs)))
        same
        (
          omega (
            arith,
            rest.0,
            occurrences-append x q (iter_queued qs),
            occurrences-append x q (iter_queued p),
          ),
          omega (arith, rest.1),
        )
]

pub iter_queued-sort_queue :
    (x : ℕ) (s : Scheduler) (calls : Dict CallState) (qs : List (List ℕ))
    → (occurrences x (iter_queued (sort_queue s calls qs)) ≡ occurrences x (iter_queued qs))
      × (length (sort_queue s calls qs) ≡ length qs)
unfolding sort_queue iter_queued
iter_queued-sort_queue x s calls [] = ground arith
iter_queued-sort_queue x s calls (q ∷ qs) = ground (
  arith,
  length-sort (call_le s calls) q,
  count-sort (call_le s calls) (λ y. y == x) q,
  occurrences-append x q (iter_queued qs),
  occurrences-append x (sort (call_le s calls) q) (iter_queued qs),
)
