-- ===== src/Core/Engine/Split.antt =====
-- `schedule` and `fill_from_prefetch` of autellix/core/schedulers.py against the split of a list.
use autellix.Prelude.{
  ℕ, zero, suc, ◌+◌, ◌-◌, ◌≤◌, ◌<◌, ◌≡◌, refl, sym, ◌∙◌, ap, inl, inr, List, [], ◌∷◌, ◌++◌, none,
  some, length, ltb, arith, take, drop, Bool-cases, Option-cases, length-append, ltb→lt, false,
}
use autellix.Prelude.Dict.{Dict}
use autellix.Prelude.Sets.{nil-take, nil-drop}
use autellix.Core.State.{CallState, EngineState, iter_queued}
use autellix.Core.Engine.{
  Scheduled, pop_next_queued, start_call, place_call, occupied, schedule_loop, schedule,
  with_chosen,
}

pub append_assoc {ℓ} : {A : Type ℓ} (xs ys zs : List A) → (xs ++ ys) ++ zs ≡ xs ++ (ys ++ zs)
append_assoc [] ys zs = refl
append_assoc (x ∷ xs) ys zs = rw (append_assoc xs ys zs)

pub append_nil {ℓ} : {A : Type ℓ} (xs : List A) → xs ++ [] ≡ xs
append_nil [] = refl
append_nil (x ∷ xs) = rw (append_nil xs)

pop-empty : (qs : List (List ℕ)) → pop_next_queued qs ≡ none → iter_queued qs ≡ []
unfolding pop_next_queued iter_queued
pop-empty [] h = refl
pop-empty ([] ∷ qs) h = ground (arith, pop-empty qs)
pop-empty ((r ∷ q) ∷ qs) h = cc

pop-first :
    (qs : List (List ℕ)) (p : ℕ × List (List ℕ))
    → pop_next_queued qs ≡ some p
    → iter_queued qs ≡ p.0 ∷ iter_queued p.1
unfolding pop_next_queued iter_queued
pop-first [] p h = cc
pop-first ([] ∷ qs) p h = elim (Option-cases (pop_next_queued qs)) [
  | inl e ↦ absurd (ground arith)
  | inr (q, e) ↦ ground (arith, pop-first qs q e)
]
pop-first ((s ∷ q) ∷ qs) p h = ground arith

-- The waiting calls of `e` are split: the first `slots` of them leave the queues, the first of
-- these fill the batch, the others are prefetched.
pub record IsSplit (slots : ℕ) (e : EngineState) (s : Scheduled) : Type 0 where
  pub chosen : s.chosen ≡ take slots (iter_queued e.queues)
  pub left : iter_queued s.engine.queues ≡ drop slots (iter_queued e.queues)
  pub started : s.engine.running ≡ e.running ++ take (e.batch_size - length e.running) s.chosen
  pub held : s.engine.prefetched ≡ e.prefetched ++ drop (e.batch_size - length e.running) s.chosen

-- What is left to do when a call has been placed.
place-rest :
    (r time : ℕ) (calls : Dict CallState) (e : EngineState)
    → ((place_call r time calls e).1.queues ≡ e.queues)
      × ((place_call r time calls e).1.batch_size ≡ e.batch_size)
unfolding place_call start_call
place-rest r time calls e = ground arith

place-occupied :
    (r time : ℕ) (calls : Dict CallState) (e : EngineState)
    → occupied (place_call r time calls e).1 ≡ suc (occupied e)
unfolding place_call start_call
place-occupied r time calls e =
    ground (arith, length-append e.running (r ∷ []), length-append e.prefetched (r ∷ []))

pub free_slots : (b n : ℕ) → n < b → (b - n ≡ suc (b - (n + 1)))
free_slots b n h = omega arith

pub no_slots : (b n : ℕ) → ltb n b ≡ false → b - n ≡ 0
no_slots b n h = ground arith

-- A placed call goes to the free places of the batch first.
module _ (b r : ℕ) (xs front : List ℕ) where
  started-cons :
      length front < b
      → (front ++ (r ∷ [])) ++ take (b - length (front ++ (r ∷ []))) xs
        ≡ front ++ take (b - length front) (r ∷ xs)
  started-cons h = rw (
    append_assoc front (r ∷ []) (take (b - length (front ++ (r ∷ []))) xs),
    length-append front (r ∷ []),
    free_slots b (length front) h,
  )

  held-cons :
      length front < b → drop (b - length (front ++ (r ∷ []))) xs ≡ drop (b - length front) (r ∷ xs)
  held-cons h = rw (length-append front (r ∷ []), free_slots b (length front) h)

abbrev Placed : ℕ → ℕ → List ℕ → EngineState → EngineState → Type 0
Placed r time xs e f =
    (f.running ++ take (f.batch_size - length f.running) xs
      ≡ e.running ++ take (e.batch_size - length e.running) (r ∷ xs))
    × (f.prefetched ++ drop (f.batch_size - length f.running) xs
        ≡ e.prefetched ++ drop (e.batch_size - length e.running) (r ∷ xs))

place-Placed :
    (r time : ℕ) (calls : Dict CallState) (e : EngineState) (xs : List ℕ)
    → Placed r time xs e (place_call r time calls e).1
unfolding place_call start_call
place-Placed r time calls e xs = elim (Bool-cases (ltb (length e.running) e.batch_size)) [
  | inl h ↦ rw h (
    started-cons e.batch_size r xs e.running (ltb→lt _ _ h),
    ap (λ ys. e.prefetched ++ ys) (held-cons e.batch_size r xs e.running (ltb→lt _ _ h)),
  )
  | inr h ↦
      rw (h, no_slots e.batch_size (length e.running) h)
        (refl, append_assoc e.prefetched (r ∷ []) xs)
]

-- Nothing is left to move.
none-IsSplit :
    (slots : ℕ) (calls : Dict CallState) (e : EngineState)
    → take slots (iter_queued e.queues) ≡ []
    → iter_queued e.queues ≡ drop slots (iter_queued e.queues)
    → IsSplit slots e (record { calls = calls; engine = e; chosen = [] })
none-IsSplit slots calls e h k = record {
  chosen = sym h;
  left = k;
  started = rw (sym (nil-take (e.batch_size - length e.running)), append_nil e.running);
  held = rw (sym (nil-drop (e.batch_size - length e.running)), append_nil e.prefetched);
}

-- A placed call, then a split of what is left.
cons-IsSplit :
    (k time : ℕ) (calls : Dict CallState) (e : EngineState) (p : ℕ × List (List ℕ)) (s : Scheduled)
    → pop_next_queued e.queues ≡ some p
    → IsSplit k (place_call p.0 time calls (record e { queues = p.1 })).1 s
    → IsSplit (suc k) e (with_chosen p.0 s)
cons-IsSplit k time calls e p s h i =
    let f : EngineState = record e { queues = p.1 } in
    let first = pop-first e.queues p h in
    let queues = ap iter_queued (place-rest p.0 time calls f).0 in
    let placed = place-Placed p.0 time calls f s.chosen in
    record {
      chosen = rw (first, i.chosen, queues);
      left = rw (first, i.left, queues);
      started = i.started ∙ placed.0;
      held = i.held ∙ placed.1;
    }

loop-IsSplit :
    (n target time : ℕ) (calls : Dict CallState) (e : EngineState)
    → target ≤ n + occupied e
    → IsSplit (target - occupied e) e (schedule_loop n target time calls e)
unfolding schedule_loop
loop-IsSplit zero target time calls e h =
    let full : target - occupied e ≡ 0 = omega arith in rw full (none-IsSplit 0 calls e refl refl)
loop-IsSplit (suc n) target time calls e h = elim (Bool-cases (ltb (occupied e) target)) [
  | inr full ↦ rw (full, no_slots target (occupied e) full) (none-IsSplit 0 calls e refl refl)
  | inl free ↦ elim (Option-cases (pop_next_queued e.queues)) [
    | inl empty ↦
        rw (free, empty)
          (none-IsSplit (target - occupied e) calls e
            (rw (pop-empty e.queues empty, sym (nil-take (target - occupied e))))
            (rw (pop-empty e.queues empty) (nil-drop (target - occupied e))))
    | inr (p, first) ↦
        let f : EngineState = record e { queues = p.1 } in
        let q = place_call p.0 time calls f in
        let more = place-occupied p.0 time calls f in
        let m : occupied q.1 ≡ occupied e + 1 = omega (arith, more) in
        let rest = loop-IsSplit n target time q.0 q.1 (omega arith) in
        rw (free, first, free_slots target (occupied e) (ltb→lt _ _ free))
          (cons-IsSplit (target - (occupied e + 1)) time calls e p
            (schedule_loop n target time q.0 q.1) first (rw m at rest))
  ]
]

-- `schedule` takes from the queues, read from the highest priority down and in each from its head,
-- as many calls as the target has places left, starts the first of them until the batch is full,
-- prefetches the others, and leaves the rest of the queues in order.
pub schedule-IsSplit :
    (target time : ℕ) (calls : Dict CallState) (e : EngineState)
    → IsSplit (target - occupied e) e (schedule target time calls e)
unfolding schedule
schedule-IsSplit target time calls e = loop-IsSplit target target time calls e (omega arith)
