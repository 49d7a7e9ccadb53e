-- ===== src/Core/Pass/Shortest.antt =====
-- The order in which `SRPTScheduler.schedule` of autellix/core/schedulers.py starts calls.
use autellix.Prelude.{
  ℕ, ◌+◌, ◌-◌, ◌≤◌, ◌≡◌, refl, ap, ◌∙◌, ◌⊎◌, inl, inr, true, List, [], ◌∷◌, some, arith, mem, take,
  drop, length, length-take, min, occurrences, ◌==◌, All, mem-of_All, Option-cases,
}
use autellix.Prelude.Dict.{Dict, lookup}
use autellix.Prelude.Sets.{occurrences-take-drop}
use autellix.Prelude.Sort
use autellix.Prelude.Sort.{
  sort, lex_le, lex_le-total, lex_le_trans, IsSorted, count-sort, length-sort,
}
use autellix.Core.State.{CallState, EngineState, iter_queued}
use autellix.Core.Engine.{Scheduled, occupied}
use autellix.Core.Engine.Split.{schedule-IsSplit, append_nil}
use autellix.Core.Policy.{
  Scheduler, srpt, Store, sort_queue, call_le, key_le, sort_key, known_remaining,
}
use autellix.Core.Pass.{schedule_of}

key_le-total : (p q : (ℕ × ℕ) × (ℕ × ℕ)) → (key_le p q ≡ true) ⊎ (key_le q p ≡ true)
key_le-total (a, b) (c, d) = ground (arith, lex_le-total a c, lex_le-total b d)

key_le_trans :
    (p q r : (ℕ × ℕ) × (ℕ × ℕ)) → key_le p q ≡ true → key_le q r ≡ true → key_le p r ≡ true
key_le_trans (a, b) (c, d) (e, f) h k =
    ground (arith, lex_le_trans a c e, lex_le_trans e a c, lex_le_trans c e a, lex_le_trans b d f)

call_le-total :
    (s : Scheduler) (calls : Dict CallState) (x y : ℕ)
    → (call_le s calls x y ≡ true) ⊎ (call_le s calls y x ≡ true)
call_le-total s calls x y = elim (Option-cases (lookup x calls)) [
  | inl e ↦ elim (Option-cases (lookup y calls)) [
    | inl f ↦ inl (rw (e, f, call_le) refl)
    | inr (d, f) ↦ inr (rw (f, e, call_le) refl)
  ]
  | inr (c, e) ↦ elim (Option-cases (lookup y calls)) [
    | inl f ↦ inl (rw (e, f, call_le) refl)
    | inr (d, f) ↦ elim (key_le-total (sort_key s c) (sort_key s d)) [
      | inl first ↦ inl (rw (e, f, call_le) first)
      | inr second ↦ inr (rw (f, e, call_le) second)
    ]
  ]
]

call_le_trans :
    (s : Scheduler) (calls : Dict CallState) (x y z : ℕ)
    → call_le s calls x y ≡ true
    → call_le s calls y z ≡ true
    → call_le s calls x z ≡ true
call_le_trans s calls x y z h k = elim (Option-cases (lookup z calls)) [
  | inl g ↦ elim (Option-cases (lookup x calls)) [
    | inl e ↦ rw (e, g, call_le) refl
    | inr (c, e) ↦ rw (e, g, call_le) refl
  ]
  | inr (d, g) ↦ elim (Option-cases (lookup y calls)) [
    | inl f ↦ absurd (let i = rw (f, g, call_le) at k in cc)
    | inr (b, f) ↦ elim (Option-cases (lookup x calls)) [
      | inl e ↦ absurd (let i = rw (e, f, call_le) at h in cc)
      | inr (c, e) ↦
          rw (e, g, call_le)
            (key_le_trans (sort_key s c) (sort_key s b) (sort_key s d) (rw (e, f, call_le) at h)
              (rw (f, g, call_le) at k))
    ]
  ]
]

key_le-first : (p q : (ℕ × ℕ) × (ℕ × ℕ)) → key_le p q ≡ true → p.0.0 ≤ q.0.0
key_le-first (a, b) (c, d) h = ground arith

call_le-remaining :
    (s : Scheduler) (calls : Dict CallState) (x y : ℕ) (c d : CallState)
    → lookup x calls ≡ some c
    → lookup y calls ≡ some d
    → call_le s calls x y ≡ true
    → known_remaining s c ≤ known_remaining s d
call_le-remaining s calls x y c d h k e =
    key_le-first (sort_key s c) (sort_key s d) (rw (h, k, call_le) at e)

queued-sort_queue :
    (s : Scheduler) (calls : Dict CallState) (q : List ℕ)
    → s.kind ≡ srpt
    → iter_queued (sort_queue s calls (q ∷ [])) ≡ sort (call_le s calls) q
unfolding sort_queue iter_queued
queued-sort_queue s calls q k = rw k (append_nil (sort (call_le s calls) q))

-- The calls that are chosen from the queue `q` and those that are left in it.
pub record TakesShortest (slots : ℕ) (st : Store) (q : List ℕ) (s : Scheduled) : Type 0 where
  pub full : length s.chosen ≡ min slots (length q)
  pub kept :
      (x : ℕ)
      → occurrences x s.chosen + occurrences x (iter_queued s.engine.queues) ≡ occurrences x q
  pub shortest :
      (x y : ℕ) (c d : CallState)
      → mem x s.chosen ≡ true
      → mem y (iter_queued s.engine.queues) ≡ true
      → lookup x st.calls ≡ some c
      → lookup y st.calls ≡ some d
      → known_remaining st.scheduler c ≤ known_remaining st.scheduler d
  pub sorted : IsSorted (call_le st.scheduler st.calls) s.chosen

-- Under SRPT and with one queue, `schedule` chooses as many of the queued calls as there are slots
-- left, or all of them, in the order of the remaining time of their programs (`known_remaining`), of
-- their ready times and of their names. The others stay queued, and of two known calls the one that
-- is chosen has no more time remaining than the one that stays.
pub schedule_of-TakesShortest :
    (target time : ℕ) (st : Store) (e : EngineState) (q : List ℕ)
    → st.scheduler.kind ≡ srpt
    → e.queues ≡ q ∷ []
    → TakesShortest (target - occupied e) st q (schedule_of target time st e)
unfolding schedule_of
schedule_of-TakesShortest target time st e q k one =
    let s = st.scheduler in
    let le = call_le s st.calls in
    let slots = target - occupied e in
    let queues = sort_queue s st.calls e.queues in
    let split = schedule-IsSplit target time st.calls (record e { queues = queues }) in
    let queued : iter_queued queues ≡ sort le q =
      ap (λ qs. iter_queued (sort_queue s st.calls qs)) one ∙ queued-sort_queue s st.calls q k in
    let chosen = split.chosen ∙ ap (take slots) queued in
    let left = split.left ∙ ap (drop slots) queued in
    let ordered = Sort.sort-IsSorted le (call_le-total s st.calls) (call_le_trans s st.calls) q in
    record {
      full = ap length chosen ∙ length-take slots (sort le q) ∙ ap (min slots) (length-sort le q);
      kept = λ x.
          rw (chosen, left)
            (omega
              (arith, occurrences-take-drop x slots (sort le q), count-sort le (λ y. y == x) q));
      shortest = λ x y c d inside outside found known.
          call_le-remaining s st.calls x y c d found known (
            mem-of_All (λ z. le x z ≡ true) y (drop slots (sort le q))
              (mem-of_All (λ w. All (λ z. le w z ≡ true) (drop slots (sort le q))) x
                (take slots (sort le q)) (Sort.IsSorted-take-drop le slots (sort le q) ordered)
                (rw chosen at inside))
              (rw left at outside));
      sorted = rw chosen (Sort.IsSorted-take le slots (sort le q) ordered);
    }
