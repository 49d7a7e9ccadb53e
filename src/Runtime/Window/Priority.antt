-- ===== src/Runtime/Window/Priority.antt =====
-- Which requests a fresh cohort holds (`SchedulingWindow.select` of autellix/runtime/window.py).
use autellix.Prelude.{
  ℕ, zero, suc, ◌+◌, ◌<◌, ◌≡◌, ◌≢◌, refl, inl, inr, ◌⊎◌, Bool, true, false, List, [], ◌∷◌, Option,
  none, some, ok, arith, mem, take, drop, length, ◌==◌, mem-occurrences, mem-of_All, All, ap,
}
use autellix.Prelude.Sort
use autellix.Prelude.Sort.{sort, lex_le, lex_le-total, lex_le_trans, IsSorted}
use autellix.Prelude.Sets.{to_set, occurrences-take-drop, mem-to_set}
use autellix.Runtime.Window.{
  Controller, Window, Selection, select, at_boundary, fresh_cohort, key_le,
}
use autellix.Runtime.Window.Invariant.{select_cases, fresh_cohort-inv}

key_le-total : (p q : Option (ℕ × ℕ)) → (key_le p q ≡ true) ⊎ (key_le q p ≡ true)
key_le-total none q = inl refl
key_le-total (some p) none = inr refl
key_le-total (some p) (some q) = lex_le-total p q

key_le_trans : (p q r : Option (ℕ × ℕ)) → key_le p q ≡ true → key_le q r ≡ true → key_le p r ≡ true
key_le_trans none q r h k = refl
key_le_trans (some p) none r h k = cc
key_le_trans (some p) (some q) none h k = k
key_le_trans (some p) (some q) (some r) h k = lex_le_trans p q r h k

-- In a sorted list an element of the head goes before any that the head leaves out.
before_rest :
    (le : ℕ → ℕ → Bool) (n : ℕ) (xs : List ℕ) (a c : ℕ)
    → IsSorted le xs
    → mem c (take n xs) ≡ true
    → mem a xs ≡ true
    → mem a (take n xs) ≡ false
    → le c a ≡ true
before_rest le n xs a c sorted inside present outside =
    mem-of_All (λ y. le c y ≡ true) a (drop n xs)
      (mem-of_All (λ x. All (λ y. le x y ≡ true) (drop n xs)) c (take n xs)
        (Sort.IsSorted-take-drop le n xs sorted) inside)
      (ground (
        arith,
        occurrences-take-drop a n xs,
        mem-occurrences a (take n xs),
        mem-occurrences a xs,
        mem-occurrences a (drop n xs),
      ))

take-all : (n : ℕ) (xs : List ℕ) → length (take n xs) < n → take n xs ≡ xs
take-all zero xs h = absurd (omega arith)
take-all (suc n) [] h = refl
take-all (suc n) (x ∷ xs) h = ap (λ ys. x ∷ ys) (take-all n xs (omega arith))

module _ (ctl : Controller) where
  open ctl use {State, refresh, key, schedule_interval, overprovision}

  -- The requests of `cohort` are those of `available` that come first by their keys in `s`.
  pub record TakesFirst (s : State) (limit : ℕ) (available cohort : List ℕ) : Type 0 where
    pub first :
        (a c : ℕ)
        → mem c cohort ≡ true
        → mem a available ≡ true
        → mem a cohort ≡ false
        → key_le (key s c) (key s a) ≡ true
    pub sorted : IsSorted (λ a b. key_le (key s a) (key s b)) cohort
    pub full : length cohort < limit → (a : ℕ) → mem a available ≡ true → mem a cohort ≡ true

  fresh-TakesFirst :
      (s : State) (w : Window) (available cohort : List ℕ)
      → fresh_cohort ctl s w available ≡ ok cohort
      → TakesFirst (refresh s) (w.capacity + overprovision) available cohort
  fresh-TakesFirst s w available cohort h = record {
    first = λ a c inside present outside.
        before_rest le n sorted_ids a c ordered (rw e at inside) (listed a present)
          (rw e at outside);
    sorted = rw e (Sort.IsSorted-take le n sorted_ids ordered);
    full = λ short a present.
        let whole = take-all n sorted_ids (rw e at short) in rw (e, whole) (listed a present);
  }
    where
      n : ℕ
      n = w.capacity + overprovision

      le : ℕ → ℕ → Bool
      le a b = key_le (key (refresh s) a) (key (refresh s) b)

      sorted_ids : List ℕ
      sorted_ids = sort le (to_set available)

      e : cohort ≡ take n sorted_ids
      e = fresh_cohort-inv ctl s w available cohort h

      ordered : IsSorted le sorted_ids
      ordered =
          Sort.sort-IsSorted le (λ a b. key_le-total (key (refresh s) a) (key (refresh s) b))
            (λ a b c. key_le_trans (key (refresh s) a) (key (refresh s) b) (key (refresh s) c))
            (to_set available)

      listed : (a : ℕ) → mem a available ≡ true → mem a sorted_ids ≡ true
      listed a present = ground (
        arith,
        Sort.count-sort le (λ y. y == a) (to_set available),
        mem-to_set a available,
        mem-occurrences a (to_set available),
        mem-occurrences a sorted_ids,
      )

  -- At a boundary the priorities are refreshed, a full window of steps begins, and the cohort is
  -- what comes first by the refreshed keys, in their order: no available request that is left out
  -- goes before one that is taken, and none is left out while there is room.
  pub select-TakesFirst :
      (s : State) (w : Window) (available resident : List ℕ) (r : Selection ctl)
      → at_boundary ctl w available ≡ true
      → available ≢ []
      → select ctl s w available resident ≡ ok r
      → (r.state ≡ refresh s)
        × (r.window.remaining ≡ schedule_interval)
        × TakesFirst r.state (w.capacity + overprovision) available r.window.cohort
  select-TakesFirst s w available resident r b l e =
      select_cases ctl
        (λ t.
          (t.state ≡ refresh s)
          × (t.window.remaining ≡ schedule_interval)
          × TakesFirst t.state (w.capacity + overprovision) available t.window.cohort)
        s w available resident r e (λ gone. absurd (l gone))
        (λ cohort _ f. (refl, refl, fresh-TakesFirst s w available cohort f))
        (λ c. absurd (ground (arith, b, c)))
