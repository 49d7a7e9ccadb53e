-- ===== src/Runtime/Window/Invariant.antt =====
-- What every window of autellix/runtime/window.py satisfies, and how its operations keep it.
use autellix.Prelude.{
  ℕ, zero, suc, ◌+◌, ◌≤◌, ◌≡◌, refl, inl, inr, Bool, true, false, not, List, [], ◌∷◌, Result, ok,
  arith, mem, take, drop, length, ◌==◌, occurrences, Distinct, Bool-cases, Result-cases,
  occurrences-append, occurrences-filter, length-filter-le, length-take, mem-occurrences, sym,
  subst, ap,
}
use autellix.Prelude.Sort
use autellix.Prelude.Sort.{sort}
use autellix.Prelude.Sets.{
  to_set, minus, occurrences-take-drop, drop-take, length-take-le, mem-to_set, to_set-Distinct,
  nil-take, nil-drop,
}
use autellix.Runtime.Window.{
  Controller, Window, WindowError, Selection, select, selected, nothing_selected, survivors,
  at_boundary, fresh_cohort, sorted_by_key, key_le, with_cohort, executed, drop_reserve,
  retain_prefix,
}

-- The cohort holds no request twice and fits the capacity and the reserves; the active requests
-- are its head and the reserves are the rest.
pub record IsPlan (overprovision : ℕ) (w : Window) : Type 0 where
  pub distinct : Distinct w.cohort
  pub fits : length w.cohort ≤ w.capacity + overprovision
  pub head : w.active ≡ take w.capacity w.cohort
  pub rest : w.reserve ≡ drop w.capacity w.cohort

take-Distinct : (n : ℕ) (xs : List ℕ) → Distinct xs → Distinct (take n xs)
take-Distinct n xs h x = omega (arith, occurrences-take-drop x n xs, h x)

take-take : (n : ℕ) (xs : List ℕ) → take n (take n xs) ≡ take n xs
take-take zero xs = refl
take-take (suc n) [] = refl
take-take (suc n) (x ∷ xs) = rw (take-take n xs)

drop-take_self : (n : ℕ) (xs : List ℕ) → drop n (take n xs) ≡ []
drop-take_self zero xs = refl
drop-take_self (suc n) [] = refl
drop-take_self (suc n) (x ∷ xs) = drop-take_self n xs

with_cohort-IsPlan :
    (o : ℕ) (w : Window) (cohort : List ℕ)
    → Distinct cohort
    → length cohort ≤ w.capacity + o
    → IsPlan o (with_cohort w cohort)
with_cohort-IsPlan o w cohort d f = record { distinct = d; fits = f; head = refl; rest = refl }

-- The operations between two selections keep the plan.
pub executed-IsPlan :
    (o : ℕ) (prefill : Bool) (w : Window) → IsPlan o w → IsPlan o (executed prefill w)
unfolding executed
executed-IsPlan o true w v = v
executed-IsPlan o false w v = record {
  distinct = v.distinct;
  fits = v.fits;
  head = v.head;
  rest = v.rest;
}

pub drop_reserve-IsPlan : (o : ℕ) (w : Window) → IsPlan o w → IsPlan o (drop_reserve w)
unfolding drop_reserve
drop_reserve-IsPlan o w v = record {
  distinct = take-Distinct w.capacity w.cohort v.distinct;
  fits = omega (arith, length-take w.capacity w.cohort);
  head = rw (take-take w.capacity w.cohort) v.head;
  rest = sym (drop-take_self w.capacity w.cohort);
}

pub retain_prefix-IsPlan : (o n : ℕ) (w : Window) → IsPlan o w → IsPlan o (retain_prefix n w)
unfolding retain_prefix
retain_prefix-IsPlan o n w v =
    with_cohort-IsPlan o w (take n w.cohort) (take-Distinct n w.cohort v.distinct)
      (omega (arith, length-take n w.cohort, v.fits))

module _ (ctl : Controller) where
  open ctl use {State, refresh, key, schedule_interval, overprovision}

  -- A fresh cohort: a head of the available requests, sorted.
  pub fresh_cohort-inv :
      (s : State) (w : Window) (available cohort : List ℕ)
      → fresh_cohort ctl s w available ≡ ok cohort
      → cohort
        ≡ take
            (w.capacity + overprovision)
            (sort (λ a b. key_le (key (refresh s) a) (key (refresh s) b)) (to_set available))
  unfolding sorted_by_key
  fresh_cohort-inv s w available cohort h = ground arith

  fresh-Distinct :
      (s : State) (w : Window) (available cohort : List ℕ)
      → fresh_cohort ctl s w available ≡ ok cohort
      → Distinct cohort × (length cohort ≤ w.capacity + overprovision)
  fresh-Distinct s w available cohort h =
      let le = λ (a b : ℕ). key_le (key (refresh s) a) (key (refresh s) b) in
      let n = w.capacity + overprovision in
      let e = fresh_cohort-inv s w available cohort h in
      (
        subst Distinct (sym e) (
            take-Distinct n (sort le (to_set available)) λ x. omega (
              arith,
              Sort.count-sort le (λ y. y == x) (to_set available),
              to_set-Distinct available x,
            )),
        rw e (length-take-le n (sort le (to_set available))),
      )

  injective :
      {a b : Selection ctl} → ◌≡◌ {A = Result WindowError (Selection ctl)} (ok a) (ok b) → a ≡ b
  injective e = cc

  -- A selection that succeeds is empty, makes a fresh cohort, or keeps the cohort.
  pub select_cases {ℓ} :
      (P : Selection ctl → Type ℓ) (s : State) (w : Window) (available resident : List ℕ)
      (r : Selection ctl)
      → select ctl s w available resident ≡ ok r
      → (available ≡ [] → P (nothing_selected ctl s w))
      → ((cohort : List ℕ)
          → at_boundary ctl w available ≡ true
          → fresh_cohort ctl s w available ≡ ok cohort
          → P (
              selected ctl
                (refresh s)
                (with_cohort (record w { remaining = schedule_interval }) cohort)
                resident))
      → (at_boundary ctl w available ≡ false
          → P (selected ctl s (with_cohort w (survivors ctl w available)) resident))
      → P r
  unfolding select
  select_cases P s w [] resident r e empty fresh frozen = subst P (injective e) (empty refl)
  select_cases P s w (a ∷ rest) resident r e empty fresh frozen =
      elim (Bool-cases (at_boundary ctl w (a ∷ rest))) [
        | inl b ↦ elim (Result-cases (fresh_cohort ctl s w (a ∷ rest))) [
          | inl (cohort, f) ↦ subst P (injective (ground arith)) (fresh cohort b f)
          | inr (failure, f) ↦ absurd (ground arith)
        ]
        | inr b ↦ subst P (injective (ground arith)) (frozen b)
      ]

  -- What the frozen and the fresh plans have in common.
  abbrev pub Within : Window → List ℕ → Selection ctl → Type 0
  Within w available r =
      IsPlan overprovision r.window
      × (r.window.capacity ≡ w.capacity)
      × ((x : ℕ) → occurrences x r.chosen + occurrences x r.held ≡ occurrences x r.window.cohort)
      × ((x : ℕ) → mem x r.window.cohort ≡ true → mem x available ≡ true)

  split_cohort :
      (s : State) (w : Window) (resident : List ℕ) (x : ℕ)
      → w.active ≡ take w.capacity w.cohort
      → w.reserve ≡ drop w.capacity w.cohort
      → let r = selected ctl s w resident in
        occurrences x r.chosen + occurrences x r.held ≡ occurrences x w.cohort
  split_cohort s w resident x head rest = ground (
    arith,
    occurrences-append x w.active (minus w.reserve resident),
    occurrences-filter x (λ y. not (mem y resident)) w.reserve,
    occurrences-filter x (λ y. mem y resident) w.reserve,
    occurrences-take-drop x w.capacity w.cohort,
    ap (occurrences x) head,
    ap (occurrences x) rest,
  )

  fresh-available :
      (s : State) (w : Window) (available cohort : List ℕ) (x : ℕ)
      → fresh_cohort ctl s w available ≡ ok cohort
      → mem x cohort ≡ true
      → mem x available ≡ true
  fresh-available s w available cohort x h m =
      let le = λ (a b : ℕ). key_le (key (refresh s) a) (key (refresh s) b) in
      let sorted = sort le (to_set available) in
      ground (
        arith,
        mem-occurrences x cohort,
        ap (occurrences x) (fresh_cohort-inv s w available cohort h),
        occurrences-take-drop x (w.capacity + overprovision) sorted,
        Sort.count-sort le (λ y. y == x) (to_set available),
        mem-occurrences x (to_set available),
        mem-to_set x available,
      )

  survivors-IsPlan :
      (w : Window) (available : List ℕ)
      → IsPlan overprovision w
      → IsPlan overprovision (with_cohort w (survivors ctl w available))
  survivors-IsPlan w available v =
      with_cohort-IsPlan overprovision w (survivors ctl w available)
        (λ x. ground (arith, occurrences-filter x (λ y. mem y available) w.cohort, v.distinct x))
        (omega (arith, length-filter-le (λ y. mem y available) w.cohort, v.fits))

  select-plan :
      (s : State) (w : Window) (available resident : List ℕ) (r : Selection ctl)
      → IsPlan overprovision w
      → select ctl s w available resident ≡ ok r
      → Within w available r
  select-plan s w available resident r v e =
      select_cases (Within w available) s w available resident r e
        (λ _. (
          record {
            distinct = λ x. omega arith;
            fits = omega arith;
            head = nil-take w.capacity;
            rest = nil-drop w.capacity;
          },
          refl,
          λ x. omega arith,
          λ x m. absurd (ground arith),
        ))
        (λ cohort b f.
          let (d, l) = fresh-Distinct s w available cohort f in
          let p = record w { remaining = schedule_interval } in
          (
            with_cohort-IsPlan overprovision p cohort d l,
            refl,
            λ x. split_cohort (refresh s) (with_cohort p cohort) resident x refl refl,
            λ x. fresh-available s w available cohort x f,
          ))
        (λ b. (
          survivors-IsPlan w available v,
          refl,
          λ x. split_cohort s (with_cohort w (survivors ctl w available)) resident x refl refl,
          λ x m. ground (
            arith,
            mem-occurrences x (survivors ctl w available),
            occurrences-filter x (λ y. mem y available) w.cohort,
          ),
        ))

  -- Every selection is a plan of available requests: no request twice, at most `capacity` active
  -- and at most `overprovision` in reserve. The requests to run and the reserves to hold resident
  -- are together the cohort, each once.
  pub select-Within :
      (s : State) (w : Window) (available resident : List ℕ) (r : Selection ctl)
      → IsPlan overprovision w
      → select ctl s w available resident ≡ ok r
      → Within w available r
        × (length r.window.active ≤ w.capacity)
        × (length r.window.reserve ≤ overprovision)
  select-Within s w available resident r v e =
      let within = select-plan s w available resident r v e in
      let (plan, capacity, _, _) = within in
      let n = r.window.capacity in
      (
        within,
        omega (arith, ap length plan.head, length-take-le n r.window.cohort, capacity),
        omega (arith, ap length plan.rest, drop-take n overprovision r.window.cohort plan.fits),
      )
