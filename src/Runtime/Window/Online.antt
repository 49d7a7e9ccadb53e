-- ===== src/Runtime/Window/Online.antt =====
-- The window over the scheduler of autellix/runtime/policy.py, as the integrations build it.
use autellix.Prelude.{
  ℕ, ◌+◌, ◌≡◌, refl, inl, inr, true, List, [], ◌∷◌, ok, arith, mem, all-of_mem, Bool-cases, take,
}
use autellix.Prelude.Dict.{has_key, lookup-has_key}
use autellix.Prelude.Int.{pos_part}
use autellix.Prelude.Sort.{sort}
use autellix.Prelude.Sets.{to_set, mem-to_set}
use autellix.Runtime.Config.{PolicyConfig}
use autellix.Runtime.Scheduler
use autellix.Runtime.Scheduler.{Scheduler}
use autellix.Runtime.Scheduler.Loop.{refresh-visited}
use autellix.Runtime.Scheduler.Order.{IsValid, refresh-IsValid}
use autellix.Runtime.Window.{
  Controller, Window, Selection, select, selected, nothing_selected, at_boundary, fresh_cohort,
  survivors, key_le, is_some, sorted_by_key, with_cohort,
}

-- The controller that the window is given: the clock is read when the priorities are refreshed.
abbrev pub online : PolicyConfig → (Scheduler → ℕ) → Controller
online config clock = record {
  State = Scheduler;
  refresh = λ s. Scheduler.refresh (clock s) s;
  key = λ s rid. Scheduler.key s rid;
  schedule_interval = pos_part config.schedule_interval;
  overprovision = pos_part config.overprovision;
}

module _ (config : PolicyConfig) (clock : Scheduler → ℕ) where
  refresh-known :
      (now k : ℕ) (s : Scheduler)
      → IsValid s
      → has_key k s.calls ≡ true
      → is_some (Scheduler.key (Scheduler.refresh now s) k) ≡ true
  unfolding Scheduler.key
  refresh-known now k s v h =
      let (c, found) = lookup-has_key k s.calls h in
      let (m, after) = refresh-visited now k s v.distinct found in ground (arith, after)

  fresh_cohort-total :
      (s : Scheduler) (w : Window) (available : List ℕ)
      → IsValid s
      → ((x : ℕ) → mem x available ≡ true → has_key x s.calls ≡ true)
      → (cohort : List ℕ) × (fresh_cohort (online config clock) s w available ≡ ok cohort)
  unfolding sorted_by_key
  fresh_cohort-total s w available v known =
      let t = Scheduler.refresh (clock s) s in
      let sorted =
        sort (λ a b. key_le (Scheduler.key t a) (Scheduler.key t b)) (to_set available) in
      (
        take (w.capacity + pos_part config.overprovision) sorted,
        rw (
            all-of_mem (λ x. is_some (Scheduler.key t x)) (to_set available)
              (λ x m. refresh-known (clock s) x s v (known x (rw (mem-to_set x available) at m)))),
      )

  -- A selection from calls that the scheduler knows succeeds, and leaves the scheduler valid.
  pub select-total :
      (s : Scheduler) (w : Window) (available resident : List ℕ)
      → IsValid s
      → ((x : ℕ) → mem x available ≡ true → has_key x s.calls ≡ true)
      → (r : Selection (online config clock)) × (select (online config clock) s w available resident
          ≡ ok r)
        × IsValid r.state
  unfolding select
  select-total s w [] resident v known = (nothing_selected _ s w, refl, v)
  select-total s w (a ∷ rest) resident v known =
      elim (Bool-cases (at_boundary (online config clock) w (a ∷ rest))) [
        | inl b ↦
            let (cohort, f) = fresh_cohort-total s w (a ∷ rest) v known in
            let p = record w { remaining = pos_part config.schedule_interval } in
            (
              selected (online config clock) (Scheduler.refresh (clock s) s) (with_cohort p cohort)
                  resident,
              ground (arith, f),
              refresh-IsValid (clock s) s v,
            )
        | inr b ↦ (
          selected _ s (with_cohort w (survivors (online config clock) w (a ∷ rest))) resident,
          ground arith,
          v,
        )
      ]
