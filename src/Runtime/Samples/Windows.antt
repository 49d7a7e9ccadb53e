-- ===== src/Runtime/Samples/Windows.antt =====
-- Runs of autellix/runtime/window.py: with a controller whose keys are given, and with the online
-- scheduler.
use autellix.Prelude.{ℕ, suc, ◌-◌, ◌≤◌, ◌≡◌, refl, List, [], ◌∷◌, some, ok, arith}
use autellix.Prelude.Sort.{sort}
use autellix.Runtime.Config.{default_config}
use autellix.Runtime.Scheduler.Order.{IsValid}
use autellix.Runtime.Window.{Controller, Window, Selection, new_window, select, sorted_by_key}
use autellix.Runtime.Window.Invariant.{IsPlan, Within, select-Within}
use autellix.Runtime.Window.Priority.{TakesFirst, select-TakesFirst}
use autellix.Runtime.Window.Online.{online, select-total}
use autellix.Runtime.Samples.Policies.{busy, busy-IsValid}

-- The state counts the refreshes; request `r` has the key (10 - r, r).
abbrev by_id : Controller
by_id = record {
  State = ℕ;
  refresh = suc;
  key = λ s r. some (10 - r, r);
  schedule_interval = 8;
  overprovision = 1;
}

abbrev requests : List ℕ
requests = 1 ∷ 4 ∷ 2 ∷ 3 ∷ []

abbrev first_window : Window
first_window = record {
  capacity = 2;
  remaining = 8;
  cohort = 4 ∷ 3 ∷ 2 ∷ [];
  active = 4 ∷ 3 ∷ [];
  reserve = 2 ∷ [];
}

abbrev first_selection : Selection by_id
first_selection = record { state = 1; window = first_window; chosen = 4 ∷ 3 ∷ 2 ∷ []; held = [] }

select_fresh : select by_id 0 (new_window 2) requests [] ≡ ok first_selection
unfolding select sorted_by_key sort
select_fresh = refl

-- The next step: request 4 has ended, and 2 is resident.
abbrev second_selection : Selection by_id
second_selection = record {
  state = 1;
  window = record first_window { cohort = 3 ∷ 2 ∷ []; active = 3 ∷ 2 ∷ []; reserve = [] };
  chosen = 3 ∷ 2 ∷ [];
  held = [];
}

select_next : select by_id 1 first_window (1 ∷ 2 ∷ 3 ∷ []) (2 ∷ []) ≡ ok second_selection
unfolding select
select_next = refl

new_window-IsPlan : IsPlan 1 (new_window 2)
new_window-IsPlan = record {
  distinct = λ x. omega arith;
  fits = omega arith;
  head = refl;
  rest = refl;
}

select-Within_example : Within by_id (new_window 2) requests first_selection × (2 ≤ 2) × (1 ≤ 1)
select-Within_example =
    select-Within by_id 0 (new_window 2) requests [] first_selection new_window-IsPlan select_fresh

select-TakesFirst_example :
    (first_selection.state ≡ 1)
    × (first_selection.window.remaining ≡ 8)
    × TakesFirst by_id 1 3 requests (4 ∷ 3 ∷ 2 ∷ [])
select-TakesFirst_example =
    select-TakesFirst by_id 0 (new_window 2) requests [] first_selection refl (λ e. cc) select_fresh

select-total_example :
    (r : Selection (online default_config (λ s. 1_000))) × (select
        (online default_config (λ s. 1_000))
        busy
        (new_window 2)
        (10 ∷ [])
        []
      ≡ ok r)
    × IsValid r.state
select-total_example =
    select-total default_config (λ s. 1_000) busy (new_window 2) (10 ∷ []) [] busy-IsValid
      (λ x m. ground arith)
