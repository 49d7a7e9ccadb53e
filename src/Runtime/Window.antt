-- ===== src/Runtime/Window.antt =====
-- `SchedulingWindow` of autellix/runtime/window.py: the policy's order is frozen for a number of
-- decode steps, with resident reserves that refill the batch. The trace events are left out.
pub mod Invariant
pub mod Priority
pub mod Online
use autellix.Prelude.{
  ℕ, zero, suc, ◌+◌, ◌-◌, ◌≡◌, ◌⊎◌, Bool, true, false, ◌||◌, List, [], ◌∷◌, ◌++◌, Option, none,
  some, Result, ok, err, ◌>>=◌, ◌>>◌, require, all, mem, filter, take, drop, ◌==◌, if◌then◌else◌,
  length,
}
use autellix.Prelude.Sort.{sort, lex_le}
use autellix.Prelude.Sets.{to_set, intersect, minus}

-- What the window uses of its controller: a refresh of the priorities, the sort key of a request,
-- and two numbers of its configuration.
pub record Controller : Type 1 where
  pub State : Type 0
  pub refresh : State → State
  pub key : State → ℕ → Option (ℕ × ℕ)
  pub schedule_interval : ℕ
  pub overprovision : ℕ

pub record Window : Type 0 where
  pub capacity : ℕ
  pub remaining : ℕ
  pub cohort : List ℕ
  pub active : List ℕ
  pub reserve : List ℕ

pub data WindowError : Type 0 where
  unknown_request : WindowError

-- `SchedulingWindow(controller, capacity)`.
abbrev pub new_window : ℕ → Window
new_window capacity = record {
  capacity = capacity;
  remaining = 0;
  cohort = [];
  active = [];
  reserve = [];
}

abbrev pub is_empty : List ℕ → Bool
is_empty [] = true
is_empty (_ ∷ _) = false

abbrev pub is_some : Option (ℕ × ℕ) → Bool
is_some none = false
is_some (some _) = true

abbrev pub key_le : Option (ℕ × ℕ) → Option (ℕ × ℕ) → Bool
key_le none q = true
key_le (some p) none = false
key_le (some p) (some q) = lex_le p q

-- The window with a new cohort, cut at the capacity.
abbrev pub with_cohort : Window → List ℕ → Window
with_cohort w cohort = record w {
  cohort = cohort;
  active = take w.capacity cohort;
  reserve = drop w.capacity cohort;
}

module _ (ctl : Controller) where
  open ctl use {State, refresh, key, schedule_interval, overprovision}

  pub record Selection : Type 0 where
    pub state : State
    pub window : Window
    pub chosen : List ℕ
    pub held : List ℕ

  -- The requests in the order of `ctl.key`; a request that the controller does not know raises.
  unfoldable pub sorted_by_key : State → List ℕ → Result WindowError (List ℕ)
  sorted_by_key s rids =
      if all (λ r. is_some (key s r)) rids
      then ok (sort (λ a b. key_le (key s a) (key s b)) rids)
      else err unknown_request

  abbrev pub selected : State → Window → List ℕ → Selection
  selected s w resident = record {
    state = s;
    window = w;
    chosen = w.active ++ minus w.reserve resident;
    held = intersect w.reserve resident;
  }

  -- The cohort of the last window, without the requests that are gone.
  abbrev pub survivors : Window → List ℕ → List ℕ
  survivors w available = filter (λ r. mem r available) w.cohort

  abbrev pub at_boundary : Window → List ℕ → Bool
  at_boundary w available = w.remaining == 0 || is_empty (survivors w available)

  abbrev pub fresh_cohort : State → Window → List ℕ → Result WindowError (List ℕ)
  fresh_cohort s w available = do
    sorted ← sorted_by_key (refresh s) (to_set available)
    ok (take (w.capacity + overprovision) sorted)

  abbrev pub nothing_selected : State → Window → Selection
  nothing_selected s w = record {
    state = s;
    window = record w { cohort = []; active = []; reserve = []; remaining = 0 };
    chosen = [];
    held = [];
  }

  unfoldable pub select : State → Window → List ℕ → List ℕ → Result WindowError Selection
  select s w [] resident = ok (nothing_selected s w)
  select s w (r ∷ rs) resident =
      let available = r ∷ rs in
      if at_boundary w available
      then (do
        cohort ← fresh_cohort s w available
        ok (
            selected (refresh s) (with_cohort (record w { remaining = schedule_interval }) cohort)
              resident))
      else ok (selected s (with_cohort w (survivors w available)) resident)

unfoldable pub executed : Bool → Window → Window
executed true w = w
executed false w = record w { remaining = w.remaining - 1 }

unfoldable pub drop_reserve : Window → Window
drop_reserve w = record w { cohort = take w.capacity w.cohort; reserve = [] }

unfoldable pub retain_prefix : ℕ → Window → Window
retain_prefix length w = with_cohort w (take length w.cohort)
