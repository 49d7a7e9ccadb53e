-- ===== src/Runtime/Samples/Policies.antt =====
-- Runs of autellix/runtime/policy.py on small tables and schedulers.
use autellix.Prelude.{ℕ, ◌+◌, ◌*◌, ◌<◌, ◌≡◌, ◌⊎◌, refl, false, [], ◌∷◌, none, some, ok, max, arith}
use autellix.Prelude.Dict.{lookup}
use autellix.Prelude.Float.{whole}
use autellix.Runtime.Config.{check, queue, default_config, atlas}
use autellix.Runtime.Config.Bracket.{Brackets, queue-Brackets}
use autellix.Runtime.Table
use autellix.Runtime.Table.Rows.{
  Table, ProgramRow, RuntimeCall, empty_table, fresh_program, add_active,
}
use autellix.Runtime.Table.Invariant.{IsConsistent, admit-IsConsistent, finish-IsConsistent}
use autellix.Runtime.Table.Accounting.{finish-charges}
use autellix.Runtime.Scheduler
use autellix.Runtime.Scheduler.{Scheduler, new_call, SchedulerError, bad_seconds}
use autellix.Runtime.Scheduler.Order.{IsValid, refresh-IsValid, admit-IsValid}
use autellix.Runtime.Scheduler.Service.{
  KeepsLifetime, refresh-KeepsLifetime, refresh-unstarved, executed-charges,
}

default_config-check : check default_config ≡ ok tt
unfolding check
default_config-check = refl

default_queue : queue default_config 50_000_000 ≡ some 2
unfolding queue
default_queue = refl

queue-Brackets_example :
    (q : ℕ) × (queue default_config 50_000_000 ≡ some q) × Brackets default_config 50_000_000 q
queue-Brackets_example = queue-Brackets default_config 50_000_000 default_config-check

-- Program 1 has used 100 ms, and its request 10 is open.
abbrev pub used_row : ProgramRow
used_row = record (add_active fresh_program) { service = 100_000_000 }

abbrev pub busy_table : Table
busy_table = record empty_table { programs = (1, used_row) ∷ []; requests = (10, 1) ∷ [] }

busy_table-IsConsistent : IsConsistent busy_table
busy_table-IsConsistent = record {
  counted = λ p. ground arith;
  distinct = λ r. ground arith;
  settled = λ p. ground arith;
}

finish-IsConsistent_example :
    IsConsistent (Table.finish 1 10 100_000_000 30_000_000 5 atlas busy_table)
finish-IsConsistent_example =
    finish-IsConsistent 1 10 100_000_000 30_000_000 5 atlas busy_table busy_table-IsConsistent

admit-IsConsistent_example : IsConsistent (record busy_table {
  programs = (1, add_active used_row) ∷ [];
  requests = (10, 1) ∷ (11, 1) ∷ [];
})
unfolding Table.admit
admit-IsConsistent_example =
    admit-IsConsistent 1 11 busy_table _ 100_000_000 0 busy_table-IsConsistent refl

finish-charges_example :
    lookup 1 (Table.finish 1 10 100_000_000 30_000_000 5 atlas busy_table).programs
    ≡ some (record fresh_program { service = 130_000_000; wait = 5 })
finish-charges_example =
    (finish-charges 1 10 100_000_000 30_000_000 5 atlas busy_table used_row refl refl).0

-- A scheduler in which request 10 has waited for a second since time 0.
abbrev waiting_call : RuntimeCall
waiting_call = record {
  rid = 10;
  pid = 1;
  inherited = 100_000_000;
  queue = 3;
  order = 1;
  quantum = whole 80_000_000;
  last_update = 0;
  executed = 30_000_000;
  waited = 0;
  run_window = 30_000_000;
  wait_window = 0;
  scheduled = false;
  metadata = none;
}

abbrev pub busy : Scheduler
busy = record {
  table = busy_table;
  config = default_config;
  calls = (10, waiting_call) ∷ [];
  counter = 1;
}

pub busy-IsValid : IsValid busy
busy-IsValid = record {
  distinct = λ x. ground arith;
  named = λ k c e. ground arith;
  in_range = λ k c e. ground arith;
  bounded = λ k c e. ground arith;
  untied = λ i j a b e f g. ground arith;
}

refresh-IsValid_example : IsValid (Scheduler.refresh 1_000_000_000 busy)
refresh-IsValid_example = refresh-IsValid 1_000_000_000 busy busy-IsValid

refresh-KeepsLifetime_example :
    (d : RuntimeCall) × (lookup 10 (Scheduler.refresh 1_000_000_000 busy).calls ≡ some d)
    × KeepsLifetime 1_000_000_000 waiting_call d
refresh-KeepsLifetime_example =
    refresh-KeepsLifetime 1_000_000_000 10 busy waiting_call busy-IsValid.distinct refl

refresh-unstarved_example :
    (d : RuntimeCall) × (lookup 10 (Scheduler.refresh 1_000_000_000 busy).calls ≡ some d)
    × let (service, wait) : ℕ × ℕ = elim (lookup d.pid (Table.snapshot busy_table)) [
      | none ↦ (0, 0)
      | some p ↦ p
    ] in
      (d.queue ≡ 0)
      ⊎ ((wait + d.wait_window) * 1_000_000_000 < 8_000_000_000 * max 1 (service + d.run_window))
refresh-unstarved_example =
    refresh-unstarved 1_000_000_000 10 busy waiting_call 8_000_000_000 busy-IsValid.distinct refl
      (λ e. cc) refl

admit-IsValid_example : IsValid (record busy {
  table = (record busy_table {
    programs = (1, add_active used_row) ∷ [];
    requests = (10, 1) ∷ (11, 1) ∷ [];
  });
  counter = 2;
  calls = (10, waiting_call) ∷ (11, new_call 11 1 none 5 busy 100_000_000 3) ∷ [];
})
unfolding Scheduler.admit Table.admit queue
admit-IsValid_example = admit-IsValid 11 1 none 5 busy _ default_config-check busy-IsValid refl

executed-charges_example : (Scheduler.executed (10 ∷ []) (whole 7) 9 busy).1 ≡ ok tt
executed-charges_example = (executed-charges (10 ∷ []) 7 9 busy (λ x. ground arith) (refl, tt)).0
