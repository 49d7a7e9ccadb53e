-- ===== src/Runtime/Scheduler.antt =====
-- `RuntimeScheduler` of autellix/runtime/policy.py, the online scheduler of Algorithm 1. Each
-- reading of the clock is an argument `now`, and what the trace file receives is left out.
pub mod Calls
pub mod Loop
pub mod Order
pub mod Service
use autellix.Prelude.{
  ℕ, zero, suc, ◌+◌, ◌-◌, ◌*◌, min, max, ◌≡◌, Bool, true, false, not, ◌&&◌, List, [], ◌∷◌, map,
  Option, none, some, Result, ok, err, ◌>>=◌, ◌>>◌, require, or_fail, ◌==◌, leb, if◌then◌else◌, mem,
}
use autellix.Prelude.Dict.{Dict, lookup, insert, erase, update, has_key, keys, values}
use autellix.Prelude.Float.{Float, fin, whole, nan, inf, neg_inf, is_finite, is_nonpos, lt}
use autellix.Prelude.Int.{pos, negsuc}
use autellix.Prelude.Sort.{sort, lex_le}
use autellix.Runtime.Config
use autellix.Runtime.Config.{PolicyConfig, Policy, fcfs, mlfq, plas, atlas, unknown, queue}
use autellix.Runtime.Table
use autellix.Runtime.Table.Rows.{
  RuntimeCall, Context, Metrics, Table, TableError, ActivityState, running, waiting,
}
use Calls.{call_key, wait_until, refresh_call, charge_call, pending_row, entry_le}

pub record Scheduler : Type 0 where
  pub table : Table
  pub config : PolicyConfig
  pub calls : Dict RuntimeCall
  pub counter : ℕ

pub data SchedulerError : Type 0 where
  duplicate_request unknown_request : ℕ → SchedulerError
  table_error : TableError → SchedulerError
  no_queue bad_seconds : SchedulerError

abbrev lift {ℓ} : {A : Type ℓ} → Result TableError A → Result SchedulerError A
lift (ok a) = ok a
lift (err e) = err (table_error e)

-- What a new call inherits from its program, by policy.
abbrev pub initial_service : Policy → ℕ → ℕ
initial_service plas service = service
initial_service atlas service = service
initial_service _ service = 0

-- `RuntimeCall(…)`, at the counter's next value.
abbrev pub new_call : ℕ → ℕ → Option Context → ℕ → Scheduler → ℕ → ℕ → RuntimeCall
new_call rid pid metadata now s initial q = record {
  rid = rid;
  pid = pid;
  inherited = initial;
  queue = q;
  order = suc s.counter;
  quantum = Config.quantum_at s.config q;
  last_update = now;
  executed = 0;
  waited = 0;
  run_window = 0;
  wait_window = 0;
  scheduled = false;
  metadata = metadata;
}

unfoldable pub admit : ℕ → ℕ → Option Context → ℕ → Scheduler → Result SchedulerError Scheduler
admit rid pid metadata now s = do
  require (not (has_key rid s.calls)) (duplicate_request rid)
  admitted ← lift (Table.admit pid rid s.table)
  let initial = initial_service s.config.policy admitted.1
  q ← or_fail (queue s.config initial) no_queue
  ok (record s {
    table = admitted.0;
    counter = suc s.counter;
    calls = insert rid (new_call rid pid metadata now s initial q) s.calls;
  })

-- `_publish`.
unfoldable pub publish : List RuntimeCall → Table → Table
publish calls t = Table.update_activities (map pending_row calls) t

module _ (config : PolicyConfig) (totals : Dict (ℕ × ℕ)) (now : ℕ) where
  -- The loop of `refresh` over the sorted calls.
  pub refresh_loop : List (ℕ × RuntimeCall) → ℕ → Dict RuntimeCall → ℕ × Dict RuntimeCall
  refresh_loop [] counter calls = (counter, calls)
  refresh_loop ((rid, call) ∷ rest) counter calls =
      let (counter', call') = refresh_call config totals now counter call in
      refresh_loop rest counter' (update rid (λ _. call') calls)

unfoldable pub refresh : ℕ → Scheduler → Scheduler
refresh now s =
    let (counter, calls) =
      refresh_loop s.config (Table.snapshot s.table) now (sort entry_le s.calls) s.counter
        s.calls in
    record s { counter = counter; calls = calls; table = publish (values calls) s.table }

-- `key`; `none` is the KeyError.
unfoldable pub key : Scheduler → ℕ → Option (ℕ × ℕ)
key s rid = elim (lookup rid s.calls) [ none ↦ none | some c ↦ some (call_key c) ]

abbrev pub begin_call : ℕ → List ℕ → RuntimeCall → RuntimeCall
begin_call now rids c = record (wait_until now c) { scheduled = mem c.rid rids }

abbrev pub map_values {ℓ} : {V : Type ℓ} → (V → V) → Dict V → Dict V
map_values f [] = []
map_values f ((k, v) ∷ d) = (k, f v) ∷ map_values f d

unfoldable pub begin : List ℕ → ℕ → Scheduler → Scheduler
begin rids now s =
    let calls = map_values (begin_call now rids) s.calls in
    record s { calls = calls; table = publish (values calls) s.table }

-- The loop of `executed`, up to a request that is not known.
unfoldable pub charge_calls :
    ℕ → ℕ → List ℕ → Dict RuntimeCall → Dict RuntimeCall × Result SchedulerError (Unit {0})
charge_calls seconds now [] calls = (calls, ok tt)
charge_calls seconds now (rid ∷ rids) calls =
    let rest = charge_calls seconds now rids (update rid (charge_call seconds now) calls) in
    if has_key rid calls then rest else (calls, err (unknown_request rid))

abbrev executed_ns : Float → ℕ
executed_ns (fin (pos n)) = n
executed_ns _ = 0

abbrev get_calls : List ℕ → Dict RuntimeCall → List RuntimeCall
get_calls [] calls = []
get_calls (rid ∷ rids) calls = elim (lookup rid calls) [
  | none ↦ get_calls rids calls
  | some c ↦ c ∷ get_calls rids calls
]

-- `executed`: the new state also on the error paths.
unfoldable pub executed :
    List ℕ → Float → ℕ → Scheduler → Scheduler × Result SchedulerError (Unit {0})
unfolding charge_calls
executed rids seconds now s =
    if is_finite seconds && not (lt seconds (whole 0))
    then (let (calls, result) = charge_calls (executed_ns seconds) now rids s.calls in
        elim result [
          | ok _ ↦
              (record s { calls = calls; table = publish (get_calls rids calls) s.table }, ok tt)
          | err e ↦ (record s { calls = calls }, err e)
        ])
    else (s, err bad_seconds)

-- `finish`; `none` is the empty dictionary for a call that is not known.
unfoldable pub finish : ℕ → ℕ → Scheduler → Scheduler × Option Metrics
finish rid now s = elim (lookup rid s.calls) [
  | none ↦ (s, none)
  | some call ↦
      let c = wait_until now call in
      (
        record s {
          calls = erase rid s.calls;
          table = Table.finish c.pid rid c.inherited c.executed c.waited s.config.policy s.table;
        },
        some c,
      )
]

finish_each : (ℕ → ℕ) → List ℕ → Scheduler → Scheduler
finish_each clock [] s = s
finish_each clock (rid ∷ rids) s = finish_each clock rids (finish rid (clock rid) s).0

-- `fail_all`, with the clock's reading for each call.
unfoldable pub fail_all : (ℕ → ℕ) → Scheduler → Scheduler
unfolding finish_each
fail_all clock s = finish_each clock (keys s.calls) s
