-- ===== src/Core/Engine.antt =====
-- How `Scheduler` of autellix/core/schedulers.py moves calls between the queues of an engine, its
-- running batch and its prefetched calls.
pub mod Split
pub mod Load
pub mod Fill
use autellix.Prelude.{
  ℕ, zero, suc, ◌+◌, ◌-◌, List, [], ◌∷◌, ◌++◌, Option, none, some, length, ltb, if◌then◌else◌,
}
use autellix.Prelude.Dict.{Dict, update}
use autellix.Core.State.{CallState, CallStatus, EngineState}

abbrev pub started : ℕ → CallState → CallState
started time c = record c {
  status = CallStatus.running;
  start_time = elim c.start_time [ none ↦ some time | some t ↦ some t ];
}

abbrev pub reserved : CallState → CallState
reserved c = record c { status = CallStatus.prefetched }

-- What the store of calls and an engine become, and the calls that were moved, in order.
pub record Scheduled : Type 0 where
  pub calls : Dict CallState
  pub engine : EngineState
  pub chosen : List ℕ

-- `_pop_next_queued`: the first call of the first queue that has one.
unfoldable pub pop_next_queued : List (List ℕ) → Option (ℕ × List (List ℕ))
pop_next_queued [] = none
pop_next_queued ((r ∷ q) ∷ qs) = some (r, q ∷ qs)
pop_next_queued ([] ∷ qs) = elim (pop_next_queued qs) [
  | none ↦ none
  | some p ↦ some (p.0, [] ∷ p.1)
]

-- `start_call`.
unfoldable pub start_call : ℕ → ℕ → Dict CallState → EngineState → Dict CallState × EngineState
start_call r time calls e =
    (update r (started time) calls, record e { running = e.running ++ (r ∷ []) })

-- The body of the loop of `schedule`: a call is started while there are slots, else prefetched.
unfoldable pub place_call : ℕ → ℕ → Dict CallState → EngineState → Dict CallState × EngineState
unfolding start_call
place_call r time calls e =
    if ltb (length e.running) e.batch_size
    then start_call r time calls e
    else (update r reserved calls, record e { prefetched = e.prefetched ++ (r ∷ []) })

abbrev pub with_chosen : ℕ → Scheduled → Scheduled
with_chosen r s = record s { chosen = r ∷ s.chosen }

abbrev pub occupied : EngineState → ℕ
occupied e = length e.running + length e.prefetched

-- The loop of `schedule`, on fuel.
unfoldable pub schedule_loop : ℕ → ℕ → ℕ → Dict CallState → EngineState → Scheduled
unfolding pop_next_queued place_call
schedule_loop zero target time calls e = record { calls = calls; engine = e; chosen = [] }
schedule_loop (suc n) target time calls e =
    if ltb (occupied e) target
    then elim (pop_next_queued e.queues) [
      | none ↦ record { calls = calls; engine = e; chosen = [] }
      | some p ↦
          let q = place_call p.0 time calls (record e { queues = p.1 }) in
          with_chosen p.0 (schedule_loop n target time q.0 q.1)
    ]
    else record { calls = calls; engine = e; chosen = [] }

-- `schedule`; `target` is `target_slots`. A turn of the loop fills a slot, so it ends in `target`
-- turns.
unfoldable pub schedule : ℕ → ℕ → Dict CallState → EngineState → Scheduled
unfolding schedule_loop
schedule target time calls e = schedule_loop target target time calls e

-- `fill_from_prefetch`, for the prefetched calls that are left.
unfoldable pub fill_loop : List ℕ → ℕ → Dict CallState → EngineState → Scheduled
unfolding start_call
fill_loop [] time calls e = record {
  calls = calls;
  engine = record e { prefetched = [] };
  chosen = [];
}
fill_loop (r ∷ rest) time calls e =
    let q = start_call r time calls e in
    let next = fill_loop rest time q.0 q.1 in
    if ltb (length e.running) e.batch_size
    then with_chosen r next
    else record { calls = calls; engine = record e { prefetched = r ∷ rest }; chosen = [] }

unfoldable pub fill_from_prefetch : ℕ → Dict CallState → EngineState → Scheduled
unfolding fill_loop
fill_from_prefetch time calls e = fill_loop e.prefetched time calls e
