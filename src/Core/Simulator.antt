-- ===== src/Core/Simulator.antt =====
-- One tick of an engine in autellix/core/simulator.py, `Simulator._execute_one_tick`. The chart of
-- what ran is not kept.
pub mod Accounting
use autellix.Prelude.{
  ℕ, suc, ◌+◌, ◌-◌, Bool, true, false, ◌&&◌, ◌||◌, List, [], ◌∷◌, ◌++◌, Option, none, some, Result,
  ok, err, ◌>>=◌, ◌>>◌, or_fail, length, ◌==◌, if◌then◌else◌,
}
use autellix.Prelude.Dict.{Dict, lookup, insert, update}
use autellix.Prelude.Float.{minus}
use autellix.Core.State.{CallState, EngineState, discard, iter_queued}
use autellix.Core.Engine.{Scheduled, fill_from_prefetch}
use autellix.Core.Policy.{
  Kind, srpt, Scheduler, Store, SchedulerError, unknown_call, known_remaining, complete_call,
}

-- What a running call does in a tick, and whether it executed: it pays a swap first, then the
-- overhead of the scheduler. A running call has time left, so the subtraction does not stop at 0.
unfoldable pub tick_call : CallState → Bool × CallState
tick_call c =
    if c.swap_remaining == 0
    then (if c.scheduler_remaining == 0
        then (
          true,
          record c {
            remaining_time = c.remaining_time - 1;
            executed_time = c.executed_time + 1;
            run_time_window = c.run_time_window + 1;
            quantum_remaining = minus c.quantum_remaining 1;
          },
        )
        else (false, record c { scheduler_remaining = c.scheduler_remaining - 1 }))
    else (false, record c { swap_remaining = c.swap_remaining - 1 })

-- `on_tick_executed`, which only SRPT has.
unfoldable pub on_tick_executed : CallState → Scheduler → Scheduler
on_tick_executed c s = elim s.kind [
  | srpt ↦ record s {
    remaining_by_program =
        insert c.spec.program_id (known_remaining s c - 1) s.remaining_by_program;
  }
  | _ ↦ s
]

pub record Ticked : Type 0 where
  pub store : Store
  pub finished : List ℕ
  pub executed : Bool

-- The loop over the running calls.
unfoldable pub execute_loop : List ℕ → Store → Result SchedulerError Ticked
unfolding tick_call on_tick_executed
execute_loop [] st = ok (record { store = st; finished = []; executed = false })
execute_loop (r ∷ rs) st = do
  c ← or_fail (lookup r st.calls) unknown_call
  let p = tick_call c
  rest ← execute_loop rs (record st {
    calls = insert r p.1 st.calls;
    scheduler = if p.0 then on_tick_executed p.1 st.scheduler else st.scheduler;
  })
  ok (record rest {
    finished = if p.0 && p.1.remaining_time == 0 then r ∷ rest.finished else rest.finished;
    executed = p.0 || rest.executed;
  })

-- The loop over the finished calls. A call runs once, so all its places are dropped.
unfoldable pub complete_all :
    List ℕ → ℕ → Store → EngineState → Result SchedulerError (Store × EngineState)
complete_all [] time st e = ok (st, e)
complete_all (r ∷ rs) time st e = do
  next ← complete_call r time st
  complete_all rs time next (record e { running = discard r e.running })

abbrev pub waited : CallState → CallState
waited c = record c { wait_time = c.wait_time + 1; wait_time_window = c.wait_time_window + 1 }

-- `tick_queued_wait`, for the calls that wait.
unfoldable pub tick_wait : List ℕ → Dict CallState → Dict CallState
tick_wait [] calls = calls
tick_wait (r ∷ rs) calls = tick_wait rs (update r waited calls)

pub record Tick : Type 0 where
  pub store : Store
  pub engine : EngineState
  pub window_remaining : ℕ

-- The body of `_execute_one_tick` for one engine.
unfoldable pub execute_one_tick : ℕ → ℕ → Store → EngineState → Result SchedulerError Tick
unfolding execute_loop complete_all tick_wait
execute_one_tick time window_remaining st e = do
  t ← execute_loop e.running st
  q ← complete_all t.finished (time + 1) t.store (record e {
    total_slot_steps = e.total_slot_steps + e.batch_size;
    busy_slot_steps = e.busy_slot_steps + length e.running;
  })
  let calls = tick_wait (iter_queued q.1.queues ++ q.1.prefetched) q.0.calls
  let s = fill_from_prefetch (time + 1) calls q.1
  ok (record {
    store = record (q.0) { calls = s.calls };
    engine = s.engine;
    window_remaining = if t.executed then window_remaining - 1 else window_remaining;
  })
