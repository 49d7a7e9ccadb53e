-- ===== src/Runtime/Scheduler/Calls.antt =====
-- What `RuntimeScheduler` of autellix/runtime/policy.py does to one call.
use autellix.Prelude.{
  ℕ, suc, ◌+◌, ◌-◌, min, Bool, false, not, ◌&&◌, Option, none, some, ◌==◌, if◌then◌else◌,
}
use autellix.Prelude.Dict.{Dict, lookup}
use autellix.Prelude.Float.{is_nonpos, minus, ratio_reaches}
use autellix.Prelude.Sort.{lex_le}
use autellix.Runtime.Config.{PolicyConfig, Policy, fcfs, mlfq, quantum_at, last_queue}
use autellix.Runtime.Table.Rows.{RuntimeCall, Context, ActivityState, running, waiting}

abbrev pub call_key : RuntimeCall → ℕ × ℕ
call_key c = (c.queue, c.order)

-- `key=lambda c: (c.queue, c.order)`.
abbrev pub entry_le : ℕ × RuntimeCall → ℕ × RuntimeCall → Bool
entry_le a b = lex_le (call_key a.1) (call_key b.1)

-- `_wait_until`; the subtraction of ℕ is the source's `max(0., …)`.
unfoldable pub wait_until : ℕ → RuntimeCall → RuntimeCall
wait_until now c = if c.scheduled then record c { last_update = now } else record c {
  waited = c.waited + (now - c.last_update);
  wait_window = c.wait_window + (now - c.last_update);
  last_update = now;
}

-- `totals.get(call.pid, (0., 0.))`, and zeros under MLFQ.
abbrev pub program_totals : Policy → Dict (ℕ × ℕ) → ℕ → ℕ × ℕ
program_totals mlfq totals pid = (0, 0)
program_totals _ totals pid = elim (lookup pid totals) [ none ↦ (0, 0) | some p ↦ p ]

unfoldable pub starves : PolicyConfig → Dict (ℕ × ℕ) → RuntimeCall → Bool
unfolding ratio_reaches
starves config totals c =
    let (service, wait) = program_totals config.policy totals c.pid in
    not (c.queue == 0) && ratio_reaches (wait + c.wait_window) (service + c.run_window) config.beta

-- A counter and the call, after the demotion at the end of a quantum.
unfoldable pub demote : PolicyConfig → ℕ → RuntimeCall → ℕ × RuntimeCall
demote config counter c =
    if is_nonpos c.quantum
    then (let q = min (suc c.queue) (last_queue config) in
        (suc counter, record c { queue = q; quantum = quantum_at config q; order = suc counter }))
    else (counter, c)

-- The anti-starvation promotion.
unfoldable pub promote : PolicyConfig → Dict (ℕ × ℕ) → ℕ → RuntimeCall → ℕ × RuntimeCall
promote config totals counter c =
    if starves config totals c
    then (
      suc counter,
      record c {
        queue = 0;
        quantum = quantum_at config 0;
        wait_window = 0;
        run_window = 0;
        order = suc counter;
      },
    )
    else (counter, c)

-- The body of the loop of `refresh`.
unfoldable pub refresh_call : PolicyConfig → Dict (ℕ × ℕ) → ℕ → ℕ → RuntimeCall → ℕ × RuntimeCall
refresh_call config totals now counter call =
    let c = wait_until now call in
    elim config.policy [
      | fcfs ↦ (counter, c)
      | _ ↦ let (counter', c') = demote config counter c in promote config totals counter' c'
    ]

-- The body of the loop of `executed`.
unfoldable pub charge_call : ℕ → ℕ → RuntimeCall → RuntimeCall
charge_call seconds now c = record c {
  executed = c.executed + seconds;
  run_window = c.run_window + seconds;
  quantum = minus c.quantum seconds;
  scheduled = false;
  last_update = now;
}

abbrev request_id : RuntimeCall → Option Context → ℕ
request_id c none = c.rid
request_id c (some m) = elim m.request_id [ none ↦ c.rid | some r ↦ r ]

-- The row that `_publish` writes for a call.
abbrev pub pending_row : RuntimeCall → ℕ × ℕ × ℕ × ActivityState
pending_row c =
    (request_id c c.metadata, c.waited, c.executed, (if c.scheduled then running else waiting))
