-- ===== src/Core/Policy/Completion.antt =====
-- `demote` and `complete_call` of autellix/core/schedulers.py.
use autellix.Prelude.{
  ℕ, ◌+◌, ◌≤◌, ◌<◌, ◌≡◌, refl, true, false, List, [], ◌∷◌, some, ok, length, arith, mem,
  if◌then◌else◌, ◌==◌, ==_iff,
}
use autellix.Prelude.Dict.{lookup, insert, lookup-insert}
use autellix.Core.State.{CallState, CallStatus, EngineState, ProcessEntry, add, discard}
use autellix.Core.Policy.{
  Scheduler, Kind, mlfq, atlas, atlas_dag, round_robin, srpt, check, queue_count, Store,
  update_service_time, service_after, complete_call, demoted, demoted_index, demote, demote_known,
  completed_entry,
}
use autellix.Core.Policy.Service.{IsQueued, pushed-workload, pushed-queue_at, quantum_at-positive}

pub demoted_index-lt :
    (k : Kind) (s : Scheduler) (c : CallState)
    → 0 < queue_count s
    → demoted_index k s c < queue_count s
unfolding demoted_index
demoted_index-lt round_robin s c h = h
demoted_index-lt srpt s c h = h
demoted_index-lt _ s c h = omega arith

-- `demote` of a known call that left its queue succeeds, under a checked configuration and on an
-- engine with a queue for each quantum: the call is back in one of the queues with a fresh quantum,
-- and every other call is in every queue as often as before.
pub demote-IsQueued :
    (r : ℕ) (st : Store) (e : EngineState) (c : CallState)
    → check st.scheduler ≡ ok tt
    → 0 < queue_count st.scheduler
    → length e.queues ≡ queue_count st.scheduler
    → lookup r st.calls ≡ some c
    → (after : Store) × (f : EngineState) × (demote r st e ≡ ok (after, f)) × IsQueued r e f after
unfolding demote demoted
demote-IsQueued r st e c valid some_queue queues p =
    let s = st.scheduler in
    let d : CallState = demoted s c in
    let low = demoted_index-lt s.kind s c some_queue in
    let (more, same) =
      pushed-workload s (insert r d st.calls) r d.queue_index e (omega (arith, low, queues)) in
    let known = demote_known r st e c in
    (
      known.0,
      known.1,
      rw p refl,
      record {
        call = d;
        stored = ground (arith, lookup-insert r r d st.calls);
        queued = low;
        quantum = quantum_at-positive s d.queue_index valid low;
        placed = λ j x.
            pushed-queue_at s (insert r d st.calls) r d.queue_index e j x
              (omega (arith, low, queues));
        running = refl;
        prefetched = refl;
        more = more;
        queues = same;
      },
    )

mem-discard : (x y : ℕ) (xs : List ℕ) → mem y (discard x xs) ≡ (if x == y then false else mem y xs)
mem-discard x y [] = ground arith
mem-discard x y (z ∷ zs) = ground (arith, mem-discard x y zs, ==_iff x y, ==_iff z x, ==_iff z y)

mem-add : (x y : ℕ) (xs : List ℕ) → mem y (add x xs) ≡ (if x == y then true else mem y xs)
mem-add x y xs = ground (arith, ==_iff x y)

service_after-le : (k : Kind) (c : CallState) (n : ℕ) → n ≤ service_after k c n
unfolding service_after
service_after-le mlfq c n = omega arith
service_after-le atlas c n = omega arith
service_after-le atlas_dag c n = omega arith
service_after-le _ c n = omega arith

-- A program's entry when one of its calls has completed.
pub record Completed (c : CallState) (before after : ProcessEntry) : Type 0 where
  pub active :
      (x : ℕ)
      → mem x after.active_call_ids
        ≡ (if c.spec.call_id == x then false else mem x before.active_call_ids)
  pub completed :
      (x : ℕ)
      → mem x after.completed_call_ids
        ≡ (if c.spec.call_id == x then true else mem x before.completed_call_ids)
  pub waited : after.waiting_time ≡ before.waiting_time + c.wait_time
  pub served : before.service_time ≤ after.service_time
  pub home : after.engine_id ≡ before.engine_id

completed_entry-Completed :
    (s : Scheduler) (c : CallState) (time : ℕ) (entry : ProcessEntry)
    → Completed c entry (completed_entry s c time entry)
unfolding update_service_time
completed_entry-Completed s c time entry = record {
  active = λ x. mem-discard c.spec.call_id x entry.active_call_ids;
  completed = λ x. mem-add c.spec.call_id x entry.completed_call_ids;
  waited = refl;
  served = service_after-le s.kind c entry.service_time;
  home = refl;
}

-- `complete_call` of a known call of a known program succeeds. The call is finished
-- at the given time; in its program's entry it moves from the active to the completed calls, its
-- wait is added to the program's, and the service does not fall; all other calls and programs are
-- kept.
pub complete_call-Completed :
    (r time : ℕ) (st : Store) (c : CallState) (entry : ProcessEntry)
    → lookup r st.calls ≡ some c
    → lookup c.spec.program_id st.processes ≡ some entry
    → (after : Store) × (new : ProcessEntry) × (complete_call r time st ≡ ok after)
      × Completed c entry new
      × ((q : ℕ)
          → lookup q after.calls ≡ (
              if r == q
              then some (record c { status = CallStatus.finished; finish_time = some time })
              else lookup q st.calls))
      × ((pid : ℕ)
          → lookup pid after.processes
            ≡ (if c.spec.program_id == pid then some new else lookup pid st.processes))
unfolding complete_call
complete_call-Completed r time st c entry p q =
    let done : CallState = record c { status = CallStatus.finished; finish_time = some time } in
    let new : ProcessEntry = completed_entry st.scheduler c time entry in
    let pid = c.spec.program_id in
    (
      record st { calls = insert r done st.calls; processes = insert pid new st.processes },
      new,
      rw (p, q) refl,
      completed_entry-Completed st.scheduler c time entry,
      λ k. lookup-insert r k done st.calls,
      λ k. lookup-insert pid k new st.processes,
    )
