-- ===== src/Core/Policy.antt =====
-- The scheduler classes of autellix/core/schedulers.py: where a call is queued, what it is charged
-- and what its completion does to its program.
pub mod Service
pub mod Completion
use autellix.Prelude.{
  ℕ, suc, ◌+◌, ◌-◌, min, max, Bool, true, false, not, ◌&&◌, List, [], ◌∷◌, ◌++◌, Option, none, some,
  Result, ok, err, ◌>>=◌, ◌>>◌, require, or_fail, length, all, modify, get_or, ◌==◌, ltb,
  if◌then◌else◌,
}
use autellix.Prelude.Dict.{Dict, lookup, insert, update}
use autellix.Prelude.Float.{Float, inf, fin, whole, lt, le, is_nonpos, is_zero, minus}
use autellix.Prelude.Int.{ℤ, pos, ltb_ℤ}
use autellix.Prelude.Sort.{sort, lex_le}
use autellix.Core.State.{
  CallState, CallStatus, EngineState, ProcessEntry, ThreadMetadata, add, discard, is_positive,
}

pub data Kind : Type 0 where
  fcfs mlfq plas atlas atlas_dag round_robin srpt : Kind

pub record Scheduler : Type 0 where
  pub kind : Kind
  pub priority_boundaries : List Float
  pub queue_quanta : List ℤ
  pub anti_starvation_beta : Float
  pub preemptive : Bool
  pub counter : ℕ
  pub remaining_by_program : Dict ℕ

pub data SchedulerError : Type 0 where
  bad_boundaries bad_start bad_quanta bad_beta unknown_call unknown_program not_queued no_queue :
      SchedulerError

abbrev first_is_zero : List Float → Bool
first_is_zero [] = false
first_is_zero (b ∷ bs) = is_zero b

-- `__post_init__`.
unfoldable pub check : Scheduler → Result SchedulerError (Unit {0})
check s = do
  require (length s.priority_boundaries == length s.queue_quanta + 1) bad_boundaries
  require (first_is_zero s.priority_boundaries) bad_start
  require (all is_positive s.queue_quanta) bad_quanta
  require (not (le s.anti_starvation_beta (whole 0))) bad_beta

-- `queue_count`.
abbrev pub queue_count : Scheduler → ℕ
queue_count s = length s.queue_quanta

-- `remaining.get(call.program_id, call.remaining_time)`.
abbrev pub known_remaining : Scheduler → CallState → ℕ
known_remaining s c = elim (lookup c.spec.program_id s.remaining_by_program) [
  | none ↦ c.remaining_time
  | some n ↦ n
]

priority_of : Kind → Scheduler → CallState → ProcessEntry → ℕ
priority_of mlfq s c entry = 0
priority_of atlas_dag s c entry = c.critical_path_service
priority_of srpt s c entry = known_remaining s c
priority_of _ s c entry = entry.service_time

-- `priority_for_call`.
unfoldable pub priority_for_call : Scheduler → CallState → ProcessEntry → ℕ
unfolding priority_of
priority_for_call s c entry = priority_of s.kind s c entry

-- The loop of `assign_queue_index`: the first bracket from the one at `lo` that holds `p`.
unfoldable pub bracket_from : ℕ → ℕ → Float → List Float → Option ℕ
bracket_from i p lo [] = none
bracket_from i p lo (hi ∷ bs) =
    if le lo (whole p) && lt (whole p) hi then some i else bracket_from (suc i) p hi bs

bracket : ℕ → List Float → Option ℕ
unfolding bracket_from
bracket p [] = none
bracket p (lo ∷ bs) = bracket_from 0 p lo bs

searched_index : Scheduler → ℕ → ℕ
unfolding bracket
searched_index s p = elim (bracket p s.priority_boundaries) [
  | none ↦ queue_count s - 1
  | some i ↦ i
]

-- `assign_queue_index`, overridden in two classes.
unfoldable pub assign_queue_index : Scheduler → ℕ → ℕ
unfolding searched_index
assign_queue_index s p = elim s.kind [ fcfs ↦ 0 | round_robin ↦ 0 | _ ↦ searched_index s p ]

-- A checked engine has a queue for each quantum, so the index is in range.
abbrev pub quantum_at : Scheduler → ℕ → Float
quantum_at s i = fin (get_or s.queue_quanta i (pos 0))

-- `_sort_queue`'s key: the remaining time of the program, the ready time, and the call's names.
abbrev pub sort_key : Scheduler → CallState → (ℕ × ℕ) × (ℕ × ℕ)
sort_key s c = (
  (known_remaining s c, elim c.ready_time [ none ↦ 0 | some t ↦ t ]),
  (c.spec.program_id, c.spec.call_id),
)

abbrev pub key_le : (ℕ × ℕ) × (ℕ × ℕ) → (ℕ × ℕ) × (ℕ × ℕ) → Bool
key_le (a, b) (c, d) = if lex_le a c then (if lex_le c a then lex_le b d else true) else false

-- `_sort_queue`. Numbers that name no call go last.
abbrev pub call_le : Scheduler → Dict CallState → ℕ → ℕ → Bool
call_le s calls r q = elim (lookup r calls) [
  | none ↦ elim (lookup q calls) [ none ↦ true | some d ↦ false ]
  | some c ↦ elim (lookup q calls) [ none ↦ true | some d ↦ key_le (sort_key s c) (sort_key s d) ]
]

unfoldable pub sort_queue : Scheduler → Dict CallState → List (List ℕ) → List (List ℕ)
sort_queue s calls queues = elim s.kind [
  | srpt ↦ modify queues 0 (sort (call_le s calls))
  | _ ↦ queues
]

pub record Store : Type 0 where
  pub calls : Dict CallState
  pub processes : Dict ProcessEntry
  pub scheduler : Scheduler

abbrev pub queued_state : Scheduler → ProcessEntry → ℕ → ℕ → CallState → CallState
queued_state s entry engine_id time c =
    let p = priority_for_call s c entry in
    let i = assign_queue_index s p in
    record c {
      ready_time = some time;
      engine_id = some engine_id;
      status = CallStatus.queued;
      service_priority = p;
      queue_index = i;
      max_queue_index = max c.max_queue_index i;
      quantum_remaining = quantum_at s i;
      queue_order = suc s.counter;
    }

abbrev pub thread_of : CallState → ℕ → ℕ → ThreadMetadata
thread_of c engine_id time = record {
  arrival_time = time;
  engine_id = engine_id;
  queue_index = c.queue_index;
  wait_time = 0;
  service_time = 0;
  critical_path_service = c.critical_path_service;
  finish_time = none;
}

abbrev pub arrived : CallState → ℕ → ℕ → ProcessEntry → ProcessEntry
arrived c engine_id time entry = record entry {
  active_call_ids = add c.spec.call_id entry.active_call_ids;
  last_arrival = some time;
  thread_metadata = insert c.spec.call_id (thread_of c engine_id time) entry.thread_metadata;
}

-- `enqueue`, with the sort that SRPT adds, for a known call of a known program.
abbrev pub enqueue_known :
    ℕ → ℕ → Store → EngineState → CallState → ProcessEntry → Store × EngineState
enqueue_known r time st e c entry =
    let s = st.scheduler in
    let d : CallState = queued_state s entry e.engine_id time c in
    let calls = insert r d st.calls in
    (
      record {
        calls = calls;
        processes = update c.spec.program_id (arrived d e.engine_id time) st.processes;
        scheduler = record s { counter = suc s.counter };
      },
      record e { queues = sort_queue s calls (modify e.queues d.queue_index (λ q. q ++ (r ∷ []))) },
    )

unfoldable pub enqueue : ℕ → ℕ → Store → EngineState → Result SchedulerError (Store × EngineState)
enqueue r time st e = do
  c ← or_fail (lookup r st.calls) unknown_call
  entry ← or_fail (lookup c.spec.program_id st.processes) unknown_program
  ok (enqueue_known r time st e c entry)

-- `should_preempt`.
unfoldable pub should_preempt : Scheduler → CallState → Bool
should_preempt s c = s.preemptive && is_nonpos c.quantum_remaining

unfoldable pub service_after : Kind → CallState → ℕ → ℕ
service_after mlfq c service = service
service_after atlas c service = max service (c.service_priority + c.model_time)
service_after atlas_dag c service = max service (c.service_priority + c.model_time)
service_after _ c service = service + c.model_time

-- `update_service_time`.
unfoldable pub update_service_time : Scheduler → CallState → ProcessEntry → ProcessEntry
unfolding service_after
update_service_time s c entry = record entry {
  service_time = service_after s.kind c entry.service_time;
}

abbrev pub completed_thread : CallState → ℕ → ThreadMetadata → ThreadMetadata
completed_thread c time meta = record meta {
  wait_time = c.wait_time;
  service_time = c.model_time;
  finish_time = some time;
  queue_index = c.queue_index;
}

abbrev pub completed_entry : Scheduler → CallState → ℕ → ProcessEntry → ProcessEntry
completed_entry s c time entry =
    let served : ProcessEntry = update_service_time s c entry in
    record served {
      active_call_ids = discard c.spec.call_id entry.active_call_ids;
      completed_call_ids = add c.spec.call_id entry.completed_call_ids;
      completed_engine_ids = elim c.engine_id [
        | none ↦ entry.completed_engine_ids
        | some i ↦ add i entry.completed_engine_ids
      ];
      waiting_time = entry.waiting_time + c.wait_time;
      last_completion = some time;
      thread_metadata = update c.spec.call_id (completed_thread c time) entry.thread_metadata;
    }

-- `complete_call`.
unfoldable pub complete_call : ℕ → ℕ → Store → Result SchedulerError Store
unfolding update_service_time
complete_call r time st = do
  c ← or_fail (lookup r st.calls) unknown_call
  entry ← or_fail (lookup c.spec.program_id st.processes) unknown_program
  ok (record st {
    calls = insert r (record c { status = CallStatus.finished; finish_time = some time }) st.calls;
    processes = insert c.spec.program_id (completed_entry st.scheduler c time entry) st.processes;
  })

-- The queue after a demotion: the next one, except under the classes that keep one queue.
unfoldable pub demoted_index : Kind → Scheduler → CallState → ℕ
demoted_index round_robin s c = 0
demoted_index srpt s c = 0
demoted_index _ s c = min (c.queue_index + 1) (queue_count s - 1)

demoted_max : Kind → CallState → ℕ → ℕ
demoted_max round_robin c i = c.max_queue_index
demoted_max srpt c i = c.max_queue_index
demoted_max _ c i = max c.max_queue_index i

-- SRPT does not move a demoted call to the tail by number; it sorts.
demoted_order : Kind → CallState → ℕ → ℕ
demoted_order srpt c counter = c.queue_order
demoted_order _ c counter = suc counter

unfoldable pub demoted_counter : Kind → ℕ → ℕ
demoted_counter srpt counter = counter
demoted_counter _ counter = suc counter

unfoldable pub demoted : Scheduler → CallState → CallState
unfolding demoted_index demoted_max demoted_order
demoted s c =
    let i = demoted_index s.kind s c in
    record c {
      status = CallStatus.queued;
      queue_index = i;
      max_queue_index = demoted_max s.kind c i;
      quantum_remaining = quantum_at s i;
      queue_order = demoted_order s.kind c s.counter;
    }

-- `demote` of each class, for a known call.
abbrev pub demote_known : ℕ → Store → EngineState → CallState → Store × EngineState
demote_known r st e c =
    let s = st.scheduler in
    let d : CallState = demoted s c in
    let calls = insert r d st.calls in
    (
      record st {
        calls = calls;
        scheduler = record s { counter = demoted_counter s.kind s.counter };
      },
      record e { queues = sort_queue s calls (modify e.queues d.queue_index (λ q. q ++ (r ∷ []))) },
    )

unfoldable pub demote : ℕ → Store → EngineState → Result SchedulerError (Store × EngineState)
demote r st e = do c ← or_fail (lookup r st.calls) unknown_call; ok (demote_known r st e c)
