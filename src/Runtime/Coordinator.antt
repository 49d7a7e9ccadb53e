-- ===== src/Runtime/Coordinator.antt =====
-- `InferenceEngine` of autellix/runtime/engine.py, the coordinator of the replicas. The worker
-- processes, the threads and the queues between them are outside: what the coordinator sends is
-- appended to `sent`, and what it receives is the argument of `resolve` and `fail_replica`. Fresh
-- identifiers (uuid4) and readings of the clock are arguments. A call holds `self.lock`, so calls
-- are steps on the state.
pub mod State
pub mod Placement
pub mod Rejection
pub mod Balance
pub mod Settling
use autellix.Prelude.{
  ℕ, zero, suc, ◌+◌, ◌-◌, ◌≡◌, Bool, true, false, not, ◌&&◌, ◌||◌, List, [], ◌∷◌, ◌++◌, map, Option,
  none, some, Result, ok, err, ◌>>=◌, ◌>>◌, require, or_fail, ◌==◌, ltb, leb, if◌then◌else◌, mem,
  any, all, length, get_or, modify, filter,
}
use autellix.Prelude.Dict.{Dict, lookup, insert, erase, update, has_key, keys}
use autellix.Prelude.Int.{ℤ, pos, negsuc}
use autellix.Prelude.Sort.{lex_le}
use autellix.Runtime.Config.{Policy}
use autellix.Runtime.Table
use autellix.Runtime.Table.Rows.{Table, TableError, Context}
use State.{
  Backend, vllm, sglang, Session, Item, Future, FutureState, waiting, cancelled, finished, failed,
  Command, add_call, cancel_call, tokenize_call, Coordinator, CoordinatorError, engine_closed,
  table_error, session_not_open, duplicate_call, no_healthy_replicas, bad_tokens, Event, new_future,
  is_done, progress, tokenized, result, error, cancel_ack, update_future,
}

abbrev lift {ℓ} : {A : Type ℓ} → Result TableError A → Result CoordinatorError A
lift (ok a) = ok a
lift (err e) = err (table_error e)

-- `start_session`, with the program's identifier as given or as made up.
unfoldable pub start_session : ℕ → Coordinator → Result CoordinatorError Coordinator
start_session pid c = do
  require (not c.closed) engine_closed
  table ← lift (Table.open_program pid c.table)
  ok (record c {
    table = table;
    sessions = insert pid (record { closing = false; engine = none; calls = [] }) c.sessions;
  })

abbrev pub has_pending : ℕ → Dict Item → Bool
has_pending pid pending = any (λ (e : ℕ × Item). e.1.pid == pid) pending

abbrev pub is_closing : ℕ → Dict Session → Bool
is_closing pid sessions = elim (lookup pid sessions) [ none ↦ false | some s ↦ s.closing ]

unfoldable pub cleanup_session : ℕ → Coordinator → Coordinator
cleanup_session pid c =
    if is_closing pid c.sessions && not (has_pending pid c.pending)
    then record c { table = Table.end_program pid c.table; sessions = erase pid c.sessions }
    else c

unfoldable pub end_session : ℕ → Coordinator → Coordinator
unfolding cleanup_session
end_session pid c =
    if has_key pid c.sessions
    then cleanup_session pid
        (record c { sessions = update pid (λ s. record s { closing = true }) c.sessions })
    else c

-- `[i for i in range(len(self.replicas)) if i not in self.failed]`, from replica `i` on.
abbrev pub healthy_from : ℕ → List Backend → List ℕ → List ℕ
healthy_from i [] broken = []
healthy_from i (b ∷ bs) broken =
    let rest = healthy_from (suc i) bs broken in if mem i broken then rest else i ∷ rest

abbrev pub healthy : Coordinator → List ℕ
healthy c = healthy_from 0 c.backends c.failures

-- `min(available, key=lambda i: (self.loads[i], i))`, with `i` the least so far.
abbrev pub least_loaded : List ℕ → ℕ → List ℕ → ℕ
least_loaded loads i [] = i
least_loaded loads i (j ∷ js) =
    least_loaded loads (if lex_le (get_or loads i 0, i) (get_or loads j 0, j) then i else j) js

-- The replica for a prompt, and the session's engine afterwards.
unfoldable pub choose : Bool → ℕ → List ℕ → Option ℕ → ℕ × Option ℕ
choose false least available engine = (least, engine)
choose true least available none = (least, some least)
choose true least available (some e) = if mem e available then (e, some e) else (least, some least)

unfoldable pub place : ℕ → List ℕ → ℕ → ℕ → List ℕ → Option ℕ → ℕ × Option ℕ
unfolding choose
place threshold loads size first others engine =
    choose (ltb threshold size) (least_loaded loads first others) (first ∷ others) engine

abbrev pub is_token : ℤ → Bool
is_token (pos n) = true
is_token (negsuc n) = false

abbrev pub is_nonempty {ℓ} : {A : Type ℓ} → List A → Bool
is_nonempty [] = false
is_nonempty (_ ∷ _) = true

-- A coordinator, and what a call answers or raises.
abbrev pub Answer : Type 0
Answer = Coordinator × Result CoordinatorError (Unit {0})

-- `session["engine"] = index`.
abbrev pub pin_session : ℕ → Option ℕ → Coordinator → Coordinator
pin_session pid engine c = record c {
  sessions = update pid (λ s. record s { engine = engine }) c.sessions;
}

abbrev pub context_of : ℕ → ℕ → ℕ → ℕ → Context
context_of rid call_id thread_id index = record {
  request_id = some rid;
  engine_id = some index;
  thread_id = some thread_id;
  call_id = some call_id;
}

-- The request once the table has its context and its submission.
abbrev pub launch : ℕ → ℕ → ℕ → ℕ → ℕ → Table → Coordinator → Coordinator
launch pid rid call_id now index table c = record c {
  table = table;
  sessions = update pid (λ s. record s { calls = call_id ∷ s.calls }) c.sessions;
  pending = insert rid (record { pid = pid; index = index; call_id = call_id }) c.pending;
  futures = insert rid (new_future now) c.futures;
  loads = modify c.loads index suc;
  sent = c.sent ++ (index, add_call rid pid) ∷ [];
}

-- The part of `submit` under the lock once a replica has been chosen and the session has its engine.
-- Each of the two calls of the table is a transaction, so an error of the second leaves the context.
unfoldable pub enqueue : ℕ → ℕ → ℕ → ℕ → ℕ → ℕ → Coordinator → Answer
enqueue pid rid call_id thread_id now index c =
    let context = context_of rid call_id thread_id index in
    elim (Table.set_context rid context c.table) [
      | err e ↦ (c, err (table_error e))
      | ok contexts ↦ elim (Table.record_submission rid pid context now contexts) [
        | err e ↦ (record c { table = contexts }, err (table_error e))
        | ok table ↦ (launch pid rid call_id now index table c, ok tt)
      ]
    ]

-- The checks of `submit`, and the session of the call.
unfoldable pub checked_session : ℕ → ℕ → List ℤ → Coordinator → Result CoordinatorError Session
checked_session pid call_id tokens c = do
  require (is_nonempty tokens && all is_token tokens) bad_tokens
  session ← or_fail (lookup pid c.sessions) session_not_open
  require (not c.closed && not session.closing) session_not_open
  require (not (mem call_id session.calls)) duplicate_call
  ok session

-- `submit`, for a prompt that is given by its tokens, with the coordinator that an error leaves.
unfoldable pub submit : ℕ → ℕ → ℕ → ℕ → ℕ → List ℤ → Coordinator → Answer
unfolding checked_session
submit pid rid call_id thread_id now tokens c = elim (checked_session pid call_id tokens c) [
  | err e ↦ (c, err e)
  | ok session ↦ elim (healthy c) [
    | [] ↦ (c, err no_healthy_replicas)
    | first ∷ others ↦
        let p = place c.threshold c.loads (length tokens) first others session.engine in
        enqueue pid rid call_id thread_id now (p.0) (pin_session pid (p.1) c)
  ]
]

-- `tokenize`, up to the wait for its answer.
unfoldable pub tokenize : ℕ → ℕ → Coordinator → Answer
tokenize rid now c = if c.closed then (c, err engine_closed) else elim (healthy c) [
  | [] ↦ (c, err no_healthy_replicas)
  | first ∷ others ↦
      let index = least_loaded c.loads first others in
      (
        record c {
          rpc = insert rid index c.rpc;
          futures = insert rid (new_future now) c.futures;
          sent = c.sent ++ (index, tokenize_call rid) ∷ [];
        },
        ok tt,
      )
]

-- The client cancels a future: `on_done` asks the worker to drop the call.
unfoldable pub cancel : ℕ → Coordinator → Coordinator
cancel rid c = elim (lookup rid c.pending) [
  | none ↦ c
  | some item ↦ elim (lookup rid c.futures) [
    | none ↦ c
    | some f ↦ if is_done f then c else record c {
      futures = update rid (λ g. record g { state = cancelled }) c.futures;
      sent = c.sent ++ (item.index, cancel_call rid) ∷ [];
    }
  ]
]

-- How an event settles a future that is not done.
unfoldable pub settle : Event → ℕ → Future → Future
settle event now f = if is_done f then f else elim event [
  | result text ↦ record (update_future text now f) { state = finished }
  | cancel_ack ↦ record f { state = cancelled }
  | _ ↦ record f { state = failed }
]

-- An answer to `tokenize`.
abbrev pub settle_rpc : Event → Future → Future
settle_rpc event f =
    if is_done f
    then f
    else elim event [ tokenized ↦ record f { state = finished } | _ ↦ record f { state = failed } ]

abbrev pub reclaims : Event → Bool
reclaims error = true
reclaims cancel_ack = true
reclaims _ = false

module _ (encode : ℕ → ℕ → ℕ) where
  -- `table.finish(…, 0, 0, 0, …)` for the names under which the call may have been admitted.
  unfoldable pub reclaim : Policy → Backend → ℕ → ℕ → Table → Table
  reclaim policy vllm pid rid t = Table.finish pid rid 0 0 0 policy t
  reclaim policy sglang pid rid t =
      Table.finish pid (encode pid rid) 0 0 0 policy (Table.finish pid rid 0 0 0 policy t)

  -- What the callback of the future sends when `future.cancel()` ends it.
  unfoldable pub cancellation : ℕ → Event → ℕ → Dict Future → List (ℕ × Command)
  cancellation rid cancel_ack index futures = elim (lookup rid futures) [
    | none ↦ []
    | some f ↦ if is_done f then [] else (index, cancel_call rid) ∷ []
  ]
  cancellation rid _ index futures = []

  -- The end of `_resolve`, for a call that was pending.
  unfoldable pub settle_item : ℕ → Event → ℕ → Item → Coordinator → Coordinator
  unfolding cleanup_session cancellation
  settle_item rid event now item c =
      let taken = (Table.take_context rid c.table).1 in
      let reclaimed =
        if reclaims event
        then reclaim c.policy (get_or c.backends item.index vllm) item.pid rid taken
        else taken in
      cleanup_session item.pid (record c {
        pending = erase rid c.pending;
        loads = modify c.loads item.index (λ n. n - 1);
        futures = update rid (settle event now) c.futures;
        sent = c.sent ++ cancellation rid event item.index c.futures;
        table = Table.complete_activity rid now reclaimed;
      })

  abbrev pub is_progress : Event → Bool
  is_progress (progress _) = true
  is_progress _ = false

  abbrev pub text_of : Event → Bool
  text_of (progress text) = text
  text_of _ = false

  -- `_resolve`.
  unfoldable pub resolve : ℕ → Event → ℕ → Coordinator → Coordinator
  unfolding settle_item
  resolve rid event now c =
      if is_progress event
      then (if has_key rid c.pending
          then record c {
            futures =
                update rid (λ f. if is_done f then f else update_future (text_of event) now f)
                  c.futures;
          }
          else c)
      else elim (lookup rid c.rpc) [
        | some owner ↦ record c {
          rpc = erase rid c.rpc;
          futures = update rid (settle_rpc event) c.futures;
        }
        | none ↦ elim (lookup rid c.pending) [
          | none ↦ c
          | some item ↦ settle_item rid event now item c
        ]
      ]

  unfoldable pub fail_pending : ℕ → ℕ → Dict Item → Coordinator → Coordinator
  fail_pending index now [] c = c
  fail_pending index now ((rid, item) ∷ rest) c =
      fail_pending index now rest (if item.index == index then resolve rid error now c else c)

  unfoldable pub fail_rpc : ℕ → ℕ → Dict ℕ → Coordinator → Coordinator
  fail_rpc index now [] c = c
  fail_rpc index now ((rid, owner) ∷ rest) c =
      fail_rpc index now rest (if owner == index then resolve rid error now c else c)

  -- `_fail_replica`.
  unfoldable pub fail_replica : ℕ → ℕ → Coordinator → Coordinator
  unfolding fail_pending fail_rpc
  fail_replica index now c =
      if mem index c.failures
      then c
      else (let marked = record c { failures = index ∷ c.failures } in
          let settled = fail_pending index now marked.pending marked in
          fail_rpc index now settled.rpc settled)

  unfoldable pub fail_replicas : List ℕ → ℕ → Coordinator → Coordinator
  fail_replicas [] now c = c
  fail_replicas (i ∷ is) now c = fail_replicas is now (fail_replica i now c)

  unfoldable pub end_sessions : List ℕ → Coordinator → Coordinator
  unfolding end_session
  end_sessions [] c = c
  end_sessions (pid ∷ pids) c = end_sessions pids (end_session pid c)

  -- `shutdown`, without the processes.
  unfoldable pub shutdown : ℕ → Coordinator → Coordinator
  unfolding fail_replicas end_sessions
  shutdown now c =
      if c.closed
      then c
      else (let down = fail_replicas (healthy_from 0 c.backends []) now c in
          record (end_sessions (keys down.sessions) down) { closed = true })
