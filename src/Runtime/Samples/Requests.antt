-- ===== src/Runtime/Samples/Requests.antt =====
-- Runs of the coordinator, autellix/runtime/engine.py, with two replicas and two programs.
use autellix.Prelude.{
  ℕ, ◌+◌, ◌*◌, ◌≡◌, refl, true, false, List, [], ◌∷◌, ◌++◌, none, some, ok, err, arith,
}
use autellix.Prelude.Dict.{lookup}
use autellix.Prelude.Int.{ℤ, pos}
use autellix.Runtime.Config.{atlas}
use autellix.Runtime.Table
use autellix.Runtime.Table.Rows.{empty_table, fresh_program, Context, queued, integrity_error}
use autellix.Runtime.Coordinator.State.{
  vllm, sglang, Coordinator, Future, result, error, cancel_ack, cancelled, new_future, add_call,
  cancel_call, table_error,
}
use autellix.Runtime.Coordinator.{
  start_session, submit, cancel, resolve, fail_pending, fail_replica, enqueue, place, pin_session,
  cancellation,
}
use autellix.Runtime.Coordinator.Placement.{Submission, submit-Submission}
use autellix.Runtime.Coordinator.Rejection.{Rejected, submit-Rejected}
use autellix.Runtime.Coordinator.Balance.{
  IsBalanced, Reach, here, next, starts, submits, cancels, reports, breaks, Reach-IsBalanced,
}
use autellix.Runtime.Coordinator.Settling.{resolve_once, resolve-done, fail_pending-settles}

abbrev encode : ℕ → ℕ → ℕ
encode pid rid = pid * 1_000 + rid

abbrev idle : Coordinator
idle = record {
  backends = vllm ∷ sglang ∷ [];
  policy = atlas;
  threshold = 2;
  table = empty_table;
  sessions = [];
  pending = [];
  futures = [];
  rpc = [];
  loads = 0 ∷ 0 ∷ [];
  failures = [];
  closed = false;
  sent = [];
}

idle-IsBalanced : IsBalanced idle
idle-IsBalanced = record {
  sized = refl;
  counted = λ i. ground arith;
  distinct = λ x. omega arith;
  owned = λ p h. refl;
}

-- Program 1 has been opened.
abbrev opened : Coordinator
opened = record idle {
  table = record empty_table { programs = (1, fresh_program) ∷ [] };
  sessions = (1, record { closing = false; engine = none; calls = [] }) ∷ [];
}

start_session-idle : start_session 1 idle ≡ ok opened
unfolding start_session Table.open_program
start_session-idle = refl

-- Its long call 5 is request 10, on replica 0.
abbrev placed_context : Context
placed_context = record {
  request_id = some 10;
  engine_id = some 0;
  thread_id = some 7;
  call_id = some 5;
}

abbrev submitted : Coordinator
submitted = record opened {
  table = record empty_table {
    programs = (1, record fresh_program { last_arrival = some 3 }) ∷ [];
    contexts = (10, placed_context) ∷ [];
    activity =
        (
          10,
          record {
            pid = 1;
            engine_id = some 0;
            thread_id = some 7;
            call_id = some 5;
            arrived = 3;
            waited = 0;
            executed = 0;
            state = queued;
          },
        )
        ∷ [];
  };
  sessions = (1, record { closing = false; engine = some 0; calls = 5 ∷ [] }) ∷ [];
  pending = (10, record { pid = 1; index = 0; call_id = 5 }) ∷ [];
  futures = (10, new_future 3) ∷ [];
  loads = 1 ∷ 0 ∷ [];
  sent = (0, add_call 10 1) ∷ [];
}

abbrev prompt : List ℤ
prompt = pos 3 ∷ pos 4 ∷ pos 5 ∷ []

submit-opened : submit 1 10 5 7 3 prompt opened ≡ (submitted, ok tt)
unfolding submit enqueue place Table.set_context Table.record_submission
submit-opened = refl

submit-Submission_example : Submission 1 10 5 3 opened submitted
submit-Submission_example = submit-Submission 1 10 5 7 3 prompt opened submitted submit-opened

-- The table has a context of request 10 already: the session keeps the engine that it was given.
abbrev crowded : Coordinator
crowded = record opened { table = record (opened.table) { contexts = (10, placed_context) ∷ [] } }

submit-crowded :
    submit 1 10 5 7 3 prompt crowded
    ≡ (pin_session 1 (some 0) crowded, err (table_error integrity_error))
unfolding submit enqueue place Table.set_context Table.record_submission
submit-crowded = refl

submit-Rejected_example : Rejected 1 crowded (pin_session 1 (some 0) crowded)
submit-Rejected_example =
    submit-Rejected 1 10 5 7 3 prompt crowded (pin_session 1 (some 0) crowded)
      (table_error integrity_error) submit-crowded

-- A report that a live request was cancelled cancels its future, which asks the worker once more to
-- drop the request.
cancel_ack-sends :
    (resolve encode 10 cancel_ack 8 submitted).sent ≡ submitted.sent ++ (0, cancel_call 10) ∷ []
unfolding resolve cancellation
cancel_ack-sends = refl

-- The client cancels, the worker's result is late, and then replica 1 fails.
history :
    Reach encode idle
      (fail_replica encode 1 9 (resolve encode 10 (result true) 8 (cancel 10 submitted)))
unfolding submit enqueue Table.set_context Table.record_submission place
history =
    next
      (next
        (next (next (next here (starts 1 start_session-idle)) (submits 1 10 5 7 3 prompt refl))
          (cancels 10))
        (reports 10 (result true) 8))
      (breaks 1 9)

Reach-IsBalanced_example :
    IsBalanced (fail_replica encode 1 9 (resolve encode 10 (result true) 8 (cancel 10 submitted)))
Reach-IsBalanced_example = Reach-IsBalanced encode history idle-IsBalanced

resolve_once_example :
    resolve encode 10 cancel_ack 9 (resolve encode 10 error 8 submitted)
    ≡ resolve encode 10 error 8 submitted
resolve_once_example = resolve_once encode 10 error cancel_ack 8 9 submitted refl refl

abbrev dropped : Future
dropped = record (new_future 3) { state = cancelled }

resolve-done_example :
    lookup 10
      (resolve encode 10
        (result true)
        8
        (record submitted { futures = (10, dropped) ∷ [] })).futures
    ≡ some dropped
resolve-done_example =
    resolve-done encode 10 (result true) 8 10 (record submitted { futures = (10, dropped) ∷ [] })
      dropped refl refl

submitted-IsBalanced : IsBalanced submitted
submitted-IsBalanced = record {
  sized = refl;
  counted = λ i. ground arith;
  distinct = λ x. ground arith;
  owned = λ p h. ground arith;
}

fail_pending-settles_example :
    lookup 10 (fail_pending encode 0 9 submitted.pending submitted).pending ≡ none
fail_pending-settles_example =
    fail_pending-settles encode 0 9 10 submitted (record { pid = 1; index = 0; call_id = 5 })
      submitted-IsBalanced (refl, tt) refl
