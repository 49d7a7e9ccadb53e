-- ===== src/Runtime/Coordinator/State.antt =====
-- The state of `InferenceEngine` (autellix/runtime/engine.py): sessions, pending calls, their
-- futures (`InferenceFuture`), the load of each replica, and the events that workers send.
use autellix.Prelude.{ℕ, Bool, true, false, List, Option, none, some, if◌then◌else◌}
use autellix.Prelude.Dict.{Dict}
use autellix.Runtime.Config.{Policy}
use autellix.Runtime.Table.Rows.{Table, TableError}

pub data Backend : Type 0 where
  vllm sglang : Backend

pub record Session : Type 0 where
  pub closing : Bool
  pub engine : Option ℕ
  pub calls : List ℕ

-- What `pending` holds for a request, beside its future.
pub record Item : Type 0 where
  pub pid : ℕ
  pub index : ℕ
  pub call_id : ℕ

pub data FutureState : Type 0 where
  waiting cancelled finished failed : FutureState

-- `InferenceFuture`: `unread` says whether its queue of one output is full.
pub record Future : Type 0 where
  pub state : FutureState
  pub unread : Bool
  pub submitted_at : ℕ
  pub first_token_at : Option ℕ

abbrev pub new_future : ℕ → Future
new_future now = record {
  state = waiting;
  unread = false;
  submitted_at = now;
  first_token_at = none;
}

abbrev pub is_done : Future → Bool
is_done f = elim f.state [ waiting ↦ false | _ ↦ true ]

abbrev pub first_token : Option ℕ → Bool → ℕ → Option ℕ
first_token none text now = if text then some now else none
first_token (some t) text now = some t

-- `update`: the newest output replaces an unread one; `text` says whether there is any text.
unfoldable pub update_future : Bool → ℕ → Future → Future
update_future text now f = record f {
  unread = true;
  first_token_at = first_token f.first_token_at text now;
}

pub data Command : Type 0 where
  add_call : (rid pid : ℕ) → Command
  cancel_call tokenize_call : (rid : ℕ) → Command

-- What a worker reports of a request; outputs say whether they carry text.
pub data Event : Type 0 where
  progress result : Bool → Event
  tokenized error cancel_ack : Event

pub record Coordinator : Type 0 where
  pub backends : List Backend
  pub policy : Policy
  pub threshold : ℕ
  pub table : Table
  pub sessions : Dict Session
  pub pending : Dict Item
  pub futures : Dict Future
  pub rpc : Dict ℕ
  pub loads : List ℕ
  pub failures : List ℕ
  pub closed : Bool
  pub sent : List (ℕ × Command)

pub data CoordinatorError : Type 0 where
  engine_closed session_not_open duplicate_call no_healthy_replicas bad_tokens : CoordinatorError
  table_error : TableError → CoordinatorError
