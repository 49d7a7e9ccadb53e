-- ===== src/Runtime/Table/Rows.antt =====
-- The rows of the SQLite tables of `ProgramTable` (autellix/runtime/policy.py), its call record
-- `RuntimeCall`, and the exceptions of its transactions.
use autellix.Prelude.{ℕ, suc, Bool, false, [], Option, none}
use autellix.Prelude.Dict.{Dict}
use autellix.Prelude.Float.{Float}

pub record ProgramRow : Type 0 where
  pub service : ℕ
  pub wait : ℕ
  pub active : ℕ
  pub closing : Bool
  pub last_arrival : Option ℕ
  pub last_completion : Option ℕ

-- A row with the column defaults.
abbrev pub fresh_program : ProgramRow
fresh_program = record {
  service = 0;
  wait = 0;
  active = 0;
  closing = false;
  last_arrival = none;
  last_completion = none;
}

abbrev pub add_active : ProgramRow → ProgramRow
add_active row = record row { active = suc row.active }

pub data ActivityState : Type 0 where
  queued running waiting : ActivityState

pub record ActivityRow : Type 0 where
  pub pid : ℕ
  pub engine_id : Option ℕ
  pub thread_id : Option ℕ
  pub call_id : Option ℕ
  pub arrived : ℕ
  pub waited : ℕ
  pub executed : ℕ
  pub state : ActivityState

-- What the coordinator sends along with a call. The user's metadata is not read by the program.
pub record Context : Type 0 where
  pub request_id : Option ℕ
  pub engine_id : Option ℕ
  pub thread_id : Option ℕ
  pub call_id : Option ℕ

-- `RuntimeCall`; its metadata is a context.
pub record RuntimeCall : Type 0 where
  pub rid : ℕ
  pub pid : ℕ
  pub inherited : ℕ
  pub queue : ℕ
  pub order : ℕ
  pub quantum : Float
  pub last_update : ℕ
  pub executed : ℕ
  pub waited : ℕ
  pub run_window : ℕ
  pub wait_window : ℕ
  pub scheduled : Bool
  pub metadata : Option Context

-- `asdict(call)`.
abbrev pub Metrics : Type 0
Metrics = RuntimeCall

pub record Table : Type 0 where
  pub programs : Dict ProgramRow
  pub requests : Dict ℕ
  pub results : Dict Metrics
  pub contexts : Dict Context
  pub activity : Dict ActivityRow

abbrev pub empty_table : Table
empty_table = record { programs = []; requests = []; results = []; contexts = []; activity = [] }

pub data TableError : Type 0 where
  empty_program_id : TableError
  session_not_open : ℕ → TableError
  integrity_error : TableError
