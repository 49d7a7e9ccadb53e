-- ===== src/Runtime/Table.antt =====
-- `ProgramTable` of autellix/runtime/policy.py: the five SQLite tables, and one function for each
-- transaction. An error is an exception that is raised; the transaction is then rolled back, so
-- no new table is returned. Identifiers are numbers, 0 the empty text; seconds are nanoseconds.
pub mod Rows
pub mod Invariant
pub mod Accounting
use autellix.Prelude.{
  ℕ, zero, suc, ◌+◌, ◌-◌, max, ◌≡◌, Bool, true, false, not, ◌&&◌, List, [], ◌∷◌, ◌++◌, map, Option,
  none, some, Result, ok, err, ◌>>=◌, ◌>>◌, require, or_fail, ◌==◌, if◌then◌else◌, filter, mem,
}
use autellix.Prelude.Dict.{Dict, lookup, insert, erase, update, has_key}
use autellix.Prelude.Sort
use autellix.Prelude.Sort.{lex_le}
use Rows.{
  ProgramRow, ActivityRow, ActivityState, queued, Context, Metrics, Table, TableError,
  empty_program_id, session_not_open, integrity_error, fresh_program, add_active,
}
use autellix.Runtime.Config.{Policy, atlas}

-- `INSERT` into a table whose primary key is the identifier.
abbrev pub insert_row {ℓ} : {V : Type ℓ} → ℕ → V → Dict V → Result TableError (Dict V)
insert_row k v d = if has_key k d then err integrity_error else ok (insert k v d)

unfoldable pub open_program : ℕ → Table → Result TableError Table
open_program pid t = do
  require (not (pid == 0)) empty_program_id
  programs ← insert_row pid fresh_program t.programs
  ok (record t { programs = programs })

-- `admit`: the new table, and the program's service and waiting time.
unfoldable pub admit : ℕ → ℕ → Table → Result TableError (Table × ℕ × ℕ)
admit pid rid t = do
  row ← or_fail (lookup pid t.programs) (session_not_open pid)
  require (not row.closing) (session_not_open pid)
  requests ← insert_row rid pid t.requests
  ok (
    record t { requests = requests; programs = update pid add_active t.programs },
    row.service,
    row.wait,
  )

-- `UPDATE programs SET service=…, wait=wait+?, active=active-1`.
unfoldable pub charge : Policy → ℕ → ℕ → ℕ → ProgramRow → ProgramRow
charge atlas inherited executed waited row = record row {
  service = max row.service (inherited + executed);
  wait = row.wait + waited;
  active = row.active - 1;
}
charge _ inherited executed waited row = record row {
  service = row.service + executed;
  wait = row.wait + waited;
  active = row.active - 1;
}

-- `DELETE FROM programs WHERE pid=? AND closing=1 AND active=0`.
abbrev pub delete_if : (ProgramRow → Bool) → ℕ → Dict ProgramRow → Dict ProgramRow
delete_if test pid programs = elim (lookup pid programs) [
  | none ↦ programs
  | some row ↦ if test row then erase pid programs else programs
]

abbrev pub is_drained : ProgramRow → Bool
is_drained row = row.closing && row.active == 0

abbrev pub has_request : ℕ → ℕ → Dict ℕ → Bool
has_request rid pid requests = elim (lookup rid requests) [ none ↦ false | some p ↦ p == pid ]

unfoldable pub finish : ℕ → ℕ → ℕ → ℕ → ℕ → Policy → Table → Table
unfolding charge
finish pid rid inherited executed waited policy t =
    if has_request rid pid t.requests
    then record t {
      requests = erase rid t.requests;
      programs =
          delete_if is_drained pid
            (update pid (charge policy inherited executed waited) t.programs);
    }
    else t

abbrev pub close_row : ProgramRow → ProgramRow
close_row row = record row { closing = true }

-- `end`.
unfoldable pub end_program : ℕ → Table → Table
end_program pid t = record t {
  programs = delete_if (λ row. row.active == 0) pid (update pid close_row t.programs);
}

unfoldable pub record_submission : ℕ → ℕ → Context → ℕ → Table → Result TableError Table
record_submission rid pid context now t = do
  activity ← insert_row rid row t.activity
  ok (record t {
    activity = activity;
    programs = update pid (λ p. record p { last_arrival = some now }) t.programs;
  })
  where
    row : ActivityRow
    row = record {
      pid = pid;
      engine_id = context.engine_id;
      thread_id = context.thread_id;
      call_id = context.call_id;
      arrived = now;
      waited = 0;
      executed = 0;
      state = queued;
    }

unfoldable pub update_activity : ℕ → ℕ → ℕ → ActivityState → Table → Table
update_activity rid waited executed state t = record t {
  activity =
      update rid (λ a. record a { waited = waited; executed = executed; state = state }) t.activity;
}

-- `update_activities`, the rows in order.
unfoldable pub update_activities : List (ℕ × ℕ × ℕ × ActivityState) → Table → Table
unfolding update_activity
update_activities [] t = t
update_activities ((rid, waited, executed, state) ∷ rows) t =
    update_activities rows (update_activity rid waited executed state t)

unfoldable pub complete_activity : ℕ → ℕ → Table → Table
complete_activity rid now t = record t {
  programs = elim (lookup rid t.activity) [
    | none ↦ t.programs
    | some a ↦ update a.pid (λ p. record p { last_completion = some now }) t.programs
  ];
  activity = erase rid t.activity;
}

-- `snapshot`: service and waiting time of every program.
unfoldable pub snapshot : Table → Dict (ℕ × ℕ)
snapshot t = map (λ e. (e.0, (e.1.service, e.1.wait))) t.programs

-- `sorted({c["engine_id"] for c in calls if c["engine_id"] is not None})`.
engine_ids : List (ℕ × ActivityRow) → List ℕ
engine_ids [] = []
engine_ids ((rid, a) ∷ calls) = elim a.engine_id [
  | none ↦ engine_ids calls
  | some e ↦
      let rest = engine_ids calls in
      if mem e rest then rest else Sort.insert (λ a b. lex_le (a, 0) (b, 0)) e rest
]

pub record Description : Type 0 where
  pub program : ProgramRow
  pub calls : List (ℕ × ActivityRow)
  pub engines : List ℕ

-- `describe`: each program with its active calls.
unfoldable pub describe : Table → Dict Description
unfolding engine_ids
describe t = map (λ e. (e.0, entry e.0 e.1)) t.programs
  where
    entry : ℕ → ProgramRow → Description
    entry pid row =
        let calls = filter (λ (a : ℕ × ActivityRow). a.1.pid == pid) t.activity in
        record { program = row; calls = calls; engines = engine_ids calls }

-- `INSERT OR REPLACE INTO results`.
unfoldable pub save_metrics : ℕ → Metrics → Table → Table
save_metrics rid metrics t = record t { results = insert rid metrics t.results }

unfoldable pub take_metrics : ℕ → Table → Option Metrics × Table
take_metrics rid t = (lookup rid t.results, record t { results = erase rid t.results })

unfoldable pub set_context : ℕ → Context → Table → Result TableError Table
set_context rid context t = do
  contexts ← insert_row rid context t.contexts
  ok (record t { contexts = contexts })

-- `none` is the empty dictionary that is returned when there is no row.
unfoldable pub take_context : ℕ → Table → Option Context × Table
take_context rid t = (lookup rid t.contexts, record t { contexts = erase rid t.contexts })
