-- ===== src/Runtime/Table/Invariant.antt =====
-- The bookkeeping invariant of `ProgramTable` (autellix/runtime/policy.py).
use autellix.Prelude.{
  ℕ, ◌≡◌, refl, Bool, true, false, ◌&&◌, Option, none, some, ok, arith, ◌==◌, if◌then◌else◌,
  Distinct, ==_iff, mem-occurrences, ◌-◌,
}
use autellix.Prelude.Dict.{
  Dict, lookup, update, keys, lookup-insert, lookup-erase, lookup-update, lookup-not_has_key,
}
use autellix.Prelude.Counts.{
  count_values, count-insert, count-erase, occurrences-insert, occurrences-erase,
}
use autellix.Runtime.Config.{Policy, atlas}
use autellix.Runtime.Table.Rows.{ProgramRow, Table, add_active, fresh_program}
use autellix.Runtime.Table.{
  open_program, admit, finish, end_program, charge, has_request, close_row, delete_if, is_drained,
}

-- The calls that a program's row counts; none where there is no row.
abbrev pub active_of : Option ProgramRow → ℕ
active_of none = 0
active_of (some row) = row.active

-- A program that is closing and has no call left, which should have been deleted.
abbrev pub is_stale : Option ProgramRow → Bool
is_stale none = false
is_stale (some row) = row.closing && row.active == 0

-- Each program counts its open requests, a request belongs to a program that has a row, no request
-- is listed twice, and no program waits to be deleted.
pub record IsConsistent (t : Table) : Type 0 where
  pub counted :
      (pid : ℕ) → count_values (λ p. p == pid) t.requests ≡ active_of (lookup pid t.programs)
  pub distinct : Distinct (keys t.requests)
  pub settled : (pid : ℕ) → is_stale (lookup pid t.programs) ≡ false

-- Opening a program keeps the table consistent.
pub open_program-IsConsistent :
    (pid : ℕ) (t u : Table) → IsConsistent t → open_program pid t ≡ ok u → IsConsistent u
unfolding open_program
open_program-IsConsistent pid t u v h = record {
  counted = λ p. ground (
    arith,
    v.counted p,
    lookup-insert pid p fresh_program t.programs,
    lookup-not_has_key pid t.programs,
    ==_iff pid p,
  );
  distinct = λ r. ground (arith, v.distinct r);
  settled = λ p. ground (arith, v.settled p, lookup-insert pid p fresh_program t.programs);
}

-- The program's row after a conditional deletion.
pub lookup-delete_if :
    (test : ProgramRow → Bool) (pid p : ℕ) (d : Dict ProgramRow)
    → lookup p (delete_if test pid d) ≡ (
        if pid == p
        then elim (lookup p d) [ none ↦ none | some row ↦ if test row then none else some row ]
        else lookup p d)
lookup-delete_if test pid p d = ground (arith, lookup-erase pid p d, ==_iff pid p)

pub has_request-lookup :
    (rid pid : ℕ) (d : Dict ℕ) → has_request rid pid d ≡ true → lookup rid d ≡ some pid
has_request-lookup rid pid d h = ground arith

-- A charge takes one call off the count and leaves the closing mark.
pub active-charge :
    (policy : Policy) (inherited executed waited : ℕ) (row : ProgramRow)
    → ((charge policy inherited executed waited row).active ≡ row.active - 1)
      × ((charge policy inherited executed waited row).closing ≡ row.closing)
unfolding charge
active-charge atlas inherited executed waited row = (refl, refl)
active-charge _ inherited executed waited row = (refl, refl)

-- Admitting a call keeps the table consistent.
pub admit-IsConsistent :
    (pid rid : ℕ) (t u : Table) (service wait : ℕ)
    → IsConsistent t
    → admit pid rid t ≡ ok (u, service, wait)
    → IsConsistent u
unfolding admit
admit-IsConsistent pid rid t u service wait v h = record {
  counted = λ p. ground (
    arith,
    v.counted p,
    lookup-update pid p add_active t.programs,
    count-insert (λ q. q == p) rid pid t.requests,
    ==_iff pid p,
  );
  distinct = λ r. ground (
    arith,
    v.distinct r,
    occurrences-insert r rid pid t.requests,
    mem-occurrences rid (keys t.requests),
    ==_iff rid r,
  );
  settled =
      λ p. ground (arith, v.settled p, lookup-update pid p add_active t.programs, ==_iff pid p);
}

-- Finishing a call keeps the table consistent, whether or not the call was open.
pub finish-IsConsistent :
    (pid rid inherited executed waited : ℕ) (policy : Policy) (t : Table)
    → IsConsistent t
    → IsConsistent (finish pid rid inherited executed waited policy t)
unfolding finish
finish-IsConsistent pid rid inherited executed waited policy t v = record {
  counted = λ p. ground (
    arith,
    v.counted p,
    v.distinct rid,
    has_request-lookup rid pid t.requests,
    count-erase (λ q. q == p) rid t.requests {v = pid},
    lookup-delete_if is_drained pid p (update pid charged t.programs),
    lookup-update pid p charged t.programs,
    lookup-update pid pid charged t.programs,
    active-charge policy inherited executed waited,
    ==_iff pid p,
  );
  distinct = λ r. ground (arith, v.distinct r, occurrences-erase r rid t.requests);
  settled = λ p. ground (
    arith,
    v.settled p,
    lookup-delete_if is_drained pid p (update pid charged t.programs),
    lookup-update pid p charged t.programs,
    ==_iff pid p,
  );
}
  where
    charged : ProgramRow → ProgramRow
    charged = charge policy inherited executed waited

-- Closing a program keeps the table consistent.
pub end_program-IsConsistent :
    (pid : ℕ) (t : Table) → IsConsistent t → IsConsistent (end_program pid t)
unfolding end_program
end_program-IsConsistent pid t v = record {
  counted = λ p. ground (
    arith,
    v.counted p,
    lookup-delete_if (λ row. row.active == 0) pid p (update pid close_row t.programs),
    lookup-update pid p close_row t.programs,
    ==_iff pid p,
  );
  distinct = v.distinct;
  settled = λ p. ground (
    arith,
    v.settled p,
    lookup-delete_if (λ row. row.active == 0) pid p (update pid close_row t.programs),
    lookup-update pid p close_row t.programs,
    ==_iff pid p,
  );
}
