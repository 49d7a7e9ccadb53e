-- ===== src/Runtime/Table/Accounting.antt =====
-- What the transactions of `ProgramTable` (autellix/runtime/policy.py) charge, admit and refuse.
use autellix.Prelude.{
  ℕ, ◌+◌, ◌-◌, max, ◌≡◌, ◌≢◌, refl, inl, inr, ◌↔◌, false, ◌&&◌, none, some, ok, arith, ◌==◌,
  if◌then◌else◌, Option-cases, ==_iff,
}
use autellix.Prelude.Dict.{
  lookup, insert, update, has_key, lookup-insert, lookup-erase, lookup-update,
}
use autellix.Runtime.Config.{Policy, atlas}
use autellix.Runtime.Table.Rows.{ProgramRow, Table, add_active, Context}
use autellix.Runtime.Table.{
  admit, finish, end_program, charge, is_drained, close_row, set_context, take_context,
}
use autellix.Runtime.Table.Invariant.{lookup-delete_if}

-- A call is admitted exactly when its program has a row that is not closing and the request is
-- new; the call then inherits the service and waiting time of that row.
pub admit_iff :
    (pid rid : ℕ) (t : Table) (service wait : ℕ)
    → ((u : Table) × (admit pid rid t ≡ ok (u, service, wait))) ↔ (
        (row : ProgramRow) × (lookup pid t.programs ≡ some row)
        × (row.closing ≡ false)
        × (has_key rid t.requests ≡ false)
        × (row.service ≡ service)
        × (row.wait ≡ wait))
unfolding admit
admit_iff pid rid t service wait = (forward, backward)
  where
    forward :
        ((u : Table) × (admit pid rid t ≡ ok (u, service, wait)))
        → (row : ProgramRow) × (lookup pid t.programs ≡ some row)
          × (row.closing ≡ false)
          × (has_key rid t.requests ≡ false)
          × (row.service ≡ service)
          × (row.wait ≡ wait)
    forward (u, e) = elim (Option-cases (lookup pid t.programs)) [
      | inl missing ↦ absurd (ground arith)
      | inr (row, found) ↦ (row, found, ground arith, ground arith, ground arith, ground arith)
    ]

    backward :
        ((row : ProgramRow) × (lookup pid t.programs ≡ some row)
          × (row.closing ≡ false)
          × (has_key rid t.requests ≡ false)
          × (row.service ≡ service)
          × (row.wait ≡ wait))
        → (u : Table) × (admit pid rid t ≡ ok (u, service, wait))
    backward (row, found, is_open, is_new, s, w) = (
      record t {
        requests = insert rid pid t.requests;
        programs = update pid add_active t.programs;
      },
      ground arith,
    )

-- A call is charged once: finishing it a second time changes nothing, whatever is charged.
pub finish_twice :
    (pid rid inherited executed waited i e w : ℕ) (policy p : Policy) (t : Table)
    → finish pid rid i e w p (finish pid rid inherited executed waited policy t)
      ≡ finish pid rid inherited executed waited policy t
unfolding finish
finish_twice pid rid inherited executed waited i e w policy p t =
    ground (arith, lookup-erase rid rid t.requests)

-- Once `end` has marked a program, no call of it is admitted.
pub end_program_refuses :
    (pid rid : ℕ) (t : Table) (r : Table × ℕ × ℕ) → admit pid rid (end_program pid t) ≢ ok r
unfolding end_program admit
end_program_refuses pid rid t r h = ground (
  arith,
  lookup-delete_if (λ row. row.active == 0) pid pid (update pid close_row t.programs),
  lookup-update pid pid close_row t.programs,
)

charge_lem :
    (policy : Policy) (inherited executed waited : ℕ) (row : ProgramRow)
    → charge policy inherited executed waited row ≡ record row {
      service = elim policy [
        | atlas ↦ max row.service (inherited + executed)
        | _ ↦ row.service + executed
      ];
      wait = row.wait + waited;
      active = row.active - 1;
    }
unfolding charge
charge_lem atlas inherited executed waited row = refl
charge_lem _ inherited executed waited row = refl

-- Finishing an open call charges its program alone: under ATLAS the program's service becomes at
-- least what the call inherited and ran, under the other policies it grows by what the call ran;
-- its waiting time grows by the call's, one call less is counted, and a closing program goes with
-- its last call. The request is gone afterwards, and the other programs keep their rows.
pub finish-charges :
    (pid rid inherited executed waited : ℕ) (policy : Policy) (t : Table) (row : ProgramRow)
    → lookup rid t.requests ≡ some pid
    → lookup pid t.programs ≡ some row
    → let u = finish pid rid inherited executed waited policy t in
      (lookup pid u.programs ≡ (
        if row.closing && row.active - 1 == 0
        then none
        else some (record row {
          service = elim policy [
            | atlas ↦ max row.service (inherited + executed)
            | _ ↦ row.service + executed
          ];
          wait = row.wait + waited;
          active = row.active - 1;
        })))
      × (lookup rid u.requests ≡ none)
      × ((p : ℕ) → pid ≢ p → lookup p u.programs ≡ lookup p t.programs)
unfolding finish
finish-charges pid rid inherited executed waited policy t row requested found =
    let charged = charge policy inherited executed waited in
    let programs = update pid charged t.programs in
    (
      ground (
        arith,
        charge_lem policy inherited executed waited row,
        lookup-delete_if is_drained pid pid programs,
        lookup-update pid pid charged t.programs,
      ),
      ground (arith, lookup-erase rid rid t.requests),
      λ p other. ground (
        arith,
        lookup-delete_if is_drained pid p programs,
        lookup-update pid p charged t.programs,
        ==_iff pid p,
      ),
    )

-- A context that was set is taken once, as it was set.
pub take-set_context :
    (rid : ℕ) (c : Context) (t u : Table)
    → set_context rid c t ≡ ok u
    → ((take_context rid u).0 ≡ some c) × ((take_context rid (take_context rid u).1).0 ≡ none)
unfolding set_context take_context
take-set_context rid c t u h =
    ground (arith, lookup-insert rid rid c t.contexts, lookup-erase rid rid u.contexts)
