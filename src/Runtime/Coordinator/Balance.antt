-- ===== src/Runtime/Coordinator/Balance.antt =====
-- The bookkeeping of `InferenceEngine` (autellix/runtime/engine.py) through all of its calls.
use autellix.Prelude.{
  ℕ, zero, suc, ◌-◌, ◌≤◌, ◌≡◌, refl, inl, inr, ◌⊎◌, true, false, List, [], ◌∷◌, none, some, ok,
  arith, mem, length, ◌==◌, get_or, Bool-cases, Option-cases, Distinct, get_or-modify,
  length-modify, ==_iff, mem-occurrences, ap, sym, ◌∙◌, Result-cases,
}
use autellix.Prelude.Dict.{Dict, lookup, insert, erase, has_key, keys, keys-update, has_key-lookup}
use autellix.Prelude.Counts.{
  count_values, count-insert, count-erase, occurrences-insert, occurrences-erase,
}
use autellix.Prelude.Int.{ℤ}
use autellix.Runtime.Coordinator.State.{Session, Item, Event, error, Coordinator}
use autellix.Runtime.Coordinator.{
  start_session, end_session, cleanup_session, has_pending, submit, tokenize, cancel, resolve,
  settle_item, fail_replica, fail_pending, fail_rpc, is_progress,
}
use autellix.Runtime.Coordinator.Rejection.{Rejected, submit-Rejected}
use autellix.Runtime.Coordinator.Placement.{submit-Submission, with_engine, Placed-mem, healthy-mem}

-- The load of a replica is the number of pending requests that it serves, no request is pending
-- twice, and the session of a pending request is there.
pub record IsBalanced (c : Coordinator) : Type 0 where
  pub sized : length c.loads ≡ length c.backends
  pub counted : (i : ℕ) → get_or c.loads i 0 ≡ count_values (λ it. it.index == i) c.pending
  pub distinct : Distinct (keys c.pending)
  pub owned : (pid : ℕ) → has_key pid c.sessions ≡ false → has_pending pid c.pending ≡ false

has_pending-insert :
    (pid k : ℕ) (it : Item) (d : Dict Item)
    → (it.pid == pid) ≡ false
    → has_pending pid d ≡ false
    → has_pending pid (insert k it d) ≡ false
has_pending-insert pid k it [] h e = ground arith
has_pending-insert pid k it ((j, w) ∷ d) h e = ground (arith, has_pending-insert pid k it d)

has_pending-erase :
    (pid k : ℕ) (d : Dict Item) → has_pending pid d ≡ false → has_pending pid (erase k d) ≡ false
has_pending-erase pid k [] e = e
has_pending-erase pid k ((j, w) ∷ d) e = ground (arith, has_pending-erase pid k d)

has_key-erase :
    {V : Type 0} (k j : ℕ) (d : Dict V)
    → has_key j (erase k d) ≡ false
    → (has_key j d ≡ false) ⊎ (k ≡ j)
has_key-erase k j [] e = inl e
has_key-erase k j ((i, w) ∷ d) e = ground (arith, has_key-erase k j d, ==_iff i k)

abbrev new_session : Session
new_session = record { closing = false; engine = none; calls = [] }

has_key-insert :
    {V : Type 0} (k j : ℕ) (v : V) (d : Dict V)
    → has_key j (insert k v d) ≡ false
    → has_key j d ≡ false
has_key-insert k j v [] e = refl
has_key-insert k j v ((i, w) ∷ d) e = ground (arith, has_key-insert k j v d)

get_or-beyond : (xs : List ℕ) (i : ℕ) → length xs ≤ i → get_or xs i 0 ≡ 0
get_or-beyond [] i h = refl
get_or-beyond (x ∷ xs) zero h = absurd (omega arith)
get_or-beyond (x ∷ xs) (suc i) h = get_or-beyond xs i (omega arith)

submitted-IsBalanced :
    (pid rid call_id thread_id now : ℕ) (tokens : List ℤ) (c d : Coordinator)
    → has_key rid c.pending ≡ false
    → IsBalanced c
    → submit pid rid call_id thread_id now tokens c ≡ (d, ok tt)
    → IsBalanced d
submitted-IsBalanced pid rid call_id thread_id now tokens c d new v e =
    let s = submit-Submission pid rid call_id thread_id now tokens c d e in
    let (inside, _) = healthy-mem s.index 0 c.backends c.failures (Placed-mem s.placed) in
    let item : Item = record { pid = pid; index = s.index; call_id = call_id } in
    let moved = λ (x : Session). record x { engine = s.engine; calls = call_id ∷ x.calls } in
    let other : (p : ℕ) → has_key p c.sessions ≡ false → (pid == p) ≡ false =
      λ p h. ground (arith, has_key-lookup pid c.sessions s.is_open, ==_iff pid p) in
    record {
      sized =
          ground (arith, ap length s.loads, s.rest.0, length-modify c.loads s.index suc, v.sized);
      counted = λ i.
          rw (s.loads, s.pending)
            (ground (
              arith,
              v.sized,
              get_or-modify c.loads s.index i suc 0,
              count-insert (λ it. it.index == i) rid item c.pending,
              v.counted i,
              new,
            ));
      distinct = λ x. rw s.pending (
          ground (
            arith,
            occurrences-insert x rid item c.pending,
            v.distinct x,
            mem-occurrences rid (keys c.pending),
            ==_iff rid x,
          ));
      owned = λ p h. rw s.pending (
          has_pending-insert p rid item c.pending
            (other p (rw (s.sessions, keys-update pid moved c.sessions) at h))
            (v.owned p (rw (s.sessions, keys-update pid moved c.sessions) at h)));
    }

Rejected-IsBalanced : (pid : ℕ) (c d : Coordinator) → Rejected pid c d → IsBalanced c → IsBalanced d
Rejected-IsBalanced pid c d r v =
    let same : keys d.sessions ≡ keys c.sessions = elim r.sessions [
      | inl e ↦ ap keys e
      | inr e ↦ ap keys e ∙ keys-update pid (with_engine r.engine) c.sessions
    ] in
    record {
      sized = ap length r.loads ∙ v.sized ∙ ap length (sym r.rest.0);
      counted = λ i. rw (r.loads, r.pending) (v.counted i);
      distinct = λ x. rw r.pending (v.distinct x);
      owned = λ p h. rw r.pending (v.owned p (rw same at h));
    }

-- Submitting a call under a new request identifier keeps the books, also when it raises an error.
pub submit-IsBalanced :
    (pid rid call_id thread_id now : ℕ) (tokens : List ℤ) (c : Coordinator)
    → has_key rid c.pending ≡ false
    → IsBalanced c
    → IsBalanced (submit pid rid call_id thread_id now tokens c).0
submit-IsBalanced pid rid call_id thread_id now tokens c new v =
    let q = submit pid rid call_id thread_id now tokens c in
    elim (Result-cases q.1) [
      | inl (tt, e) ↦
          submitted-IsBalanced pid rid call_id thread_id now tokens c (q.0) new v
            (ap (λ r. (q.0, r)) e)
      | inr (x, e) ↦
          Rejected-IsBalanced pid c (q.0)
            (submit-Rejected pid rid call_id thread_id now tokens c (q.0) x (ap (λ r. (q.0, r)) e))
            v
    ]

cleanup_session-IsBalanced :
    (pid : ℕ) (c : Coordinator) → IsBalanced c → IsBalanced (cleanup_session pid c)
unfolding cleanup_session
cleanup_session-IsBalanced pid c v = record {
  sized = ground (arith, v.sized);
  counted = λ i. ground (arith, v.counted i);
  distinct = λ x. ground (arith, v.distinct x);
  owned = λ p h. ground (arith, v.owned p, has_key-erase pid p c.sessions);
}

settle_item-IsBalanced :
    (encode : ℕ → ℕ → ℕ) (rid : ℕ) (event : Event) (now : ℕ) (item : Item) (c : Coordinator)
    → lookup rid c.pending ≡ some item
    → IsBalanced c
    → IsBalanced (settle_item encode rid event now item c)
unfolding settle_item
settle_item-IsBalanced encode rid event now item c e v =
    cleanup_session-IsBalanced item.pid _ (record {
      sized = ground (arith, v.sized, length-modify c.loads item.index (λ n. n - 1));
      counted = λ i. ground (
        arith,
        v.counted i,
        v.counted item.index,
        v.distinct rid,
        get_or-beyond c.loads item.index,
        get_or-modify c.loads item.index i (λ n. n - 1) 0,
        count-erase (λ it. it.index == i) rid c.pending {v = item},
        count-erase (λ it. it.index == item.index) rid c.pending {v = item},
      );
      distinct = λ x. ground (arith, v.distinct x, occurrences-erase x rid c.pending);
      owned = λ p h. has_pending-erase p rid c.pending (v.owned p h);
    })

end_session-IsBalanced : (pid : ℕ) (c : Coordinator) → IsBalanced c → IsBalanced (end_session pid c)
unfolding end_session
end_session-IsBalanced pid c v = elim (Bool-cases (has_key pid c.sessions)) [
  | inl known ↦
      rw (known, end_session)
        (cleanup_session-IsBalanced pid _ (record {
          sized = v.sized;
          counted = v.counted;
          distinct = v.distinct;
          owned = λ p h. v.owned p (rw (keys-update pid closed c.sessions) at h);
        }))
  | inr unknown ↦ rw (unknown, end_session) v
]
  where
    closed : Session → Session
    closed s = record s { closing = true }

start_session-IsBalanced :
    (pid : ℕ) (c d : Coordinator) → IsBalanced c → start_session pid c ≡ ok d → IsBalanced d
unfolding start_session
start_session-IsBalanced pid c d v e = record {
  sized = ground (arith, v.sized);
  counted = λ i. ground (arith, v.counted i);
  distinct = λ x. ground (arith, v.distinct x);
  owned = λ p h. ground (arith, v.owned p, has_key-insert pid p new_session c.sessions);
}

cancel-IsBalanced : (rid : ℕ) (c : Coordinator) → IsBalanced c → IsBalanced (cancel rid c)
unfolding cancel
cancel-IsBalanced rid c v = record {
  sized = ground (arith, v.sized);
  counted = λ i. ground (arith, v.counted i);
  distinct = λ x. ground (arith, v.distinct x);
  owned = λ p h. ground (arith, v.owned p);
}

tokenize-IsBalanced :
    (rid now : ℕ) (c : Coordinator) → IsBalanced c → IsBalanced (tokenize rid now c).0
unfolding tokenize
tokenize-IsBalanced rid now c v = record {
  sized = ground (arith, v.sized);
  counted = λ i. ground (arith, v.counted i);
  distinct = λ x. ground (arith, v.distinct x);
  owned = λ p h. ground (arith, v.owned p);
}

module _ (encode : ℕ → ℕ → ℕ) where
  -- Whatever a worker reports of a request, known or not, keeps the books.
  pub resolve-IsBalanced :
      (rid : ℕ) (event : Event) (now : ℕ) (c : Coordinator)
      → IsBalanced c
      → IsBalanced (resolve encode rid event now c)
  unfolding resolve
  resolve-IsBalanced rid event now c v = elim (Bool-cases (is_progress encode event)) [
    | inl p ↦
        rw (p, resolve)
          (record {
            sized = ground (arith, v.sized);
            counted = λ i. ground (arith, v.counted i);
            distinct = λ x. ground (arith, v.distinct x);
            owned = λ q h. ground (arith, v.owned q);
          })
    | inr p ↦ elim (Option-cases (lookup rid c.rpc)) [
      | inr (owner, r) ↦
          rw (p, r, resolve)
            (record {
              sized = v.sized;
              counted = v.counted;
              distinct = v.distinct;
              owned = v.owned;
            })
      | inl r ↦ elim (Option-cases (lookup rid c.pending)) [
        | inl missing ↦ rw (p, r, missing, resolve) v
        | inr (item, found) ↦
            rw (p, r, found, resolve) (settle_item-IsBalanced encode rid event now item c found v)
      ]
    ]
  ]

  fail_pending-IsBalanced :
      (index now : ℕ) (items : Dict Item) (c : Coordinator)
      → IsBalanced c
      → IsBalanced (fail_pending encode index now items c)
  unfolding fail_pending
  fail_pending-IsBalanced index now [] c v = v
  fail_pending-IsBalanced index now ((rid, item) ∷ rest) c v =
      elim (Bool-cases (item.index == index)) [
        | inl e ↦
            rw (e, fail_pending)
              (fail_pending-IsBalanced index now rest _ (resolve-IsBalanced rid error now c v))
        | inr e ↦ rw (e, fail_pending) (fail_pending-IsBalanced index now rest c v)
      ]

  fail_rpc-IsBalanced :
      (index now : ℕ) (owners : Dict ℕ) (c : Coordinator)
      → IsBalanced c
      → IsBalanced (fail_rpc encode index now owners c)
  unfolding fail_rpc
  fail_rpc-IsBalanced index now [] c v = v
  fail_rpc-IsBalanced index now ((rid, owner) ∷ rest) c v = elim (Bool-cases (owner == index)) [
    | inl e ↦
        rw (e, fail_rpc)
          (fail_rpc-IsBalanced index now rest _ (resolve-IsBalanced rid error now c v))
    | inr e ↦ rw (e, fail_rpc) (fail_rpc-IsBalanced index now rest c v)
  ]

  fail_replica-IsBalanced :
      (index now : ℕ) (c : Coordinator)
      → IsBalanced c
      → IsBalanced (fail_replica encode index now c)
  unfolding fail_replica
  fail_replica-IsBalanced index now c v = elim (Bool-cases (mem index c.failures)) [
    | inl e ↦ rw (e, fail_replica) v
    | inr e ↦
        let marked = record c { failures = index ∷ c.failures } in
        let settled = fail_pending encode index now marked.pending marked in
        rw (e, fail_replica)
          (fail_rpc-IsBalanced index now settled.rpc settled (
            fail_pending-IsBalanced index now marked.pending marked (record {
              sized = v.sized;
              counted = v.counted;
              distinct = v.distinct;
              owned = v.owned;
            })))
  ]

  -- What can happen to the coordinator before it is shut down: calls of its clients, answers of
  -- workers in any order, and the end of a worker.
  pub data Step (c : Coordinator) : Coordinator → Type 0 where
    starts : (pid : ℕ) {d : Coordinator} → start_session pid c ≡ ok d → Step c d
    submits :
        (pid rid call_id thread_id now : ℕ) (tokens : List ℤ)
        → has_key rid c.pending ≡ false
        → Step c (submit pid rid call_id thread_id now tokens c).0
    tokenizes : (rid now : ℕ) → Step c (tokenize rid now c).0
    cancels : (rid : ℕ) → Step c (cancel rid c)
    reports : (rid : ℕ) (event : Event) (now : ℕ) → Step c (resolve encode rid event now c)
    breaks : (index now : ℕ) → Step c (fail_replica encode index now c)
    ends : (pid : ℕ) → Step c (end_session pid c)

  pub data Reach (c : Coordinator) : Coordinator → Type 0 where
    here : Reach c c
    next : {d e : Coordinator} → Reach c d → Step d e → Reach c e

  Step-IsBalanced : {c d : Coordinator} → Step c d → IsBalanced c → IsBalanced d
  Step-IsBalanced {c} {d} (starts pid e) v = start_session-IsBalanced pid c d v e
  Step-IsBalanced {c} (submits pid rid call_id thread_id now tokens new) v =
      submit-IsBalanced pid rid call_id thread_id now tokens c new v
  Step-IsBalanced {c} (tokenizes rid now) v = tokenize-IsBalanced rid now c v
  Step-IsBalanced {c} (cancels rid) v = cancel-IsBalanced rid c v
  Step-IsBalanced {c} (reports rid event now) v = resolve-IsBalanced rid event now c v
  Step-IsBalanced {c} (breaks index now) v = fail_replica-IsBalanced index now c v
  Step-IsBalanced {c} (ends pid) v = end_session-IsBalanced pid c v

  -- In every interleaving of client calls, worker reports, worker failures and session ends, the
  -- load of each replica stays the number of pending requests that it serves, no request is
  -- pending twice, and every pending request has its session.
  pub Reach-IsBalanced : {c d : Coordinator} → Reach c d → IsBalanced c → IsBalanced d
  Reach-IsBalanced here v = v
  Reach-IsBalanced (next r s) v = Step-IsBalanced s (Reach-IsBalanced r v)
