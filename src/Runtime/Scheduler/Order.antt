-- ===== src/Runtime/Scheduler/Order.antt =====
-- The invariant of `RuntimeScheduler` (autellix/runtime/policy.py): its calls are totally ordered
-- by (queue, order), so `key` never ties, and every queue index is one of a quantum.
use autellix.Prelude.{
  ℕ, suc, ◌≤◌, ◌<◌, ◌≡◌, refl, ◌∙◌, inl, inr, ◌⊎◌, false, [], ◌∷◌, Option, some, ok, arith, length,
  Distinct, Option-cases, Result-cases, subst, sym, ==_iff, mem-occurrences,
}
use autellix.Prelude.Dict.{
  Dict, lookup, insert, erase, update, keys, has_key, lookup-insert, lookup-erase, lookup-update,
}
use autellix.Prelude.Counts.{occurrences-insert, occurrences-erase, occurrences-update}
use autellix.Prelude.Entries.{Agrees, Agrees-update, Agrees-self, occurrences-sort}
use autellix.Prelude.Sort
use autellix.Prelude.Sort.{sort}
use autellix.Runtime.Config.{PolicyConfig, check, queue}
use autellix.Runtime.Config.Bracket.{queue-Brackets}
use autellix.Runtime.Table
use autellix.Runtime.Table.Rows.{RuntimeCall, Context}
use autellix.Runtime.Scheduler.Calls.{refresh_call, demote, promote, wait_until, entry_le}
use autellix.Runtime.Scheduler.{
  Scheduler, admit, refresh, refresh_loop, finish, initial_service, new_call,
}

pub record IsOrdered (quanta counter : ℕ) (calls : Dict RuntimeCall) : Type 0 where
  pub distinct : Distinct (keys calls)
  pub named : (k : ℕ) (c : RuntimeCall) → lookup k calls ≡ some c → c.rid ≡ k
  pub in_range : (k : ℕ) (c : RuntimeCall) → lookup k calls ≡ some c → c.queue < quanta
  pub bounded : (k : ℕ) (c : RuntimeCall) → lookup k calls ≡ some c → c.order ≤ counter
  pub untied :
      (i j : ℕ) (a b : RuntimeCall)
      → lookup i calls ≡ some a
      → lookup j calls ≡ some b
      → a.order ≡ b.order
      → i ≡ j

-- The state's calls are in order.
abbrev pub IsValid : Scheduler → Type 0
IsValid s = IsOrdered (length s.config.quanta) s.counter s.calls

-- What may happen to a call: it keeps its name, stays within the queues, and keeps its place or
-- takes a new one behind all others.
record Touches (quanta n m : ℕ) (c c' : RuntimeCall) : Type 0 where
  same : c'.rid ≡ c.rid
  inside : c.queue < quanta → c'.queue < quanta
  grows : n ≤ m
  place : (c'.order ≡ c.order) ⊎ ((n < c'.order) × (c'.order ≤ m))

Touches-trans :
    {q n m o : ℕ} {a b c : RuntimeCall} → Touches q n m a b → Touches q m o b c → Touches q n o a c
Touches-trans s t = record {
  same = t.same ∙ s.same;
  inside = λ h. t.inside (s.inside h);
  grows = omega (arith, s.grows, t.grows);
  place = ground (arith, s.grows, t.grows, s.place, t.place);
}

wait_until-Touches : (q now n : ℕ) (c : RuntimeCall) → Touches q n n c (wait_until now c)
unfolding wait_until
wait_until-Touches q now n c = ground arith

demote-Touches :
    (config : PolicyConfig) (n : ℕ) (c : RuntimeCall)
    → Touches (length config.quanta) n (demote config n c).0 c (demote config n c).1
unfolding demote
demote-Touches config n c = ground arith

promote-Touches :
    (config : PolicyConfig) (totals : Dict (ℕ × ℕ)) (n : ℕ) (c : RuntimeCall)
    → let r = promote config totals n c in Touches (length config.quanta) n r.0 c r.1
unfolding promote
promote-Touches config totals n c = ground arith

refresh_call-Touches :
    (config : PolicyConfig) (totals : Dict (ℕ × ℕ)) (now n : ℕ) (c : RuntimeCall)
    → let r = refresh_call config totals now n c in Touches (length config.quanta) n r.0 c r.1
unfolding refresh_call
refresh_call-Touches config totals now n c =
    let w = wait_until now c in
    let waited = wait_until-Touches (length config.quanta) now n c in
    let (m, b) = demote config n w in
    let moved =
      Touches-trans waited
        (Touches-trans (demote-Touches config n w) (promote-Touches config totals m b)) in
    ground (arith, waited, moved)

module _ {quanta n m : ℕ} {d : Dict RuntimeCall} (k : ℕ) {c c' : RuntimeCall}
    (v : IsOrdered quanta n d) (found : lookup k d ≡ some c) (t : Touches quanta n m c c') where
  update-IsOrdered : IsOrdered quanta m (update k (λ _. c') d)
  update-IsOrdered = record {
    distinct = λ x. ground (arith, v.distinct x, occurrences-update x k (λ _. c') d);
    named = λ j b e.
        ground (
          arith,
          lookup-update k j (λ _. c') d,
          v.named j b,
          v.named k c found,
          t.same,
          ==_iff k j,
        );
    in_range = λ j b e.
        ground
          (arith, lookup-update k j (λ _. c') d, v.in_range j b, v.in_range k c found, t.inside);
    bounded = λ j b e. ground (
      arith,
      lookup-update k j (λ _. c') d,
      v.bounded j b,
      v.bounded k c found,
      t.grows,
      t.place,
    );
    untied = λ i j a b e f g. ground (
      arith,
      lookup-update k i (λ _. c') d,
      lookup-update k j (λ _. c') d,
      v.bounded i a,
      v.bounded j b,
      v.untied i j a b,
      v.untied k j c b found,
      v.untied i k a c,
      t.place,
      ==_iff k i,
      ==_iff k j,
    );
  }

module _ {quanta n : ℕ} {d : Dict RuntimeCall} (k : ℕ) (v : IsOrdered quanta n d) where
  -- A new call takes its place behind all others.
  insert-IsOrdered :
      (c : RuntimeCall)
      → has_key k d ≡ false
      → c.rid ≡ k
      → c.queue < quanta
      → c.order ≡ suc n
      → IsOrdered quanta (suc n) (insert k c d)
  insert-IsOrdered c new named inside last = record {
    distinct = λ x.
        ground
          (arith, v.distinct x, occurrences-insert x k c d, mem-occurrences k (keys d), ==_iff k x);
    named = λ j b e. ground (arith, lookup-insert k j c d, v.named j b, ==_iff k j);
    in_range = λ j b e. ground (arith, lookup-insert k j c d, v.in_range j b);
    bounded = λ j b e. ground (arith, lookup-insert k j c d, v.bounded j b);
    untied = λ i j a b e f g. ground (
      arith,
      lookup-insert k i c d,
      lookup-insert k j c d,
      v.bounded i a,
      v.bounded j b,
      v.untied i j a b,
      ==_iff k i,
      ==_iff k j,
    );
  }

  erase-IsOrdered : IsOrdered quanta n (erase k d)
  erase-IsOrdered = record {
    distinct = λ x. ground (arith, v.distinct x, occurrences-erase x k d);
    named = λ j b e. ground (arith, lookup-erase k j d, v.named j b);
    in_range = λ j b e. ground (arith, lookup-erase k j d, v.in_range j b);
    bounded = λ j b e. ground (arith, lookup-erase k j d, v.bounded j b);
    untied =
        λ i j a b e f g. ground (arith, lookup-erase k i d, lookup-erase k j d, v.untied i j a b);
  }

module _ (config : PolicyConfig) (totals : Dict (ℕ × ℕ)) (now : ℕ) where
  loop-IsOrdered :
      (es : Dict RuntimeCall) (n : ℕ) (d : Dict RuntimeCall)
      → Distinct (keys es)
      → Agrees es d
      → IsOrdered (length config.quanta) n d
      → let r = refresh_loop config totals now es n d in IsOrdered (length config.quanta) r.0 r.1
  unfolding refresh_loop
  loop-IsOrdered [] n d h a v = v
  loop-IsOrdered ((k, c) ∷ es) n d h a v =
      let (n', c') = refresh_call config totals now n c in
      loop-IsOrdered es n' (update k (λ _. c') d) (λ x. ground (arith, h x))
        (Agrees-update k (λ _. c') es d (ground (arith, h k)) a.1)
        (update-IsOrdered k v a.0 (refresh_call-Touches config totals now n c))

-- A refresh keeps the calls in a total order within the queues.
pub refresh-IsValid : (now : ℕ) (s : Scheduler) → IsValid s → IsValid (refresh now s)
unfolding refresh
refresh-IsValid now s v =
    loop-IsOrdered s.config (Table.snapshot s.table) now (sort entry_le s.calls) s.counter s.calls
      (λ x. ground (arith, v.distinct x, occurrences-sort entry_le x s.calls))
      (Sort.All-sort entry_le (λ (e : ℕ × RuntimeCall). lookup e.0 s.calls ≡ some e.1) s.calls
        (Agrees-self s.calls v.distinct))
      v

-- What an admission that succeeds has done.
pub record Admission (rid pid now : ℕ) (s t : Scheduler) : Type 0 where
  pub call : RuntimeCall
  pub service : ℕ
  pub wait : ℕ
  pub new : has_key rid s.calls ≡ false
  pub admitted : Table.admit pid rid s.table ≡ ok (t.table, service, wait)
  pub bracket : queue s.config call.inherited ≡ some call.queue
  pub inherits : call.inherited ≡ initial_service s.config.policy service
  pub named : (call.rid ≡ rid) × (call.pid ≡ pid)
  pub last : call.order ≡ suc s.counter
  pub idle : (call.scheduled ≡ false) × (call.executed ≡ 0) × (call.waited ≡ 0)
  pub state :
      t ≡ record s { table = t.table; counter = suc s.counter; calls = insert rid call s.calls }

admit-Admission :
    (rid pid : ℕ) (metadata : Option Context) (now : ℕ) (s t : Scheduler)
    → admit rid pid metadata now s ≡ ok t
    → Admission rid pid now s t
unfolding admit
admit-Admission rid pid metadata now s t e = elim (Result-cases (Table.admit pid rid s.table)) [
  | inr (failure, p) ↦ absurd (ground arith)
  | inl ((u, service, wait), p) ↦
      elim (Option-cases (queue s.config (initial_service s.config.policy service))) [
        | inl missing ↦ absurd (ground arith)
        | inr (q, found) ↦ record {
          call = new_call rid pid metadata now s (initial_service s.config.policy service) q;
          service = service;
          wait = wait;
          new = ground arith;
          admitted = ground arith;
          bracket = found;
          inherits = refl;
          named = (refl, refl);
          last = refl;
          idle = (refl, refl, refl);
          state = ground arith;
        }
      ]
]

-- So does an admission under a configuration that passes its checks.
pub admit-IsValid :
    (rid pid : ℕ) (metadata : Option Context) (now : ℕ) (s t : Scheduler)
    → check s.config ≡ ok tt
    → IsValid s
    → admit rid pid metadata now s ≡ ok t
    → IsValid t
admit-IsValid rid pid metadata now s t h v e =
    let a = admit-Admission rid pid metadata now s t e in
    let (q, found, b) = queue-Brackets s.config a.call.inherited h in
    let inside : a.call.queue < length s.config.quanta = ground (arith, a.bracket, b.in_range) in
    subst IsValid (sym a.state) (insert-IsOrdered rid v a.call a.new a.named.0 inside a.last)

-- And finishing a call, known or not.
pub finish-IsValid : (rid now : ℕ) (s : Scheduler) → IsValid s → IsValid (finish rid now s).0
unfolding finish
finish-IsValid rid now s v = elim (Option-cases (lookup rid s.calls)) [
  | inl missing ↦ rw (missing, finish) v
  | inr (c, found) ↦ rw (found, finish) (erase-IsOrdered rid v)
]
