-- ===== src/Runtime/Scheduler/Service.antt =====
-- What `RuntimeScheduler` (autellix/runtime/policy.py) does to the statistics of a call: lifetime
-- service and waiting, the quantum, and the protection from starvation.
use autellix.Prelude.{
  ℕ, ◌+◌, ◌-◌, ◌<◌, ◌*◌, max, ◌≡◌, ◌≢◌, refl, ◌⊎◌, true, false, List, [], ◌∷◌, some, ok, err, arith,
  if◌then◌else◌, Distinct, All, ==_iff, mem, mem-occurrences, ◌↔◌, ap, subst,
}
use autellix.Prelude.Dict.{Dict, lookup, update, keys, has_key, lookup-update, keys-update}
use mathlib.Core.Option
use autellix.Prelude.Int.{pos, negsuc}
use autellix.Prelude.Float.{Float, fin, whole, minus}
use autellix.Runtime.Config.{PolicyConfig, fcfs}
use autellix.Runtime.Table
use autellix.Runtime.Table.Rows.{RuntimeCall}
use autellix.Runtime.Scheduler.Calls.{
  refresh_call, demote, promote, starves, wait_until, charge_call, program_totals,
}
use autellix.Runtime.Scheduler.Loop.{refresh-visited}
use autellix.Runtime.Scheduler.Order.{IsValid}
use autellix.Runtime.Scheduler.{
  Scheduler, bad_seconds, refresh, begin, begin_call, map_values, charge_calls, executed,
}

-- A refresh moves a call between queues and leaves what it has run, what it inherited, and its
-- waiting time apart from the time that has passed since its last update.
pub record KeepsLifetime (now : ℕ) (c d : RuntimeCall) : Type 0 where
  pub program : d.pid ≡ c.pid
  pub inherited : d.inherited ≡ c.inherited
  pub executed : d.executed ≡ c.executed
  pub waited : d.waited ≡ (if c.scheduled then c.waited else c.waited + (now - c.last_update))
  pub updated : d.last_update ≡ now

refresh_call-KeepsLifetime :
    (config : PolicyConfig) (totals : Dict (ℕ × ℕ)) (now n : ℕ) (c : RuntimeCall)
    → KeepsLifetime now c (refresh_call config totals now n c).1
unfolding refresh_call demote promote wait_until
refresh_call-KeepsLifetime config totals now n c = ground arith

promote-unstarved :
    (config : PolicyConfig) (totals : Dict (ℕ × ℕ)) (n : ℕ) (c : RuntimeCall)
    → starves config totals (promote config totals n c).1 ≡ false
unfolding promote starves
promote-unstarved config totals n c = ground arith

refresh_call-unstarved :
    (config : PolicyConfig) (totals : Dict (ℕ × ℕ)) (now n : ℕ) (c : RuntimeCall)
    → config.policy ≢ fcfs
    → starves config totals (refresh_call config totals now n c).1 ≡ false
unfolding refresh_call
refresh_call-unstarved config totals now n c h =
    let (m, b) = demote config n (wait_until now c) in
    ground (arith, promote-unstarved config totals m b)

-- A refresh moves a call between queues and leaves its lifetime statistics: what it has run and
-- what it inherited do not change, and its waiting time grows exactly by the time since its last
-- update, unless it is scheduled.
pub refresh-KeepsLifetime :
    (now k : ℕ) (s : Scheduler) (c : RuntimeCall)
    → Distinct (keys s.calls)
    → lookup k s.calls ≡ some c
    → (d : RuntimeCall) × (lookup k (refresh now s).calls ≡ some d) × KeepsLifetime now c d
refresh-KeepsLifetime now k s c h e =
    let (m, found) = refresh-visited now k s h e in
    let totals = Table.snapshot s.table in
    (
      (refresh_call s.config totals now m c).1,
      found,
      refresh_call-KeepsLifetime s.config totals now m c,
    )

-- What `starves` leaves: the top queue, or a ratio of waiting to service below beta.
unstarved :
    (config : PolicyConfig) (totals : Dict (ℕ × ℕ)) (b : ℕ) (d : RuntimeCall)
    → config.beta ≡ fin (pos b)
    → starves config totals d ≡ false
    → let (service, wait) = program_totals config.policy totals d.pid in
      (d.queue ≡ 0) ⊎ ((wait + d.wait_window) * 1_000_000_000 < b * max 1 (service + d.run_window))
unfolding starves
unstarved config totals b d e h = ground arith

-- The protection from starvation, under every policy but FCFS and for a finite beta that is not
-- negative: a call that the scheduler knows is in the top queue after a refresh, or the ratio of
-- waiting to service that counts for it is below beta. What counts as waiting is the call's
-- `wait_window` and what `program_totals` gives for its program, and as service, of which there is at
-- least 1 ns, its `run_window` and what `program_totals` gives. Under MLFQ `program_totals` is zero
-- for both, so only the call's own windows count.
pub refresh-unstarved :
    (now k : ℕ) (s : Scheduler) (c : RuntimeCall) (b : ℕ)
    → Distinct (keys s.calls)
    → lookup k s.calls ≡ some c
    → s.config.policy ≢ fcfs
    → s.config.beta ≡ fin (pos b)
    → (d : RuntimeCall) × (lookup k (refresh now s).calls ≡ some d)
      × let (service, wait) = program_totals s.config.policy (Table.snapshot s.table) d.pid in
        (d.queue ≡ 0)
        ⊎ ((wait + d.wait_window) * 1_000_000_000 < b * max 1 (service + d.run_window))
refresh-unstarved now k s c b h e p q =
    let (m, found) = refresh-visited now k s h e in
    let totals = Table.snapshot s.table in
    let d = (refresh_call s.config totals now m c).1 in
    (d, found, unstarved s.config totals b d q (refresh_call-unstarved s.config totals now m c p))

charge_calls-lookup :
    (n now : ℕ) (rids : List ℕ) (d : Dict RuntimeCall)
    → Distinct rids
    → All (λ rid. has_key rid d ≡ true) rids
    → ((charge_calls n now rids d).1 ≡ ok tt)
      × ((k : ℕ)
          → lookup k (charge_calls n now rids d).0
            ≡ (if mem k rids then Option.map (charge_call n now) (lookup k d) else lookup k d))
unfolding charge_calls
charge_calls-lookup n now [] d h a = (refl, λ k. refl)
charge_calls-lookup n now (r ∷ rids) d h a =
    let f = charge_call n now in
    let rest =
      charge_calls-lookup n now rids (update r f d) (λ x. ground (arith, h x))
        (rw (keys-update r f d) a.1) in
    (
      ground (arith, rest.0, a.0),
      λ k.
          ground
            (arith, a.0, h r, rest.1 k, lookup-update r k f d, mem-occurrences r rids, ==_iff r k),
    )

-- Charging a batch of distinct calls that are all known succeeds: each call of the batch has run
-- for the batch's duration, its quantum is reduced by it, and it is scheduled no longer; the other
-- calls stay as they are.
pub executed-charges :
    (rids : List ℕ) (n now : ℕ) (s : Scheduler)
    → Distinct rids
    → All (λ rid. has_key rid s.calls ≡ true) rids
    → let (t, result) = executed rids (whole n) now s in
      (result ≡ ok tt)
      × ((k : ℕ)
          → lookup k t.calls ≡ (
              if mem k rids
              then Option.map {A = RuntimeCall}
                  (λ c. record c {
                    executed = c.executed + n;
                    run_window = c.run_window + n;
                    quantum = minus c.quantum n;
                    scheduled = false;
                    last_update = now;
                  })
                  (lookup k s.calls)
              else lookup k s.calls))
unfolding executed charge_call
executed-charges rids n now s h a =
    let (fine, calls) = charge_calls-lookup n now rids s.calls h a in
    (ground (arith, fine), λ k. ground (arith, fine, calls k))

charge_calls-ne-bad_seconds :
    (n now : ℕ) (rids : List ℕ) (d : Dict RuntimeCall)
    → (charge_calls n now rids d).1 ≢ err bad_seconds
unfolding charge_calls
charge_calls-ne-bad_seconds n now [] d e = cc
charge_calls-ne-bad_seconds n now (r ∷ rids) d e =
    ground (arith, charge_calls-ne-bad_seconds n now rids (update r (charge_call n now) d))

-- Exactly a duration that is negative, infinite or not a number is refused as such, and then
-- nothing is charged.
pub executed-bad_seconds :
    (rids : List ℕ) (seconds : Float) (now : ℕ) (s : Scheduler)
    → (executed rids seconds now s ≡ (s, err bad_seconds)) ↔ ((n : ℕ) → seconds ≢ whole n)
unfolding executed
executed-bad_seconds rids seconds now s = (
  λ e n h.
      let refused : (charge_calls n now rids s.calls).1 ≡ err bad_seconds =
        let r : (executed rids (whole n) now s).1 ≡ err bad_seconds =
          subst (λ f. (executed rids f now s).1 ≡ err bad_seconds) h (ap (λ p. p.1) e) in
        ground (arith, r) in
      charge_calls-ne-bad_seconds n now rids s.calls refused,
  backward seconds,
)
  where
    backward : (f : Float) → ((n : ℕ) → f ≢ whole n) → executed rids f now s ≡ (s, err bad_seconds)
    backward (fin (pos n)) h = absurd (h n refl)
    backward (fin (negsuc n)) h = ground arith
    backward _ h = refl

begin-lookup :
    (rids : List ℕ) (now k : ℕ) (d : Dict RuntimeCall)
    → lookup k (map_values (begin_call now rids) d) ≡ Option.map (begin_call now rids) (lookup k d)
begin-lookup rids now k [] = refl
begin-lookup rids now k ((j, c) ∷ d) = ground (arith, begin-lookup rids now k d)

-- Beginning a batch marks exactly its calls as scheduled, and brings the waiting time of every
-- call that was not scheduled before up to date.
pub begin-schedules :
    (rids : List ℕ) (now k : ℕ) (s : Scheduler) (c : RuntimeCall)
    → IsValid s
    → lookup k s.calls ≡ some c
    → (d : RuntimeCall) × (lookup k (begin rids now s).calls ≡ some d)
      × (d.scheduled ≡ mem k rids)
      × KeepsLifetime now c d
unfolding begin wait_until
begin-schedules rids now k s c v e = (
  begin_call now rids c,
  ground (arith, begin-lookup rids now k s.calls),
  rw (v.named k c e),
  ground arith,
)
