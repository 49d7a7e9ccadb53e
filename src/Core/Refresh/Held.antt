-- ===== src/Core/Refresh/Held.antt =====
-- The calls that an engine of autellix/core holds, and how the changes of its queues keep them.
use autellix.Prelude.{
  ℕ, ◌+◌, ◌<◌, ◌≡◌, refl, subst, ◌∙◌, inl, inr, List, [], ◌∷◌, ◌++◌, ok, or_fail, length, modify,
  occurrences, length-modify, Bool-cases, >>=-eq-ok, or_fail-ok, ok_injective, arith,
}
use autellix.Prelude.Dict.{lookup, insert}
use autellix.Prelude.Sort.{sort}
use autellix.Core.State.{CallState, EngineState, ProcessEntry, iter_queued}
use autellix.Core.Policy.{
  Store, unknown_call, unknown_program, not_queued, queue_count, demote, demoted, should_preempt,
}
use autellix.Core.Policy.Completion.{demoted_index-lt}
use autellix.Core.Refresh.{
  take_out, should_promote, expire, promote, refresh_call, refresh_loop, refresh, queue_le,
}
use autellix.Core.Refresh.Queues.{one_of, iter_queued-modify, take_out-some, iter_queued-sort_queue}

-- How often an engine holds a call.
abbrev pub held : ℕ → EngineState → ℕ
held x e =
    occurrences x e.running + occurrences x e.prefetched + occurrences x (iter_queued e.queues)

-- A step of the scheduler on an engine, which holds `more` afterwards than before.
record Adds (more : ℕ → ℕ) (st : Store) (e : EngineState) (p : Store × EngineState) : Type 0 where
  holds : (x : ℕ) → held x p.1 ≡ held x e + more x
  queues : length p.1.queues ≡ length e.queues
  quanta : queue_count p.0.scheduler ≡ queue_count st.scheduler

abbrev none_more : ℕ → ℕ
none_more x = 0

-- The engine has a queue for each quantum, and at least one.
abbrev pub HasQueues : Store → EngineState → Type 0
HasQueues st e = (length e.queues ≡ queue_count st.scheduler) × (0 < queue_count st.scheduler)

demote-Adds :
    (r : ℕ) (st : Store) (e : EngineState) (p : Store × EngineState)
    → HasQueues st e
    → demote r st e ≡ ok p
    → Adds (one_of r) st e p
unfolding demote demoted
demote-Adds r st e p h q =
    let (c, _, made) = >>=-eq-ok (or_fail (lookup r st.calls) unknown_call) _ q in
    let s = st.scheduler in
    let d : CallState = demoted s c in
    let low = demoted_index-lt s.kind s c h.1 in
    let pushed = modify e.queues d.queue_index (λ q. q ++ (r ∷ [])) in
    let sorted = λ (x : ℕ). iter_queued-sort_queue x s (insert r d st.calls) pushed in
    let grown : length pushed ≡ length e.queues =
      length-modify e.queues d.queue_index (λ q. q ++ (r ∷ [])) in
    subst (Adds (one_of r) st e) (ok_injective made) (record {
      holds = λ x.
          omega (
            arith,
            (sorted x).0,
            iter_queued-modify x r d.queue_index e.queues (omega (arith, low)),
          );
      queues = (sorted 0).1 ∙ grown;
      quanta = refl;
    })

unchanged : (st : Store) (e : EngineState) → Adds none_more st e (st, e)
unchanged st e = record { holds = λ x. omega arith; queues = refl; quanta = refl }

expire-Adds :
    (r : ℕ) (c : CallState) (st : Store) (e : EngineState) (p : Store × EngineState)
    → HasQueues st e
    → expire r c st e ≡ ok p
    → Adds none_more st e p
unfolding expire
expire-Adds r c st e p h q = elim (Bool-cases (should_preempt st.scheduler c)) [
  | inr b ↦ subst (Adds none_more st e) (ok_injective (rw (b, expire) at q)) (unchanged st e)
  | inl b ↦
      let (qs, t, q1) =
        >>=-eq-ok (or_fail (take_out r c.queue_index e.queues) not_queued) _
          (rw (b, expire) at q) in
      let taken = or_fail-ok (take_out r c.queue_index e.queues) not_queued t in
      let rest = λ (x : ℕ). take_out-some x r c.queue_index e.queues qs taken in
      let back = demote-Adds r st (record e { queues = qs }) p ((rest 0).1 ∙ h.0, h.1) q1 in
      record {
        holds = λ x. omega (arith, back.holds x, (rest x).0);
        queues = back.queues ∙ (rest 0).1;
        quanta = back.quanta;
      }
]

promote-Adds :
    (r : ℕ) (c : CallState) (entry : ProcessEntry) (st : Store) (e : EngineState)
    (p : Store × EngineState)
    → HasQueues st e
    → promote r c entry st e ≡ ok p
    → Adds none_more st e p
unfolding promote
promote-Adds r c entry st e p h q = elim (Bool-cases (should_promote st.scheduler c entry)) [
  | inr b ↦ subst (Adds none_more st e) (ok_injective (rw (b, promote) at q)) (unchanged st e)
  | inl b ↦
      let (qs, t, q1) =
        >>=-eq-ok (or_fail (take_out r c.queue_index e.queues) not_queued) _
          (rw (b, promote) at q) in
      let taken = or_fail-ok (take_out r c.queue_index e.queues) not_queued t in
      let rest = λ (x : ℕ). take_out-some x r c.queue_index e.queues qs taken in
      let first : 0 < length qs = omega (arith, (rest 0).1, h.0, h.1) in
      subst (Adds none_more st e) (ok_injective q1) (record {
        holds = λ x. omega (arith, (rest x).0, iter_queued-modify x r 0 qs first);
        queues = length-modify qs 0 (λ q. q ++ (r ∷ [])) ∙ (rest 0).1;
        quanta = refl;
      })
]

refresh_call-Adds :
    (r : ℕ) (st : Store) (e : EngineState) (p : Store × EngineState)
    → HasQueues st e
    → refresh_call r st e ≡ ok p
    → Adds none_more st e p
unfolding refresh_call
refresh_call-Adds r st e p h q =
    let (c, _, q1) = >>=-eq-ok (or_fail (lookup r st.calls) unknown_call) _ q in
    let (a, f1, q2) = >>=-eq-ok (expire r c st e) _ q1 in
    let (d, _, q3) = >>=-eq-ok (or_fail (lookup r a.0.calls) unknown_call) _ q2 in
    let (entry, _, q4) =
      >>=-eq-ok (or_fail (lookup d.spec.program_id a.0.processes) unknown_program) _ q3 in
    let (b, f2, q5) = >>=-eq-ok (promote r d entry (a.0) (a.1)) _ q4 in
    let (f, _, last) = >>=-eq-ok (or_fail (lookup r b.0.calls) unknown_call) _ q5 in
    let k1 = expire-Adds r c st e a h f1 in
    let k2 =
      promote-Adds r d entry (a.0) (a.1) b
        (omega (arith, k1.queues, k1.quanta, h.0), omega (arith, k1.quanta, h.1)) f2 in
    subst (Adds none_more st e) (ok_injective last) (record {
      holds = λ x. omega (arith, k1.holds x, k2.holds x);
      queues = k2.queues ∙ k1.queues;
      quanta = k2.quanta ∙ k1.quanta;
    })

refresh_loop-Adds :
    (rs : List ℕ) (st : Store) (e : EngineState) (p : Store × EngineState)
    → HasQueues st e
    → refresh_loop rs st e ≡ ok p
    → Adds none_more st e p
unfolding refresh_loop
refresh_loop-Adds [] st e p h q = subst (Adds none_more st e) (ok_injective q) (unchanged st e)
refresh_loop-Adds (r ∷ rs) st e p h q =
    let (a, first, rest) = >>=-eq-ok (refresh_call r st e) _ q in
    let k1 = refresh_call-Adds r st e a h first in
    let k2 =
      refresh_loop-Adds rs (a.0) (a.1) p
        (omega (arith, k1.queues, k1.quanta, h.0), omega (arith, k1.quanta, h.1)) rest in
    record {
      holds = λ x. omega (arith, k1.holds x, k2.holds x);
      queues = k2.queues ∙ k1.queues;
      quanta = k2.quanta ∙ k1.quanta;
    }

-- A refresh of an engine's waiting calls neither loses one nor doubles one.
pub refresh-held :
    (st : Store) (e : EngineState) (p : Store × EngineState) (x : ℕ)
    → HasQueues st e
    → refresh st e ≡ ok p
    → held x p.1 ≡ held x e
unfolding refresh
refresh-held st e p x h q = omega (
  arith,
  (refresh_loop-Adds (sort (queue_le st.calls) (iter_queued e.queues ++ e.prefetched)) st e p h
        q).holds
      x,
)
