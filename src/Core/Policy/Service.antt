-- ===== src/Core/Policy/Service.antt =====
-- What the schedulers of autellix/core/schedulers.py promise for one call and its program.
use autellix.Prelude.{
  ℕ, zero, suc, ◌+◌, ◌<◌, ◌≡◌, refl, ap, ◌∙◌, inl, inr, true, false, ◌&&◌, if◌then◌else◌, ◌==◌,
  ==_iff, occurrences, occurrences-append, List, [], ◌∷◌, ◌++◌, some, ok, length, modify, get_or,
  all, arith, Bool-cases, Option-cases, length-modify, length-append,
}
use autellix.Prelude.Dict.{Dict, lookup, insert, lookup-insert}
use autellix.Prelude.Int.{ℤ, pos, negsuc}
use autellix.Prelude.Float.{Float, fin, whole, lt, le, is_nonpos}
use autellix.Prelude.Sort.{length-sort, count-sort}
use autellix.Core.State.{CallState, EngineState, ProcessEntry, workload, queued_count, is_positive}
use autellix.Core.Policy.{
  Scheduler, Kind, mlfq, atlas, atlas_dag, check, queue_count, bracket_from, bracket,
  searched_index, assign_queue_index, enqueue, enqueue_known, Store, sort_queue, call_le,
  update_service_time, service_after, quantum_at, queued_state, priority_for_call,
}

service_after_comm :
    (k : Kind) (c d : CallState) (n : ℕ)
    → service_after k c (service_after k d n) ≡ service_after k d (service_after k c n)
unfolding service_after
service_after_comm mlfq c d n = refl
service_after_comm atlas c d n = omega arith
service_after_comm atlas_dag c d n = omega arith
service_after_comm _ c d n = omega arith

-- The order in which two completed calls are charged to their program does not matter, under any
-- of the classes: the service of the program is the same sum, or the same longest path.
pub update_service_time_comm :
    (s : Scheduler) (c d : CallState) (entry : ProcessEntry)
    → update_service_time s c (update_service_time s d entry)
      ≡ update_service_time s d (update_service_time s c entry)
unfolding update_service_time
update_service_time_comm s c d entry =
    ap (λ n. record entry { service_time = n }) (service_after_comm s.kind c d entry.service_time)

bracket_from-lt :
    (i p : ℕ) (lo : Float) (bs : List Float) {k : ℕ}
    → bracket_from i p lo bs ≡ some k
    → k < i + length bs
unfolding bracket_from
bracket_from-lt i p lo [] h = cc
bracket_from-lt i p lo (hi ∷ bs) {k = k} h =
    elim (Bool-cases (le lo (whole p) && lt (whole p) hi)) [
      | inl e ↦ (let g = rw e at h in ground arith)
      | inr e ↦ (let g = bracket_from-lt (suc i) p hi bs (rw e at h) in omega arith)
    ]

bracket-lt : (p : ℕ) (bs : List Float) {k : ℕ} → bracket p bs ≡ some k → k + 1 < length bs
unfolding bracket
bracket-lt p [] h = cc
bracket-lt p (lo ∷ bs) h = omega (arith, bracket_from-lt 0 p lo bs h)

check-lengths : (s : Scheduler) → check s ≡ ok tt → length s.priority_boundaries ≡ queue_count s + 1
unfolding check
check-lengths s h = ground arith

searched_index-lt :
    (s : Scheduler) (p : ℕ)
    → length s.priority_boundaries ≡ queue_count s + 1
    → 0 < queue_count s
    → searched_index s p < queue_count s
unfolding searched_index bracket
searched_index-lt s p h q = elim (Option-cases (bracket p s.priority_boundaries)) [
  | inl e ↦ rw (e, searched_index) (omega arith)
  | inr (k, e) ↦ rw (e, searched_index) (omega (arith, bracket-lt p s.priority_boundaries e))
]

assign_queue_index-lt :
    (s : Scheduler) (p : ℕ)
    → check s ≡ ok tt
    → 0 < queue_count s
    → assign_queue_index s p < queue_count s
unfolding assign_queue_index
assign_queue_index-lt s p h q = ground (arith, searched_index-lt s p (check-lengths s h) q)

quanta_positive :
    (qs : List ℤ) (i : ℕ)
    → all is_positive qs ≡ true
    → i < length qs
    → is_nonpos (fin (get_or qs i (pos 0))) ≡ false
quanta_positive [] i h q = absurd (omega arith)
quanta_positive (pos n ∷ qs) zero h q = ground arith
quanta_positive (negsuc n ∷ qs) zero h q = ground arith
quanta_positive (x ∷ qs) (suc i) h q = quanta_positive qs i (ground arith) (omega arith)

check-quanta : (s : Scheduler) → check s ≡ ok tt → all is_positive s.queue_quanta ≡ true
unfolding check
check-quanta s h = ground arith

pub quantum_at-positive :
    (s : Scheduler) (i : ℕ)
    → check s ≡ ok tt
    → i < queue_count s
    → is_nonpos (quantum_at s i) ≡ false
quantum_at-positive s i h q = quanta_positive s.queue_quanta i (check-quanta s h) q

queued_count-modify :
    (qs : List (List ℕ)) (i : ℕ) (f : List ℕ → List ℕ) (n : ℕ)
    → i < length qs
    → ((q : List ℕ) → length (f q) ≡ n + length q)
    → queued_count (modify qs i f) ≡ n + queued_count qs
queued_count-modify [] i f n h k = absurd (omega arith)
queued_count-modify (q ∷ qs) zero f n h k = omega (arith, k q)
queued_count-modify (q ∷ qs) (suc i) f n h k =
    omega (arith, queued_count-modify qs i f n (omega arith) k)

queued_count-sort_queue :
    (s : Scheduler) (calls : Dict CallState) (qs : List (List ℕ))
    → (queued_count (sort_queue s calls qs) ≡ queued_count qs)
      × (length (sort_queue s calls qs) ≡ length qs)
unfolding sort_queue
queued_count-sort_queue s calls [] = ground arith
queued_count-sort_queue s calls (q ∷ qs) = ground (arith, length-sort (call_le s calls) q)

queue_at-modify :
    (qs : List (List ℕ)) (i j r x : ℕ)
    → i < length qs
    → occurrences x (get_or (modify qs i (λ q. q ++ (r ∷ []))) j [])
      ≡ occurrences x (get_or qs j []) + (if i == j && r == x then 1 else 0)
queue_at-modify [] i j r x h = absurd (omega arith)
queue_at-modify (q ∷ qs) zero zero r x h = ground (arith, occurrences-append x q (r ∷ []))
queue_at-modify (q ∷ qs) zero (suc j) r x h = ground arith
queue_at-modify (q ∷ qs) (suc i) zero r x h = ground arith
queue_at-modify (q ∷ qs) (suc i) (suc j) r x h =
    ground (arith, queue_at-modify qs i j r x (omega arith), ==_iff i j, ==_iff (suc i) (suc j))

queue_at-sort_queue :
    (s : Scheduler) (calls : Dict CallState) (qs : List (List ℕ)) (j x : ℕ)
    → occurrences x (get_or (sort_queue s calls qs) j []) ≡ occurrences x (get_or qs j [])
unfolding sort_queue
queue_at-sort_queue s calls [] j x = ground arith
queue_at-sort_queue s calls (q ∷ qs) zero x =
    ground (arith, count-sort (call_le s calls) (λ y. y == x) q)
queue_at-sort_queue s calls (q ∷ qs) (suc j) x = ground arith

-- A queue with a call put at its tail.
module _ (s : Scheduler) (calls : Dict CallState) (r i : ℕ) (e : EngineState) where
  abbrev pushed : EngineState
  pushed = record e { queues = sort_queue s calls (modify e.queues i (λ q. q ++ (r ∷ []))) }

  pub pushed-queue_at :
      (j x : ℕ)
      → i < length e.queues
      → occurrences x (get_or pushed.queues j [])
        ≡ occurrences x (get_or e.queues j []) + (if i == j && r == x then 1 else 0)
  pushed-queue_at j x h =
      queue_at-sort_queue s calls (modify e.queues i (λ q. q ++ (r ∷ []))) j x
      ∙ queue_at-modify e.queues i j r x h

  pub pushed-workload :
      i < length e.queues
      → (workload pushed ≡ suc (workload e)) × (length pushed.queues ≡ length e.queues)
  unfolding workload
  pushed-workload h =
      let pushes =
        queued_count-modify e.queues i (λ q. q ++ (r ∷ [])) 1 h
          (λ q. omega (arith, length-append q (r ∷ []))) in
      let (a, b) = queued_count-sort_queue s calls (modify e.queues i (λ q. q ++ (r ∷ []))) in
      (omega (arith, pushes, a), b ∙ length-modify e.queues i (λ q. q ++ (r ∷ [])))

-- The call is in the queue that it names, once more than before, with a quantum that is not used up;
-- the queues hold no other call more or less often, and what runs or is prefetched is as before.
pub record IsQueued (r : ℕ) (before after : EngineState) (st : Store) : Type 0 where
  pub call : CallState
  pub stored : lookup r st.calls ≡ some call
  pub queued : call.queue_index < queue_count st.scheduler
  pub quantum : is_nonpos call.quantum_remaining ≡ false
  pub placed :
      (j x : ℕ)
      → occurrences x (get_or after.queues j [])
        ≡ occurrences x (get_or before.queues j [])
          + (if call.queue_index == j && r == x then 1 else 0)
  pub running : after.running ≡ before.running
  pub prefetched : after.prefetched ≡ before.prefetched
  pub more : workload after ≡ suc (workload before)
  pub queues : length after.queues ≡ length before.queues

-- `enqueue` of a known call of a known program, under a checked configuration and on an engine with
-- a queue for each quantum, succeeds: the call is stored with the number of one of the queues and a
-- quantum that is not used up; it is in that queue once more than before, every other call is in
-- every queue as often as before, the running and the prefetched calls are the same, and the
-- engine's workload grows by one.
pub enqueue-IsQueued :
    (r time : ℕ) (st : Store) (e : EngineState) (c : CallState) (entry : ProcessEntry)
    → check st.scheduler ≡ ok tt
    → 0 < queue_count st.scheduler
    → length e.queues ≡ queue_count st.scheduler
    → lookup r st.calls ≡ some c
    → lookup c.spec.program_id st.processes ≡ some entry
    → (after : Store) × (f : EngineState) × (enqueue r time st e ≡ ok (after, f))
      × IsQueued r e f after
unfolding enqueue
enqueue-IsQueued r time st e c entry valid some_queue queues p q =
    let s = st.scheduler in
    let d : CallState = queued_state s entry e.engine_id time c in
    let low = assign_queue_index-lt s (priority_for_call s c entry) valid some_queue in
    let (more, same) =
      pushed-workload s (insert r d st.calls) r d.queue_index e (omega (arith, low, queues)) in
    let known = enqueue_known r time st e c entry in
    (
      known.0,
      known.1,
      rw (p, q) refl,
      record {
        call = d;
        stored = ground (arith, lookup-insert r r d st.calls);
        queued = low;
        quantum = quantum_at-positive s d.queue_index valid low;
        placed = λ j x.
            pushed-queue_at s (insert r d st.calls) r d.queue_index e j x
              (omega (arith, low, queues));
        running = refl;
        prefetched = refl;
        more = more;
        queues = same;
      },
    )
