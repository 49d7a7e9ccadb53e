-- ===== src/Core/Engine/Load.antt =====
-- The numbers of calls that an engine holds, after `schedule` of autellix/core/schedulers.py.
use autellix.Prelude.{
  ℕ, zero, suc, ◌+◌, ◌-◌, ◌≤◌, min, max, ◌≡◌, refl, sym, ◌∙◌, ap, ◌⊎◌, inl, inr, List, [], ◌∷◌,
  length, ltb, arith, take, drop, Bool-cases, length-append, length-take, length-drop, ltb→lt,
}
use autellix.Prelude.Dict.{Dict}
use autellix.Prelude.Sets.{nil-drop}
use autellix.Core.State.{CallState, EngineState, workload, iter_queued, queued_count}
use autellix.Core.Engine.{Scheduled, occupied, schedule}
use autellix.Core.Engine.Split.{IsSplit, schedule-IsSplit}

queued_count_lem : (qs : List (List ℕ)) → length (iter_queued qs) ≡ queued_count qs
unfolding iter_queued
queued_count_lem [] = refl
queued_count_lem (q ∷ qs) = omega (arith, length-append q (iter_queued qs), queued_count_lem qs)

pub record Lengths (slots : ℕ) (e f : EngineState) : Type 0 where
  pub chosen : ℕ
  pub fits : chosen ≡ min slots (length (iter_queued e.queues))
  pub queued : queued_count f.queues ≡ queued_count e.queues - slots
  pub total : queued_count e.queues ≡ length (iter_queued e.queues)
  pub running : length f.running ≡ length e.running + min (e.batch_size - length e.running) chosen
  pub prefetched :
      length f.prefetched ≡ length e.prefetched + (chosen - (e.batch_size - length e.running))

IsSplit-Lengths :
    (slots : ℕ) (e : EngineState) (s : Scheduled) → IsSplit slots e s → Lengths slots e s.engine
IsSplit-Lengths slots e s i =
    let places = e.batch_size - length e.running in
    record {
      chosen = length s.chosen;
      fits = ap length i.chosen ∙ length-take slots (iter_queued e.queues);
      queued = omega (
        arith,
        queued_count_lem s.engine.queues,
        queued_count_lem e.queues,
        ap length i.left,
        length-drop slots (iter_queued e.queues),
      );
      total = sym (queued_count_lem e.queues);
      running =
          ap length i.started
          ∙ omega
              (arith, length-append e.running (take places s.chosen), length-take places s.chosen);
      prefetched =
          ap length i.held
          ∙ omega (
            arith,
            length-append e.prefetched (drop places s.chosen),
            length-drop places s.chosen,
          );
    }

drop_all : (n : ℕ) (xs : List ℕ) → length xs ≤ n → drop n xs ≡ []
drop_all n [] h = sym (nil-drop n)
drop_all zero (x ∷ xs) h = absurd (omega arith)
drop_all (suc n) (x ∷ xs) h = drop_all n xs (omega arith)

-- `schedule` loses no call and adds none: the workload of the engine is what it was. The batch
-- never grows over its size unless it was over it before, the engine holds no more calls than the
-- target unless it did before, and a place is left free only when no call is queued.
pub schedule-workload :
    (target time : ℕ) (calls : Dict CallState) (e : EngineState)
    → let f = (schedule target time calls e).engine in
      (workload f ≡ workload e)
      × (length f.running ≤ max e.batch_size (length e.running))
      × (occupied f ≤ max target (occupied e))
      × ((target ≤ occupied f) ⊎ (iter_queued f.queues ≡ []))
unfolding workload
schedule-workload target time calls e =
    let s = schedule target time calls e in
    let i = schedule-IsSplit target time calls e in
    let n = IsSplit-Lengths (target - occupied e) e s i in
    (
      omega (arith, n.fits, n.queued, n.total, n.running, n.prefetched),
      omega (arith, n.running),
      omega (arith, n.fits, n.running, n.prefetched),
      elim (Bool-cases (ltb (occupied s.engine) target)) [
        | inr full ↦ inl (ground arith)
        | inl free ↦
            let more = ltb→lt (occupied s.engine) target free in
            inr (
              i.left
              ∙ drop_all (target - occupied e) (iter_queued e.queues)
                  (omega (arith, n.fits, n.running, n.prefetched)))
      ],
    )
