-- ===== src/Core/Balancer.antt =====
-- The load balancers of autellix/core/load_balancer.py.
pub mod Locality
use autellix.Prelude.{
  ℕ, suc, ◌%◌, Bool, true, false, not, List, [], ◌∷◌, Option, none, some, Result, ok, err, ◌>>=◌,
  or_fail, length, get_elem?, if◌then◌else◌,
}
use autellix.Prelude.Dict.{Dict, lookup, update}
use autellix.Prelude.Int.{ℤ, pos, ltb_ℤ}
use autellix.Prelude.Sort.{lex_le}
use autellix.Core.State.{CallSpec, EngineState, ProcessEntry, workload, add}

-- The classes with their state: the token threshold, and the next turn.
pub data LoadBalancer : Type 0 where
  locality_aware : ℤ → LoadBalancer
  least_used_first : LoadBalancer
  round_robin : ℕ → LoadBalancer

pub data BalanceError : Type 0 where
  unknown_program no_engine : BalanceError

abbrev pub load_key : EngineState → ℕ × ℕ
load_key e = (workload e, e.engine_id)

-- The rest of `min`, from the best engine so far, which a later equal one does not replace.
unfoldable pub least_from : EngineState → List EngineState → EngineState
least_from best [] = best
least_from best (e ∷ es) = least_from (if lex_le (load_key best) (load_key e) then best else e) es

-- `least_used`; `none` is the error of `min` on no engine.
unfoldable pub least_used : List EngineState → Option EngineState
unfolding least_from
least_used [] = none
least_used (e ∷ es) = some (least_from e es)

pub record Assignment : Type 0 where
  pub balancer : LoadBalancer
  pub engine : EngineState
  pub processes : Dict ProcessEntry

abbrev pub used : EngineState → ProcessEntry → ProcessEntry
used e entry = record entry { engine_ids = add e.engine_id entry.engine_ids }

abbrev pub pinned : EngineState → ProcessEntry → ProcessEntry
pinned e entry = record entry { engine_id = some e.engine_id }

abbrev pub is_short : ℤ → CallSpec → Bool
is_short threshold call = not (ltb_ℤ threshold (pos call.prefill_tokens))

module _ (call : CallSpec) (engines : List EngineState) (table : Dict ProcessEntry) where
  unfoldable pub assign_to : LoadBalancer → EngineState → Dict ProcessEntry → Assignment
  assign_to balancer e processes = record {
    balancer = balancer;
    engine = e;
    processes = update call.program_id (used e) processes;
  }

  -- `LocalityAwareLoadBalancer.assign`.
  unfoldable pub assign_local : ℤ → ProcessEntry → Result BalanceError Assignment
  unfolding assign_to
  assign_local threshold entry =
      if is_short threshold call
      then (do
        e ← or_fail (least_used engines) no_engine
        ok (assign_to (locality_aware threshold) e table))
      else elim entry.engine_id [
        | some home ↦ do
          e ← or_fail (get_elem? engines home) no_engine
          ok (assign_to (locality_aware threshold) e table)
        | none ↦ do
          e ← or_fail (least_used engines) no_engine
          ok (assign_to (locality_aware threshold) e (update call.program_id (pinned e) table))
      ]

  -- `assign` of each class.
  unfoldable pub assign : LoadBalancer → Result BalanceError Assignment
  unfolding assign_to assign_local
  assign (locality_aware threshold) = do
    entry ← or_fail (lookup call.program_id table) unknown_program
    assign_local threshold entry
  assign least_used_first = do
    e ← or_fail (least_used engines) no_engine
    entry ← or_fail (lookup call.program_id table) unknown_program
    ok (assign_to least_used_first e table)
  assign (round_robin next) = do
    e ← or_fail (get_elem? engines (next % length engines)) no_engine
    entry ← or_fail (lookup call.program_id table) unknown_program
    ok (assign_to (round_robin (suc next)) e table)
