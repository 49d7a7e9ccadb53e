-- ===== src/Core/Samples/Engines.antt =====
-- Runs of the engines, balancers and costs of autellix/core on two engines and four calls.
use autellix.Prelude.{
  ℕ, ◌⊎◌, zero, suc, ap, ◌∙◌, some_injective, ◌≤◌, ◌≡◌, max, refl, sym, true, false, List, [], ◌∷◌,
  some, none, ok, length,
}
use autellix.Prelude.Dict.{Dict}
use autellix.Prelude.Int.{pos}
use autellix.Core.State.{
  CallSpec, CallState, EngineState, ProcessEntry, new_state, workload, iter_queued,
}
use autellix.Core.Engine.{
  schedule, schedule_loop, pop_next_queued, place_call, start_call, occupied,
}
use autellix.Core.Engine.Split.{IsSplit, schedule-IsSplit}
use autellix.Core.Engine.Load.{schedule-workload}
use autellix.Core.Balancer.{
  locality_aware, assign, assign_local, assign_to, least_used, least_from, Assignment,
}
use autellix.Core.Balancer.Locality.{IsNumbered, assign_sticks}
use autellix.Core.Execution.{ExecutionModel}

abbrev pub spec : ℕ → ℕ → ℕ → CallSpec
spec id tokens time = record {
  call_id = id;
  program_id = 7;
  model_time = time;
  prefill_tokens = tokens;
  decode_tokens = 0;
  parents = [];
  release_delay = 0;
  submit_time = none;
}

abbrev pub calls : Dict CallState
calls =
    (1, new_state (spec 1 10 3))
    ∷ (2, new_state (spec 2 10 1))
    ∷ (3, new_state (spec 3 5000 2))
    ∷ (4, new_state (spec 4 5000 2))
    ∷ []

abbrev pub first_call : CallState
first_call = new_state (spec 1 10 3)

abbrev pub entry : ProcessEntry
entry = record {
  arrival_time = 0;
  service_time = 3;
  waiting_time = 2;
  engine_id = none;
  engine_ids = [];
  completed_engine_ids = [];
  active_call_ids = 1 ∷ [];
  completed_call_ids = [];
  thread_metadata = [];
  last_arrival = none;
  last_completion = none;
}

abbrev pub engine : ℕ → List (List ℕ) → List ℕ → List ℕ → EngineState
engine id queues running prefetched = record {
  engine_id = id;
  batch_size = 2;
  queues = queues;
  running = running;
  prefetched = prefetched;
  busy_slot_steps = 0;
  total_slot_steps = 0;
}

abbrev waiting_engine : EngineState
waiting_engine = engine 0 ([] ∷ (3 ∷ 1 ∷ []) ∷ (4 ∷ 2 ∷ []) ∷ []) [] []

schedule-IsSplit_example : IsSplit 3 waiting_engine (schedule 3 5 calls waiting_engine)
schedule-IsSplit_example = schedule-IsSplit 3 5 calls waiting_engine

schedule_example : (schedule 3 5 calls waiting_engine).chosen ≡ 3 ∷ 1 ∷ 4 ∷ []
unfolding schedule schedule_loop pop_next_queued place_call start_call
schedule_example = refl

schedule-workload_example :
    let f = (schedule 3 5 calls waiting_engine).engine in
    (workload f ≡ workload waiting_engine)
    × (length f.running ≤ max 2 0)
    × (occupied f ≤ max 3 0)
    × ((3 ≤ occupied f) ⊎ (iter_queued f.queues ≡ []))
schedule-workload_example = schedule-workload 3 5 calls waiting_engine

abbrev prefetched_engine : EngineState
prefetched_engine = engine 0 ([] ∷ []) (1 ∷ []) (3 ∷ 4 ∷ [])

abbrev engines : List EngineState
engines = waiting_engine ∷ engine 1 ([] ∷ []) [] [] ∷ []

abbrev later_engines : List EngineState
later_engines = engine 0 ([] ∷ []) [] [] ∷ engine 1 ((2 ∷ []) ∷ []) [] [] ∷ []

least_used_engines : least_used engines ≡ some (engine 1 ([] ∷ []) [] [])
unfolding least_used least_from workload
least_used_engines = refl

engines-IsNumbered :
    (e f : EngineState) → e.engine_id ≡ 0 → f.engine_id ≡ 1 → IsNumbered (e ∷ f ∷ [])
engines-IsNumbered e f p q zero g h = ap (λ x. x.engine_id) (sym (some_injective h)) ∙ p
engines-IsNumbered e f p q (suc zero) g h = ap (λ x. x.engine_id) (sym (some_injective h)) ∙ q
engines-IsNumbered e f p q (suc (suc i)) g h = cc

abbrev pinned_entry : ProcessEntry
pinned_entry = record entry { engine_id = some 1; engine_ids = 1 ∷ [] }

abbrev first_assignment : Assignment
first_assignment = record {
  balancer = locality_aware (pos 2048);
  engine = engine 1 ([] ∷ []) [] [];
  processes = (7, pinned_entry) ∷ [];
}

abbrev second_assignment : Assignment
second_assignment = record first_assignment { engine = engine 1 ((2 ∷ []) ∷ []) [] [] }

assign_first :
    assign (spec 3 5000 2) engines ((7, entry) ∷ []) (locality_aware (pos 2048))
    ≡ ok first_assignment
unfolding assign assign_local assign_to least_used least_from workload
assign_first = refl

assign_second :
    assign (spec 4 5000 2) later_engines ((7, pinned_entry) ∷ []) (locality_aware (pos 2048))
    ≡ ok second_assignment
unfolding assign assign_local assign_to least_used least_from workload
assign_second = refl

assign_sticks_example : second_assignment.engine.engine_id ≡ 1
assign_sticks_example =
    assign_sticks (pos 2048) (spec 3 5000 2) (spec 4 5000 2) engines later_engines ((7, entry) ∷ [])
      ((7, pinned_entry) ∷ []) first_assignment second_assignment
      (engines-IsNumbered waiting_engine (engine 1 ([] ∷ []) [] []) refl refl)
      (engines-IsNumbered (engine 0 ([] ∷ []) [] []) (engine 1 ((2 ∷ []) ∷ []) [] []) refl refl)
      refl refl refl assign_first refl assign_second

abbrev pub model : ExecutionModel
model = record {
  prefill_tokens_per_step = 512;
  decode_tokens_per_step = 64;
  system_prompt_tokens = 256;
  prefix_caching = true;
  locality_cache_bonus = record { num = 90; den = 100 };
  remote_cache_bonus = record { num = 25; den = 100 };
  swap_penalty_per_preemption = 7;
  batched_swap = true;
  scheduler_overhead_per_call = 1;
  fixed_model_time = false;
}
