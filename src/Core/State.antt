-- ===== src/Core/State.antt =====
-- The mutable data of autellix/core/models.py. A call object is known by a number, its identity;
-- queues hold these numbers. Times are whole steps; services are sums of model times. Fields that
-- are only reported (the cache hit rate, names of threads, metadata) are left out.
use autellix.Prelude.{
  ℕ, Bool, true, false, List, [], ◌∷◌, ◌++◌, ◌+◌, Option, none, some, replicate, length, Result, ok,
  ◌>>◌, require, ◌==◌, not, mem, if◌then◌else◌,
}
use autellix.Prelude.Dict.{Dict}
use autellix.Prelude.Float.{Float, inf}
use autellix.Prelude.Int.{ℤ, pos, negsuc, pos_part}

pub data CallStatus : Type 0 where
  pending queued prefetched running finished : CallStatus

pub record CallSpec : Type 0 where
  pub call_id : ℕ
  pub program_id : ℕ
  pub model_time : ℕ
  pub prefill_tokens : ℕ
  pub decode_tokens : ℕ
  pub parents : List ℕ
  pub release_delay : ℕ
  pub submit_time : Option ℕ

-- The arguments of `CallSpec`, before its checks.
pub record CallArguments : Type 0 where
  pub call_id : ℕ
  pub program_id : ℕ
  pub model_time : ℤ
  pub prefill_tokens : ℤ
  pub decode_tokens : ℤ
  pub parents : List ℕ
  pub release_delay : ℤ
  pub submit_time : Option ℤ

pub data CallError : Type 0 where
  bad_model_time bad_tokens bad_release_delay bad_submit_time : CallError

abbrev pub is_negative : ℤ → Bool
is_negative (pos n) = false
is_negative (negsuc n) = true

abbrev pub is_positive : ℤ → Bool
is_positive (pos n) = not (n == 0)
is_positive (negsuc n) = false

abbrev pub submit_time_ok : Option ℤ → Bool
submit_time_ok none = true
submit_time_ok (some t) = not (is_negative t)

-- `CallSpec.__post_init__`.
unfoldable pub new_call : CallArguments → Result CallError CallSpec
new_call a = do
  require (is_positive a.model_time) bad_model_time
  require (if is_negative a.prefill_tokens then false else not (is_negative a.decode_tokens))
      bad_tokens
  require (not (is_negative a.release_delay)) bad_release_delay
  require (submit_time_ok a.submit_time) bad_submit_time
  ok (record {
    call_id = a.call_id;
    program_id = a.program_id;
    model_time = pos_part a.model_time;
    prefill_tokens = pos_part a.prefill_tokens;
    decode_tokens = pos_part a.decode_tokens;
    parents = a.parents;
    release_delay = pos_part a.release_delay;
    submit_time = elim a.submit_time [ none ↦ none | some t ↦ some (pos_part t) ];
  })

-- `CallSpec.generated_tokens`.
unfoldable pub generated_tokens : CallSpec → ℕ
generated_tokens c = if c.decode_tokens == 0 then c.model_time else c.decode_tokens

pub record CallState : Type 0 where
  pub spec : CallSpec
  pub remaining_time : ℕ
  pub model_time : ℕ
  pub prefill_time : ℕ
  pub decode_time : ℕ
  pub swap_time : ℕ
  pub swap_remaining : ℕ
  pub scheduler_time : ℕ
  pub scheduler_remaining : ℕ
  pub status : CallStatus
  pub ready_time : Option ℕ
  pub start_time : Option ℕ
  pub finish_time : Option ℕ
  pub engine_id : Option ℕ
  pub queue_index : ℕ
  pub queue_order : ℕ
  pub max_queue_index : ℕ
  pub quantum_remaining : Float
  pub service_priority : ℕ
  pub critical_path_service : ℕ
  pub wait_time : ℕ
  pub wait_time_window : ℕ
  pub executed_time : ℕ
  pub run_time_window : ℕ

-- `CallState(spec)`.
abbrev pub new_state : CallSpec → CallState
new_state spec = record {
  spec = spec;
  remaining_time = spec.model_time;
  model_time = spec.model_time;
  prefill_time = 0;
  decode_time = 0;
  swap_time = 0;
  swap_remaining = 0;
  scheduler_time = 0;
  scheduler_remaining = 0;
  status = pending;
  ready_time = none;
  start_time = none;
  finish_time = none;
  engine_id = none;
  queue_index = 0;
  queue_order = 0;
  max_queue_index = 0;
  quantum_remaining = inf;
  service_priority = 0;
  critical_path_service = 0;
  wait_time = 0;
  wait_time_window = 0;
  executed_time = 0;
  run_time_window = 0;
}

pub record ThreadMetadata : Type 0 where
  pub arrival_time : ℕ
  pub engine_id : ℕ
  pub queue_index : ℕ
  pub wait_time : ℕ
  pub service_time : ℕ
  pub critical_path_service : ℕ
  pub finish_time : Option ℕ

-- The sets are lists of numbers, the thread metadata is kept by call identifier.
pub record ProcessEntry : Type 0 where
  pub arrival_time : ℕ
  pub service_time : ℕ
  pub waiting_time : ℕ
  pub engine_id : Option ℕ
  pub engine_ids : List ℕ
  pub completed_engine_ids : List ℕ
  pub active_call_ids : List ℕ
  pub completed_call_ids : List ℕ
  pub thread_metadata : Dict ThreadMetadata
  pub last_arrival : Option ℕ
  pub last_completion : Option ℕ

-- `set.add` and `set.discard`.
abbrev pub add : ℕ → List ℕ → List ℕ
add x xs = if mem x xs then xs else x ∷ xs

abbrev pub discard : ℕ → List ℕ → List ℕ
discard x [] = []
discard x (y ∷ ys) = if y == x then discard x ys else y ∷ discard x ys

pub record EngineState : Type 0 where
  pub engine_id : ℕ
  pub batch_size : ℕ
  pub queues : List (List ℕ)
  pub running : List ℕ
  pub prefetched : List ℕ
  pub busy_slot_steps : ℕ
  pub total_slot_steps : ℕ

pub data EngineError : Type 0 where
  bad_batch_size bad_queue_count : EngineError

-- `EngineState(engine_id, batch_size, queue_count)`.
unfoldable pub new_engine : ℕ → ℤ → ℤ → Result EngineError EngineState
new_engine engine_id batch_size queue_count = do
  require (is_positive batch_size) bad_batch_size
  require (is_positive queue_count) bad_queue_count
  ok (record {
    engine_id = engine_id;
    batch_size = pos_part batch_size;
    queues = replicate (pos_part queue_count) [];
    running = [];
    prefetched = [];
    busy_slot_steps = 0;
    total_slot_steps = 0;
  })

-- `sum(len(q) for q in self.queues)`.
abbrev pub queued_count : List (List ℕ) → ℕ
queued_count [] = 0
queued_count (q ∷ qs) = length q + queued_count qs

-- `EngineState.workload`.
unfoldable pub workload : EngineState → ℕ
workload e = length e.running + length e.prefetched + queued_count e.queues

-- `EngineState.iter_queued`.
unfoldable pub iter_queued : List (List ℕ) → List ℕ
iter_queued [] = []
iter_queued (q ∷ qs) = q ++ iter_queued qs
