-- ===== src/Frontend/Response.antt =====
-- `SimulatedChatResponse` of autellix/frontend/response.py, less its text, the name of the thread
-- and the metadata.
use autellix.Prelude.{ℕ, ◌+◌, Option, none, some, ◌==◌, if◌then◌else◌}
use autellix.Prelude.Dict.{lookup}
use autellix.Core.State.{CallSpec, CallState, CallStatus, generated_tokens}
use autellix.Core.Balancer.{LoadBalancer}
use autellix.Core.Policy.{Kind}
use autellix.Core.Metrics.{ProgramMetrics, SimulationResult}

pub record Usage : Type 0 where
  pub prompt_tokens : ℕ
  pub completion_tokens : ℕ
  pub total_tokens : ℕ

-- The metrics of the result, and of the call's program if the result has it.
pub record ResultMetrics : Type 0 where
  pub scheduler_policy : Kind
  pub load_balancer_policy : LoadBalancer
  pub program_metric : Option ProgramMetrics

pub record SimulatedChatResponse : Type 0 where
  pub session_id : ℕ
  pub program_id : ℕ
  pub call_id : ℕ
  pub engine_id : Option ℕ
  pub submit_time : Option ℕ
  pub finish_time : Option ℕ
  pub status : CallStatus
  pub usage : Usage
  pub wait_time : ℕ
  pub executed_time : ℕ
  pub model_time : ℕ
  pub prefill_time : ℕ
  pub decode_time : ℕ
  pub swap_time : ℕ
  pub scheduler_time : ℕ
  pub service_priority : ℕ
  pub critical_path_service : ℕ
  pub queue_index : ℕ
  pub result : Option ResultMetrics

-- `state.spec.decode_tokens or state.spec.generated_tokens`.
abbrev pub completion_of : CallSpec → ℕ
unfolding generated_tokens
completion_of spec = if spec.decode_tokens == 0 then generated_tokens spec else spec.decode_tokens

abbrev pub usage_of : CallSpec → Usage
usage_of spec = record {
  prompt_tokens = spec.prefill_tokens;
  completion_tokens = completion_of spec;
  total_tokens = spec.prefill_tokens + completion_of spec;
}

abbrev pub metrics_of : ℕ → SimulationResult → ResultMetrics
metrics_of pid r = record {
  scheduler_policy = r.policy;
  load_balancer_policy = r.load_balancer;
  program_metric = lookup pid r.program_metrics;
}

-- `make_simulated_response`.
unfoldable pub make_simulated_response :
    ℕ → CallState → Option SimulationResult → SimulatedChatResponse
make_simulated_response session_id state result = record {
  session_id = session_id;
  program_id = state.spec.program_id;
  call_id = state.spec.call_id;
  engine_id = state.engine_id;
  submit_time = elim state.spec.submit_time [ none ↦ state.ready_time | some t ↦ some t ];
  finish_time = state.finish_time;
  status = state.status;
  usage = usage_of state.spec;
  wait_time = state.wait_time;
  executed_time = state.executed_time;
  model_time = state.model_time;
  prefill_time = state.prefill_time;
  decode_time = state.decode_time;
  swap_time = state.swap_time;
  scheduler_time = state.scheduler_time;
  service_priority = state.service_priority;
  critical_path_service = state.critical_path_service;
  queue_index = state.queue_index;
  result = elim result [ none ↦ none | some r ↦ some (metrics_of state.spec.program_id r) ];
}
