-- ===== src/Core/Metrics/Totals.antt =====
-- The totals and averages of `SimulationResult` in autellix/core/models.py.
use autellix.Prelude.{ℕ, ◌+◌, ◌*◌, List, [], ◌∷◌, length}
use autellix.Prelude.Dict.{Dict, values}
use autellix.Prelude.Int.{ℤ, pos, ◌+ℤ◌, ◌*ℤ◌}
use autellix.Core.Balancer.{LoadBalancer}
use autellix.Core.Policy.{Kind}
use autellix.Core.Metrics.{Ratio, ProgramMetrics, SimulationResult}

abbrev pub total : (ProgramMetrics → ℕ) → List ProgramMetrics → ℕ
total f [] = 0
total f (m ∷ ms) = f m + total f ms

unfoldable pub total_wait_time : SimulationResult → ℕ
total_wait_time r = total (λ m. m.wait_time) (values r.program_metrics)

unfoldable pub total_execution_time : SimulationResult → ℕ
total_execution_time r = total (λ m. m.execution_time) (values r.program_metrics)

unfoldable pub total_prefill_time : SimulationResult → ℕ
total_prefill_time r = total (λ m. m.prefill_time) (values r.program_metrics)

unfoldable pub total_decode_time : SimulationResult → ℕ
total_decode_time r = total (λ m. m.decode_time) (values r.program_metrics)

unfoldable pub total_swap_time : SimulationResult → ℕ
total_swap_time r = total (λ m. m.swap_time) (values r.program_metrics)

unfoldable pub total_scheduler_time : SimulationResult → ℕ
total_scheduler_time r = total (λ m. m.scheduler_time) (values r.program_metrics)

unfoldable pub total_generated_tokens : SimulationResult → ℕ
total_generated_tokens r = total (λ m. m.generated_tokens) (values r.program_metrics)

abbrev pub total_responses : List ProgramMetrics → ℤ
unfolding ◌+ℤ◌
total_responses [] = pos 0
total_responses (m ∷ ms) = m.response_time +ℤ total_responses ms

unfoldable pub total_response_time : SimulationResult → ℤ
total_response_time r = total_responses (values r.program_metrics)

abbrev pub add_ratio : Ratio → Ratio → Ratio
unfolding ◌+ℤ◌ ◌*ℤ◌
add_ratio a b = record { num = a.num *ℤ pos b.den +ℤ b.num *ℤ pos a.den; den = a.den * b.den }

abbrev pub sum_ratios : (ProgramMetrics → Ratio) → List ProgramMetrics → Ratio
sum_ratios f [] = record { num = pos 0; den = 1 }
sum_ratios f (m ∷ ms) = add_ratio (f m) (sum_ratios f ms)

-- A total over the programs, divided by their number; 0 for none.
abbrev pub average : Ratio → List ProgramMetrics → Ratio
average total [] = record { num = pos 0; den = 1 }
average total (m ∷ ms) = record { num = total.num; den = total.den * length (m ∷ ms) }

unfoldable pub avg_token_latency : SimulationResult → Ratio
avg_token_latency r =
    let ms = values r.program_metrics in average (sum_ratios (λ m. m.token_latency) ms) ms

unfoldable pub avg_critical_path_token_latency : SimulationResult → Ratio
avg_critical_path_token_latency r =
    let ms = values r.program_metrics in
    average (sum_ratios (λ m. m.critical_path_token_latency) ms) ms

unfoldable pub avg_response_time : SimulationResult → Ratio
unfolding total_response_time
avg_response_time r =
    average (record { num = total_response_time r; den = 1 }) (values r.program_metrics)

unfoldable pub avg_wait_time : SimulationResult → Ratio
unfolding total_wait_time
avg_wait_time r =
    average (record { num = pos (total_wait_time r); den = 1 }) (values r.program_metrics)

pub record Summary : Type 0 where
  pub policy : Kind
  pub load_balancer : LoadBalancer
  pub scheduler_policy : Kind
  pub load_balancer_policy : LoadBalancer
  pub programs : ℕ
  pub calls : ℕ
  pub makespan : ℕ
  pub prefetched_calls : ℕ
  pub total_wait_time : ℕ
  pub avg_wait_time : Ratio
  pub avg_response_time : Ratio
  pub avg_token_latency : Ratio
  pub avg_critical_path_token_latency : Ratio
  pub total_generated_tokens : ℕ
  pub total_execution_time : ℕ
  pub total_prefill_time : ℕ
  pub total_decode_time : ℕ
  pub total_swap_time : ℕ
  pub total_scheduler_time : ℕ
  pub engine_utilization : Dict Ratio

-- `summary`.
unfoldable pub summary : SimulationResult → Summary
unfolding total_wait_time avg_wait_time avg_response_time avg_token_latency
    avg_critical_path_token_latency total_generated_tokens total_execution_time total_prefill_time
    total_decode_time total_swap_time total_scheduler_time
summary r = record {
  policy = r.policy;
  load_balancer = r.load_balancer;
  scheduler_policy = r.policy;
  load_balancer_policy = r.load_balancer;
  programs = length r.program_metrics;
  calls = length r.calls;
  makespan = r.makespan;
  prefetched_calls = r.prefetched_calls;
  total_wait_time = total_wait_time r;
  avg_wait_time = avg_wait_time r;
  avg_response_time = avg_response_time r;
  avg_token_latency = avg_token_latency r;
  avg_critical_path_token_latency = avg_critical_path_token_latency r;
  total_generated_tokens = total_generated_tokens r;
  total_execution_time = total_execution_time r;
  total_prefill_time = total_prefill_time r;
  total_decode_time = total_decode_time r;
  total_swap_time = total_swap_time r;
  total_scheduler_time = total_scheduler_time r;
  engine_utilization = r.engine_utilization;
}
