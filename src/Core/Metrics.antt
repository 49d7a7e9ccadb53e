-- ===== src/Core/Metrics.antt =====
-- The results of a run: `ProgramMetrics` and `SimulationResult` of autellix/core/models.py, and
-- `Simulator._result` of autellix/core/simulator.py. Quotients are exact.
pub mod Sequential
pub mod Visits
pub mod Totals
use autellix.Prelude.{
  ℕ, zero, suc, ◌+◌, ◌-◌, ◌*◌, min, max, Bool, true, false, List, [], ◌∷◌, Option, none, some,
  Result, ok, err, ◌>>=◌, ◌>>◌, require, or_fail, length, map, ltb, ◌==◌, if◌then◌else◌,
}
use autellix.Prelude.Dict.{Dict, lookup, insert, values}
use autellix.Prelude.Int.{ℤ, pos, sub_ℕ, ◌+ℤ◌, ◌*ℤ◌}
use autellix.Core.State.{CallSpec, CallState, EngineState, ProcessEntry, generated_tokens}
use autellix.Core.Balancer.{LoadBalancer}
use autellix.Core.Policy.{Kind}
use autellix.Core.Program.{ProgramSpec, find}
use autellix.Core.Run.{Simulator, calls_of, minimum}

pub record Ratio : Type 0 where
  pub num : ℤ
  pub den : ℕ

pub record ProgramMetrics : Type 0 where
  pub arrival_time : ℕ
  pub finish_time : ℕ
  pub response_time : ℤ
  pub wait_time : ℕ
  pub execution_time : ℕ
  pub prefill_time : ℕ
  pub decode_time : ℕ
  pub swap_time : ℕ
  pub scheduler_time : ℕ
  pub generated_tokens : ℕ
  pub token_latency : Ratio
  pub critical_path_response_time : ℤ
  pub critical_path_token_latency : Ratio
  pub call_count : ℕ

pub record SimulationResult : Type 0 where
  pub policy : Kind
  pub load_balancer : LoadBalancer
  pub makespan : ℕ
  pub program_metrics : Dict ProgramMetrics
  pub calls : Dict CallState
  pub process_table : Dict ProcessEntry
  pub engine_utilization : Dict Ratio
  pub prefetched_calls : ℕ

pub data MetricsError : Type 0 where
  no_call no_programs out_of_fuel : MetricsError

-- `is_sequential_program`: the numbers of children are those of the lists that the code keeps.
abbrev pub child_count : ℕ → Dict ℕ → ℕ
child_count id children = elim (lookup id children) [ none ↦ 0 | some n ↦ n ]

-- The loop over the parents of a call; `none` is the early return.
unfoldable pub add_children : List ℕ → Dict ℕ → Option (Dict ℕ)
add_children [] children = some children
add_children (p ∷ ps) children =
    let n = suc (child_count p children) in
    let rest = add_children ps (insert p n children) in if ltb 1 n then none else rest

abbrev pub is_root : CallSpec → Bool
is_root c = length c.parents == 0

unfoldable pub sequential_loop : List CallSpec → Dict ℕ → ℕ → Bool
unfolding add_children
sequential_loop [] children roots = roots == 1
sequential_loop (c ∷ cs) children roots = elim (ltb 1 (length c.parents)) [
  | true ↦ false
  | false ↦ elim (add_children c.parents children) [
    | none ↦ false
    | some next ↦ sequential_loop cs next (if is_root c then suc roots else roots)
  ]
]

unfoldable pub is_sequential_program : List CallSpec → Bool
unfolding sequential_loop
is_sequential_program calls = sequential_loop calls [] 0

-- `state.finish_time or 0`.
abbrev pub finish_of : CallState → ℕ
finish_of c = elim c.finish_time [ none ↦ 0 | some t ↦ t ]

abbrev pub maximum : (CallState → ℕ) → List CallState → ℕ
maximum f [] = 0
maximum f (c ∷ cs) = max (f c) (maximum f cs)

abbrev pub sum : (CallState → ℕ) → List CallState → ℕ
sum f [] = 0
sum f (c ∷ cs) = f c + sum f cs

-- The time that a call took once it was ready.
abbrev pub local_response : ℕ → CallState → ℕ
local_response arrival c =
    let ready : ℕ = elim c.ready_time [ none ↦ arrival | some t ↦ t ] in
    let finish : ℕ = elim c.finish_time [ none ↦ ready | some t ↦ t ] in finish - ready

-- The largest of the values of a list, 0 for none.
abbrev pub largest : (ℕ → Result MetricsError ℕ) → List ℕ → Result MetricsError ℕ
largest f [] = ok 0
largest f (x ∷ xs) = do n ← f x; rest ← largest f xs; ok (max n rest)

-- `visit`, on fuel. The values that the code remembers are those that it would compute again.
unfoldable pub visit : ℕ → ℕ → List CallSpec → Dict CallState → ℕ → Result MetricsError ℕ
visit zero arrival calls states id = err out_of_fuel
visit (suc n) arrival calls states id = do
  spec ← or_fail (find id calls) no_call
  c ← or_fail (lookup id states) no_call
  longest ← largest (visit n arrival calls states) spec.parents
  ok (longest + local_response arrival c)

-- `[self.calls[spec.key] for spec in program.calls]`.
unfoldable pub states_of : List CallSpec → Dict CallState → Result MetricsError (List CallState)
states_of [] states = ok []
states_of (c ∷ cs) states = do
  state ← or_fail (lookup c.call_id states) no_call
  rest ← states_of cs states
  ok (state ∷ rest)

-- `_critical_path_response_time`. A path has at most all calls.
unfoldable pub critical_path_response_time : ProgramSpec → Dict CallState → Result MetricsError ℤ
unfolding is_sequential_program visit states_of
critical_path_response_time p states =
    if is_sequential_program p.calls
    then (do found ← states_of p.calls states; ok (sub_ℕ (maximum finish_of found) p.arrival_time))
    else (do
      longest ←
          largest (visit (length p.calls) p.arrival_time p.calls states)
            (map (λ c. c.call_id) p.calls)
      ok (pos longest))

abbrev pub tokens_of : List CallSpec → ℕ
unfolding generated_tokens
tokens_of [] = 0
tokens_of (c ∷ cs) = generated_tokens c + tokens_of cs

-- The metrics of one program.
unfoldable pub program_metrics : ProgramSpec → Dict CallState → Result MetricsError ProgramMetrics
unfolding critical_path_response_time
program_metrics p states = do
  found ← states_of p.calls states
  critical ← critical_path_response_time p states
  let finish = maximum finish_of found
  let tokens = max 1 (tokens_of p.calls)
  let response = sub_ℕ finish p.arrival_time
  ok (record {
    arrival_time = p.arrival_time;
    finish_time = finish;
    response_time = response;
    wait_time = sum (λ c. c.wait_time) found;
    execution_time = sum (λ c. c.model_time) found;
    prefill_time = sum (λ c. c.prefill_time) found;
    decode_time = sum (λ c. c.decode_time) found;
    swap_time = sum (λ c. c.swap_time) found;
    scheduler_time = sum (λ c. c.scheduler_time) found;
    generated_tokens = tokens_of p.calls;
    token_latency = record {
      num = if is_sequential_program p.calls then response else critical;
      den = tokens;
    };
    critical_path_response_time = critical;
    critical_path_token_latency = record { num = critical; den = tokens };
    call_count = length p.calls;
  })

-- The loop over the programs.
unfoldable pub all_metrics :
    List ProgramSpec → Dict CallState → Result MetricsError (Dict ProgramMetrics)
unfolding program_metrics
all_metrics [] calls = ok []
all_metrics (p ∷ ps) calls = do
  m ← program_metrics p (calls_of p.program_id calls)
  rest ← all_metrics ps calls
  ok ((p.program_id, m) ∷ rest)

abbrev pub utilization_of : EngineState → Ratio
utilization_of e =
    if e.total_slot_steps == 0
    then record { num = pos 0; den = 1 }
    else record { num = pos e.busy_slot_steps; den = e.total_slot_steps }

abbrev pub arrivals_min : List ProgramSpec → Result MetricsError ℕ
arrivals_min [] = err no_programs
arrivals_min (p ∷ ps) = ok (minimum p.arrival_time (map (λ q. q.arrival_time) ps))

abbrev pub finish_max : ℕ → Dict ProgramMetrics → ℕ
finish_max least [] = least
finish_max least ((pid, m) ∷ rest) = finish_max (max least m.finish_time) rest

-- `_result`.
unfoldable pub result : Simulator → Result MetricsError SimulationResult
unfolding all_metrics
result s = do
  least ← arrivals_min (values s.programs)
  metrics ← all_metrics (values s.programs) s.store.calls
  ok (record {
    policy = s.store.scheduler.kind;
    load_balancer = s.balancer;
    makespan = finish_max least metrics - least;
    program_metrics = metrics;
    calls = s.store.calls;
    process_table = s.store.processes;
    engine_utilization = map (λ p. (p.0.engine_id, utilization_of (p.0))) s.engines;
    prefetched_calls = s.prefetched_calls;
  })
