-- ===== src/Core/Run/Build.antt =====
-- The construction of `Simulator` in autellix/core/simulator.py, and the calls added to it later.
-- Each new call object gets the next number; none is ever removed.
use autellix.Prelude.{
  ℕ, zero, suc, ◌+◌, Bool, true, false, not, ◌&&◌, List, [], ◌∷◌, ◌++◌, Option, none, some, ok,
  ◌>>=◌, ◌>>◌, require, map_err, length, map, ◌==◌, if◌then◌else◌,
}
use autellix.Prelude.Dict.{Dict, lookup, insert, has_key}
use autellix.Prelude.Int.{ℤ, pos, pos_part}
use autellix.Core.State.{CallSpec, CallState, new_state, EngineState, new_engine, is_positive}
use autellix.Core.Balancer.{LoadBalancer}
use autellix.Core.Execution.{ExecutionModel}
use autellix.Core.Policy.{Scheduler, queue_count, srpt}
use autellix.Core.Program.{ProgramSpec, new_program}
use autellix.Core.Run.{
  Simulator, Run, duplicate_program, duplicate_call, no_programs, bad_num_engines,
  bad_schedule_interval, in_engine, in_program, minimum,
}

-- The arguments of `Simulator`.
pub record Arguments : Type 0 where
  pub programs : List ProgramSpec
  pub scheduler : Scheduler
  pub balancer : LoadBalancer
  pub num_engines : ℤ
  pub batch_size : ℤ
  pub schedule_interval : ℤ
  pub overprovision : ℤ
  pub execution : ExecutionModel
  pub max_time : ℕ

-- What the constructor fills.
pub record Built : Type 0 where
  pub programs : Dict ProgramSpec
  pub calls : Dict CallState
  pub pending : List ℕ
  pub remaining : Dict ℕ

abbrev pub add_spec : CallSpec → Built → Built
add_spec spec b = record b {
  calls = b.calls ++ ((length b.calls, new_state spec) ∷ []);
  pending = b.pending ++ (length b.calls ∷ []);
}

unfoldable pub add_specs : List CallSpec → Built → Built
add_specs [] b = b
add_specs (c ∷ cs) b = add_specs cs (add_spec c b)

abbrev pub total_time : List CallSpec → ℕ
total_time [] = 0
total_time (c ∷ cs) = c.model_time + total_time cs

-- `_build_state`.
unfoldable pub build_state : List ProgramSpec → Built → Run Built
unfolding add_specs
build_state [] b = ok b
build_state (p ∷ ps) b = do
  require (not (has_key p.program_id b.programs)) duplicate_program
  build_state ps (
      add_specs p.calls (record b {
        programs = insert p.program_id p b.programs;
        remaining = insert p.program_id (total_time p.calls) b.remaining;
      }))

-- `set_program_remaining`, which only SRPT has.
unfoldable pub set_program_remaining : Dict ℕ → Scheduler → Scheduler
set_program_remaining remaining s = elim s.kind [
  | srpt ↦ record s { remaining_by_program = remaining }
  | _ ↦ s
]

-- The engines, each with an empty window.
unfoldable pub make_engines : ℕ → ℕ → ℤ → ℕ → Run (List (EngineState × ℕ))
make_engines zero i batch_size queues = ok []
make_engines (suc n) i batch_size queues = do
  e ← map_err in_engine (new_engine i batch_size (pos queues))
  rest ← make_engines n (suc i) batch_size queues
  ok ((e, 0) ∷ rest)

abbrev pub no_program : List ProgramSpec → Bool
no_program [] = true
no_program (p ∷ ps) = false

-- `min(program.arrival_time for program in programs)`.
abbrev pub first_arrival : List ProgramSpec → ℕ
first_arrival [] = 0
first_arrival (p ∷ ps) = minimum p.arrival_time (map (λ q. q.arrival_time) ps)

-- `Simulator(programs, scheduler, load_balancer, ...)`.
unfoldable pub new_simulator : Arguments → Run Simulator
unfolding build_state set_program_remaining make_engines
new_simulator a = do
  require (not (no_program a.programs)) no_programs
  require (is_positive a.num_engines) bad_num_engines
  require (is_positive a.schedule_interval) bad_schedule_interval
  engines ← make_engines (pos_part a.num_engines) 0 a.batch_size (queue_count a.scheduler)
  b ← build_state a.programs (record { programs = []; calls = []; pending = []; remaining = [] })
  ok (record {
    programs = b.programs;
    store = record {
      calls = b.calls;
      processes = [];
      scheduler = set_program_remaining b.remaining a.scheduler;
    };
    balancer = a.balancer;
    execution = a.execution;
    engines = engines;
    pending = b.pending;
    schedule_interval = pos_part a.schedule_interval;
    overprovision = pos_part a.overprovision;
    max_time = a.max_time;
    time = first_arrival a.programs;
    prefetched_calls = 0;
  })

-- Whether the simulator has a call with the key of this one.
abbrev pub has_call : ℕ → ℕ → Dict CallState → Bool
has_call pid cid [] = false
has_call pid cid ((r, c) ∷ rest) =
    if c.spec.program_id == pid && c.spec.call_id == cid then true else has_call pid cid rest

-- The program of a new call, with that call at its end.
unfoldable pub extended_program : CallSpec → ℤ → Dict ProgramSpec → Run ProgramSpec
extended_program spec arrival programs = elim (lookup spec.program_id programs) [
  | some current ↦
      map_err in_program
        (new_program spec.program_id (current.calls ++ (spec ∷ [])) (pos current.arrival_time))
  | none ↦ map_err in_program (new_program spec.program_id (spec ∷ []) arrival)
]

abbrev pub start_of : CallSpec → Option ℤ → ℕ → ℤ
start_of spec (some t) time = t
start_of spec none time = elim spec.submit_time [ none ↦ pos time | some t ↦ pos t ]

-- The remaining times of SRPT with the new call's.
unfoldable pub add_remaining : CallSpec → Scheduler → Scheduler
unfolding set_program_remaining
add_remaining spec s =
    let before : ℕ = elim (lookup spec.program_id s.remaining_by_program) [
      | none ↦ 0
      | some n ↦ n
    ] in
    set_program_remaining (insert spec.program_id (before + spec.model_time) s.remaining_by_program)
      s

-- `add_call`. A simulator has a program from its construction on, so the new one is never its first.
unfoldable pub add_call : CallSpec → Option ℤ → Bool → Simulator → Run Simulator
unfolding extended_program add_remaining
add_call spec arrival_time replace_existing s =
    if has_call spec.program_id spec.call_id s.store.calls
    then (do require replace_existing duplicate_call; ok s)
    else (do
      program ← extended_program spec (start_of spec arrival_time s.time) s.programs
      ok (record s {
        programs = insert spec.program_id program s.programs;
        store = record (s.store) {
          calls = s.store.calls ++ ((length s.store.calls, new_state spec) ∷ []);
          scheduler = add_remaining spec s.store.scheduler;
        };
        pending = s.pending ++ (length s.store.calls ∷ []);
      }))
