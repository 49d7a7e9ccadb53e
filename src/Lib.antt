-- ===== src/Lib.antt =====
-- Autellix, a program-aware scheduler for calls of language models, and its CPU simulator.
--
-- The serving runtime (Runtime, autellix/runtime) has four parts. The coordinator
-- `InferenceEngine` (Runtime/Coordinator, engine.py) opens sessions, places each call on a replica
-- and settles its future when a worker reports. Each worker runs a `RuntimeScheduler`
-- (Runtime/Scheduler, policy.py), which orders the calls that it knows in queues by the service of
-- their program, charges them what they run, and promotes those that starve. `SchedulingWindow`
-- (Runtime/Window, window.py) takes a cohort from that order and freezes it for a number of
-- decode steps. The coordinator and the schedulers share `ProgramTable` (Runtime/Table,
-- policy.py), the SQLite tables with the statistics of each program. `PolicyConfig`
-- (Runtime/Config, policy.py) is checked once and says in which queue a service time falls.
--
-- The simulator (Core, autellix/core) runs programs of calls on engines in discrete steps. Its data
-- (Core/State, models.py) are call objects, known by numbers, which the queues of the engines hold.
-- `ProgramSpec` (Core/Program, models.py) checks that the calls of a program form a graph without a
-- cycle. A load balancer (Core/Balancer, load_balancer.py) gives a call an engine, the execution
-- model (Core/Execution, execution.py) its cost, and a scheduler a queue: Core/Policy has what the
-- classes of schedulers.py do with a call and its program, Core/Refresh the demotion and promotion of
-- calls that wait, and Core/Engine how calls move from the queues to the batch. Of `Simulator`
-- (simulator.py), Core/Release has when a call is ready, Core/Pass the scheduling of one engine,
-- Core/Simulator the tick of one engine, Core/Run the steps and the run, Core/Run/Build the
-- construction and `add_call`, Core/Run/Idle `step` and `run_until_idle`, and Core/Metrics the
-- results (`_result`, and `SimulationResult` of models.py). The loop of `schedule` runs on as much
-- fuel as there are slots to fill, and each turn fills one; the check for cycles on as much as there
-- are calls, of which it visits each once at most; the run on as much as there are steps up to the
-- time limit, since each step advances the clock; a path of calls on as much as there are calls.
--
-- The frontend (Frontend, autellix/frontend) has `AutellixService` (Frontend/Service, service.py),
-- whose sessions collect calls and give them to a live simulator (Service/Drive runs it, Service/Chat
-- makes calls of chats), its responses (Frontend/Response, response.py), the client on top of it
-- (Frontend/Client, client.py), and
-- `AsyncMultiLLMEngine` (Frontend/Engine, engine.py), which passes requests to the service and, as
-- commands, to a worker process (Engine/Worker). `HostKV` (Integrations/HostKv,
-- integrations/sglang/swap.py) keeps copies of the cache rows of requests in host memory, which
-- `release_reserves` (Integrations/Reserve, integrations/sglang/reserve.py) makes before it unpins a
-- request. `batched_swap` (Runtime/Swap, autellix/runtime/swap.py) moves blocks between two caches.
-- All take the operations of torch on a layer as the record `Torch` (Prelude/Torch), whose documented
-- behaviour is `TorchLaws`; Prelude/Torch/Functions fills both with layers that are functions. What
-- the cache of SGLang answers is an argument.
--
-- State is a record and an operation a function that returns the new record; an exception is an
-- error of `Result`. Program, request and call identifiers are natural numbers with their order for
-- that of the texts; 0 is the empty text. Readings of the clock and fresh identifiers are
-- arguments. Seconds are whole nanoseconds; a float is an infinity, `nan` or a whole multiple of
-- the unit (Prelude/Float). SQL statements are functions on association lists (Prelude/Dict), and
-- a transaction that raises returns no table, which is its rollback. Loops over collections are
-- recursions on lists, so no fuel is needed where none is named. Sets are lists in which a number
-- occurs once (Prelude/Sets), `sorted` is a stable insertion sort (Prelude/Sort).
--
-- Services in the simulator are sums of whole model times, exact as floats below 2^53. Rates, beta
-- and averages are exact: fractions, or whole multiples of 10⁻⁹. The simulator is given its scheduler,
-- balancer and execution model as objects; a service makes fresh ones for each simulator, as for
-- names. Gantt charts, names of threads and metadata are left out.
--
-- The window takes its controller as the record `Controller` (Runtime/Window), which
-- Runtime/Window/Online fills with the runtime's scheduler.
--
-- Not modelled: the tables of names (make_scheduler and its like), the printing of results as
-- dictionaries, worker processes, threads and queues, HTTP, trace files, streams and staging memory
-- of CUDA, the other vLLM and SGLang hooks, which change objects of those packages, the experiments
-- with their random workloads, and the command line. What a worker sends is an argument of the
-- coordinator's step, and the steps are interleaved freely.
pub mod Prelude
pub mod Core
pub mod Runtime
pub mod Frontend
pub mod Integrations
