-- ===== src/Core.antt =====
-- The simulator of autellix/core: its data, load balancers, execution model and schedulers.
pub mod State
pub mod Engine
pub mod Balancer
pub mod Execution
pub mod Policy
pub mod Refresh
pub mod Pass
pub mod Program
pub mod Release
pub mod Simulator
pub mod Run
pub mod Metrics
pub mod Samples
