-- ===== src/Core/Samples.antt =====
-- Runs of autellix/core on small data.
pub mod Engines
mod Policies
pub mod Runs
