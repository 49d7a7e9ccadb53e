-- ===== src/Runtime.antt =====
-- The serving runtime, autellix/runtime: policy.py, window.py, swap.py and engine.py.
pub mod Config
pub mod Table
pub mod Scheduler
pub mod Window
pub mod Swap
pub mod Coordinator
mod Samples
