-- ===== src/Runtime/Samples.antt =====
-- Small inputs for the runtime, autellix/runtime, and what the program does on them.
mod Policies
mod Windows
mod Requests
mod Swaps
