-- ===== src/Integrations.antt =====
-- The SGLang integration, integrations/sglang: its host copies and its reserves.
pub mod HostKv
pub mod Reserve
mod Samples
