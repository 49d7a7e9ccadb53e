-- ===== src/Frontend.antt =====
-- The frontend of autellix/frontend: its responses, its service of sessions, and its engine.
pub mod Response
pub mod Service
pub mod Client
pub mod Engine
mod Samples
