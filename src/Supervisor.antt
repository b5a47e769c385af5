-- ===== src/Supervisor.antt =====
-- crates/oxyris-supervisor: the auto-pilot's decisions and the guardrails around them.
pub mod Types
pub mod Guardrails
pub mod LoopGuard
pub mod Escape
pub mod Controller
