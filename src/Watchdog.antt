-- ===== src/Watchdog.antt =====
-- The auto-pilot's watchdog over one session: apps/desktop/src/infra/autopilot.rs.
pub mod Menu
pub mod Supervisors
pub mod Manager
pub mod Verdict
pub mod Act
pub mod Loop
pub mod Guarded
pub mod Stuck
