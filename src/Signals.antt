-- ===== src/Signals.antt =====
-- Signal detection in a terminal's output: apps/desktop/src/infra/pure_signals.rs.
pub mod Strip
pub mod Sniffer
pub mod Clean
pub mod Latches
