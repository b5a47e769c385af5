-- ===== src/Domain.antt =====
-- apps/desktop/src/domain: the event-sourced aggregates, pure `decide` and `apply`.
pub mod Action
pub mod Project
pub mod Session
pub mod Worktree
