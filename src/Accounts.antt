-- ===== src/Accounts.antt =====
-- crates/oxyris-claude/src/accounts.rs: what the two account documents of the Claude Code CLI say,
-- and apps/desktop/src/infra/claude_accounts.rs: the registry of accounts and the switch.
pub mod Json
pub mod Docs
pub mod Machine
pub mod Paths
pub mod Registry
pub mod Save
pub mod Switch
pub mod Apart
pub mod Unique
pub mod Reach
pub mod Scripts
pub mod Enrol
