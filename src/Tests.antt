-- ===== src/Tests.antt =====
-- Runs of the model at concrete inputs, and the theorems at inputs that meet their hypotheses.
mod Toy
mod Machine
mod Serde
mod Switches
mod Accounts
mod Project
mod Worktree
mod Action
mod Session
mod Supervisor
mod Store
mod Service
mod Projections
mod Send
mod Dotenv
mod Lsp
mod Signals
mod Watchdog
mod Rebuild
