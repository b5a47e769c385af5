-- ===== src/Lib.antt =====
-- The backend of Oxyris: the domain aggregates, the append-only event store, the commands and the
-- provider pump that write to it; the auto-pilot's policy, its watchdog and the signals of a
-- terminal; the transport of a language server; the environment files of a worktree; and the
-- registry of Claude accounts with its switch.
--
-- The parts and how they meet. A user's command loads an aggregate's events from the store, folds
-- them to a state, lets the aggregate decide on new events, and appends these at the version that
-- was read; the store refuses a version that is taken. The pump does the same for the events of a
-- running provider, on a state that it keeps between events. The auto-pilot stands between a
-- supervising model and a session: it asks its denylist, its loop guard and its budget before and
-- after the model decides. Its watchdog polls the terminal of the session, whose state the sniffer
-- of the terminal's output keeps, gives the pilot a screen that has settled, and types the answer.
--
-- The files and what they model:
-- - Prelude and its children: numbers, texts as lists of code points with `trim` and
--   `char::is_whitespace`, lists, `?` on results, texts cut into parts (Cut), numbers in decimal
--   (Decimal), bytes in UTF-8 (Utf8), and f64 as its 64 bits (F64).
-- - Core: crates/oxyris-core/src (aggregate.rs: `Aggregate`, `replay`; environment.rs; ids.rs).
--   Core/History: the logs that commands produce, each batch being what `decide` answers at the
--   state that the log replays to. An identifier is a number, an instant is a number.
-- - Provider: the data of crates/oxyris-provider/src/lib.rs that sessions and the pump use.
-- - Domain/Project, Worktree, Action, Session: apps/desktop/src/domain/{project,worktree,action,
--   session}.rs, with `decide` and `apply` on every command and every event. Session/Data has the
--   types, Session/Blocks `merge_block`. The other children hold proofs: Project/Valid and
--   Project/Commands, Worktree/Lifecycle, Action/Lifecycle, Session/Turns, Valid and TurnEvents.
-- - Store: apps/desktop/src/infra/event_store.rs, and `StoredEvent` of crates/oxyris-core/src/
--   event.rs. The table `events` is the list of its rows in the order of insertion, with the last
--   value of AUTOINCREMENT; `append`, `load` and `load_all` act on it. A version is a `u32` that
--   wraps. Store/Streams, Append and Concurrency hold the proofs.
-- - Service: `load_state`, `dispatch` and a command (`project_rename`) of
--   apps/desktop/src/tauri_commands/project.rs, for any aggregate. Service/Serial has the proofs.
--   Service/Pump: `handle_provider_event_core` of apps/desktop/src/infra/session_supervisor.rs, with
--   its cache; Pump/Cache and Pump/Stale have the proofs. Service/Send: the events of
--   `send_user_message` and `derive_auto_title` of the same file.
-- - Projections: the sessions of apps/desktop/src/infra/projections.rs (`apply` on a session's row of
--   the log, `apply_session_state`, `write_session_row`, `get_session`). A snapshot's JSON is a
--   parameter, and a panic of `expect` is an error. Tables has the other tables and what each event
--   does to them, ReadModel `apply` and `rebuild_from` on the four, Queries what is read. Sessions,
--   Rebuild and Projects have the proofs. A statement of SQL is a function on the list of rows.
-- - Supervisor: crates/oxyris-supervisor/src. Types is lib.rs; Guardrails (denylist and budget),
--   LoopGuard and Escape are guardrails.rs; Controller is controller.rs. Their children have the
--   proofs; Escape/Paths writes relative paths from their steps.
-- - Watchdog: apps/desktop/src/infra/autopilot.rs. Manager is `AutopilotManager`, Supervisors the
--   configuration, `build_user_prompt` and `parse_verdict` (Verdict has its proof), Menu is
--   `dont_ask_again_steps`, Act is `drive` and `act` on Supervisor/Controller's step, Loop is the
--   rounds of `watchdog`. A round is given the time, the screen and what happened meanwhile; what
--   it writes and emits is recorded. Guarded and Stuck have the proofs.
-- - Signals: apps/desktop/src/infra/pure_signals.rs. Strip has `strip_ansi`, the titles and the focus
--   reports, Sniffer is `PureSniffer`; an offset into a text counts characters. Clean and Latches
--   have the proofs.
-- - Lsp: crates/oxyris-lsp/src/transport.rs. Framing has the bytes of `writer_loop`, `read_headers`
--   and the reading in `reader_loop`; Dispatch has `dispatch` and the end of `reader_loop` on the
--   requests that wait, the diagnostics and the progress. RoundTrip and Answered have the proofs.
-- - Dotenv: crates/oxyris-git/src/dotenv.rs; RoundTrip, Merge and Substitute have the proofs.
--   Dotenv/Worktree: `render_for_worktree` of apps/desktop/src/infra/dotenv_render.rs and the
--   variables of env_template.rs beside it; Worktree/Status is `status_for_worktree`, and
--   Worktree/Ownership has the proofs.
-- - Accounts: crates/oxyris-claude/src/accounts.rs (Docs: the parsers, the plan, the swap of a
--   subtree, the usage body) and apps/desktop/src/infra/claude_accounts.rs: Machine is `EnvFs`,
--   Paths the paths of live logins and slots, Registry the registry's file, `live` and
--   `credentials`, Save `save_live`, Switch `activate`, Enrol `remove` and `login_new`, Scripts
--   `sh_quote` and the scripts for bash. An operation is a function of the machine to its answer
--   and the machine it leaves; the lock makes it one step, but for `login_new`, which does not hold
--   it while the console runs. Files and Writes of Machine have the laws of the files and what a
--   write leaves. The children, with Apart, Unique and Reach, have the proofs. A home is asked for
--   anew where the source caches it.
-- - Tests: runs at concrete inputs.
--
-- Bounds and loops. The loops recurse on lists. The two attempts of the pump recurse on the number
-- that is left, which the source fixes at 2. The loop guard's steps wrap at 2^64 and the store's
-- versions at 2^32, and the depth of a path is an i32 that wraps; a theorem about versions asks that the aggregate stays below 2^32 events.
-- The reading of messages takes fuel: each round reads a byte at least or ends, so the length of
-- the input is enough. The rounds of the watchdog recurse on the list of what they meet.
--
-- Parameters, for code outside the repository and for parts of it that are not modelled: `is_match`, the matcher of the regex crate;
-- `hasher`, the standard library's hash, to 64 bits; `to_value`, `from_value` and `kind`, the
-- derived JSON of an event and its name (a theorem that reads events back asks that they survive
-- the round trip); `supervisor`, the answer of the supervising model. `lower`, Unicode lower case,
-- likewise. The read model is an interface of the commands: `project` and `project_state` stand for
-- `apply` and `apply_session_state` of apps/desktop/src/infra/projections.rs, with any tables and
-- any failure; `apply` of Projections/ReadModel is one such `project`, on the `Decoders` of the
-- events. `Files` are the local files or the agent's; `JsonApi`, `to_vec` and `from_slice` what is
-- used of serde_json; `from_utf8` the check of UTF-8; `accepts` whether a server takes a write;
-- `Patterns` the regular expressions of the sniffer; `to_lowercase` that of `str`; and `decide` the
-- supervising model of one round. `Json` is what the accounts use of serde_json, with its laws (what
-- is printed reads back; a fractional number, which no account subtree holds, may lose its last
-- bit in serde_json); `Serde` the registry's JSON; `Machine` the files of std::fs and of the agent,
-- (the agent and its pool are the repository's own and not modelled), where one operation changes
-- the file it names and a rename is atomic, and one that the agent's pool answers with an error may
-- have been carried out; `Host` the variables,
-- directories and paths of the process; `console` what a login console does.
--
-- Not modelled: SQLite's own failures, locks, migrations and JSON text; `list_projects`, which
-- orders by a floating-point column; the other operations of the session supervisor, with
-- checkpoints, MCP configuration and processes; Tauri wiring; the removal of tip lines, which is a
-- regular expression's; the HTTP and process calls of the supervising models; git, terminals, the
-- processes and typed requests of language servers, indexing, watching, the WSL agent and the web
-- front end, which call the operating system or third-party libraries.
pub mod Accounts
pub mod Core
pub mod Dotenv
pub mod Domain
pub mod Lsp
pub mod Signals
pub mod Prelude
pub mod Provider
pub mod Projections
pub mod Service
pub mod Store
pub mod Supervisor
pub mod Watchdog
mod Tests
