-- ===== src/Lib.antt =====
-- Ditch: the board's task workflow, its store, its runtime state and its execution queue.
--
-- Ditch runs coding agents in the projects of a user. Its daemon holds one `RuntimeState` behind a
-- lock; each request locks it, changes tasks in a SQLite transaction, publishes the changed tasks,
-- and lets the lock go. A task moves over a board (Backlog, Todo, In Progress, In Review, Done). A
-- durable queue in each project claims tasks for agents, one at a time in a workspace.
--
-- The parts, and the files that model them:
--   Prelude     the shared tests, lists, results, text and maps. Text is a list of code points, with
--               `trim`, `is_whitespace` and the byte length of UTF-8; a hash map is its list of
--               entries in some order; `u64_mod` is the modulus of a `u64`.
--   Core        the data of crates/ditch_core/src: lib.rs, skills.rs, tasks.rs, acceptance.rs and
--               github.rs. Identities and times are numbers.
--   Task        crates/ditch_core/src/tasks.rs. Task/Draft has `TaskDraft::validate`, `Task::new`
--               and `new_backlog_task` (crates/ditchd/src/task_runtime.rs), Task/Basics has `column`,
--               `check_revision`, `waiting_in_queue`, `touch` and `audit`, and Task/Workflow has
--               `Task::transition`. The clock and a fresh identity are arguments of each.
--   Acceptance  the limits of crates/ditch_core/src/acceptance.rs: `AcceptanceConfig::validate`,
--               `CommandCheck::validate` and `relative_check_path`, with the components of a path as
--               the standard library gives them on Unix.
--   Store       the transactions of crates/ditch_store/src/tasks.rs, and of the settings and the
--               attention of crates/ditch_store/src/lib.rs. A table is a list of rows, and a
--               transaction gives the new tables or an error. Whether SQLite can read and write its
--               file is an argument, and so is the JSON text of a request.
--   Runtime     the methods of `RuntimeState` on tasks (crates/ditchd/src/task_runtime.rs and
--               crates/ditchd/src/runtime_shared.rs): releasing and reaping writers, the
--               synchronisation of a task with its agent, and attention. `Env` holds what a call sees
--               of the outside: time, fresh identities, processes, paths and serde's texts.
--               Runtime/Admission is `WriterGuard` with `acquire_with_intent`, `started`,
--               `retain_as` and its `Drop`.
--   Queue       crates/ditchd/src/task_queue_runtime.rs. Queue/Board asks who owns what and whether
--               a workspace is busy, Queue/Claim is `claim_board_task`, and Queue/Execution is
--               `board_execution_request`. Queue/Requests is `board_queue_request`, whose arms are in
--               Queue/Enqueue, Queue/Select and Queue/Reorder; Queue/Edit is what an arm changes.
--   Events      `broadcast` with its replay buffer, `subscribe_since` and `subscribe_attention`
--               (crates/ditchd/src/runtime_shared.rs), for any kind of event: the text of an event
--               is an argument. A channel is what its receiver has taken and what waits.
--   Protocol    `ClientRequest` (crates/ditch_protocol/src/lib.rs) and what guards a request:
--               Protocol/Maintenance has `RemoteMutationGuard` and `remote_maintenance_request`
--               (crates/ditchd/src/remote_maintenance.rs), Protocol/Operations has
--               `handle_operation` and the table `runtime_operations`. The handler of a request,
--               serde's texts and the hash are arguments.
--   Planning    crates/ditchd/src/task_planning_runtime.rs: `task_planning_request`, the preparation
--               of a plan and `finish_task_plan`. The thread between them is outside: it begins with
--               a launch and ends with a result.
--   Requests    `prepare_task_request` (crates/ditchd/src/task_runtime.rs), what the other handlers
--               leave: Requests/Create lists and makes cards, Requests/Place is `Move`, Requests/Edits
--               has the other edits and `continuation_thread`, and Requests/Prepare composes them.
--   Loop        the acceptance loop (crates/ditchd/src/acceptance_runtime.rs). Loop has the records:
--               `acceptance_save`, `attempt_update` and `acceptance_block`; Loop/Redact is `redact`
--               (crates/ditchd/src/acceptance_evidence.rs), Loop/Validators is
--               `run_acceptance_validator`, and `acceptance_cycle` is Loop/Work, Loop/Worker,
--               Loop/Verdict and Loop/Cycle. Loop/Thread is `begin_acceptance`. What a turn
--               reads of the cancel flag, the clock, Git and the processes is the record `Turn` of
--               Loop/Turn; what other threads do while a worker or a validator runs is any function.
--               Loop/Release and Loop/Batch are `release_request`, which accepts tasks in
--               batches.
--   Transcript  the messages of agents (crates/ditch_store/src/lib.rs): `append_message`,
--               `agent_messages_after` and `list_agent_messages`.
--   Ssh         the reading of SSH configuration lines and the writing of an entry
--               (crates/ditch_ssh/src/lib.rs: `split_directive`, `split_words`, `concrete_alias`, the
--               loop of `discover_file` over one file, `render_config_entry`, `wildcard_match`).
--   SessionTitle  `normalize_session_title` and the display names
--               (crates/ditch_core/src/session_title.rs).
--   Examples    runs on concrete boards.
--
-- A handler takes the state and gives the new state with its answer, since the lock is held from its
-- first line to its last. Where a lock is let go between two parts, a data type of runs interleaves
-- the parts. Recursion is on lists, but for the loop that shrinks the replay buffer: it has one round
-- more than the buffer has lines, and that is enough as the bytes are counted right. `wildcard_match`
-- runs on fuel for each pair of a byte of the value and one of the pattern, which a star's checkpoint
-- moving ahead pays for. A cycle of the acceptance loop has as many turns as its policy has attempts,
-- and the last one never goes on. A revision and a sequence number wrap at 2^64; the switch of a queue and its
-- positions refuse the step beyond, and an order key stops at the largest `i64`.
--
-- Not modelled: order keys below zero (a card's key is an `i64`, and a client that creates an identified
-- card may send any; the model has the keys from 0 on), the launch of a claimed task, the dispatch of the other requests of the daemon, the
-- heartbeat of a quiet subscription, the hooks of an edition, the migration of the schema, remote
-- hosts, GitHub, skills, the planner and the thread that runs it, the processes of workers and
-- validators, identity, upgrades, the command line and the desktop application. They are processes,
-- sockets, files and network, or are not yet translated.
pub mod Prelude
pub mod Core
pub mod Task
pub mod Acceptance
pub mod Store
pub mod Protocol
pub mod Runtime
pub mod Queue
pub mod Events
pub mod Planning
pub mod Requests
pub mod Loop
pub mod Transcript
pub mod Ssh
pub mod SessionTitle
pub mod Examples
