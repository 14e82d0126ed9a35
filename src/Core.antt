-- ===== src/Core.antt =====
-- The domain types of crates/ditch_core/src: agents, acceptance contracts and tasks.
mod Agents
mod Acceptance
mod Tasks
mod Requests
unfoldable pub use Agents.*
unfoldable pub use Acceptance.*
unfoldable pub use Requests.*
unfoldable pub use Tasks.*
