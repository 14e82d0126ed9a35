-- ===== src/Examples.antt =====
-- Concrete boards, stores and queues, and the runs of the modelled code on them.
pub mod Data
pub mod Workflow
pub mod Limits
pub mod Tables
pub mod Claims
pub mod Writers
pub mod Requests
pub mod Admission
pub mod Protocol
pub mod Stream
pub mod Texts
pub mod Plans
pub mod Moves
pub mod Messages
pub mod Loops
pub mod Batches
