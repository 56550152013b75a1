-- ===== src/Raft/Sound.antt =====
-- The invariant of one Raft peer, and the steps that it can take.
pub mod Defs
pub mod Handlers
pub mod Steps
pub mod Late
pub mod Returns
