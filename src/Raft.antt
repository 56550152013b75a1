-- ===== src/Raft.antt =====
-- One Raft peer, mp2/src/raft: its state, its message handlers and what they guarantee.
pub mod State
pub mod Apply
pub mod Vote
pub mod Append
pub mod Leader
pub mod Election
pub mod Sound
pub mod Peer
pub mod Cluster
pub mod Maintain
pub mod Races
pub mod Tests
pub mod Elected
