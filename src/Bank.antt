-- ===== src/Bank.antt =====
-- The bank of mp3: branch servers that run distributed transactions under timestamp ordering.
pub mod Outcome
pub mod State
pub mod Write
pub mod Read
pub mod Abort
pub mod Commit
pub mod Init
pub mod Handler
pub mod Branch
pub mod Protocol
pub mod Config
pub mod Connect
pub mod Client
pub mod Tests
pub mod Inputs
pub mod Agreed
pub mod Started
