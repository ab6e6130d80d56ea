-- ===== src/Polls.antt =====
-- Polls of an association (app/modules/polls).
pub mod Data
pub mod Access
pub mod Service
pub mod Handler
pub mod Votes
pub mod Change
pub mod Effects
pub mod Ballot
pub mod Withdrawn
pub mod Single
pub mod Sound
mod Examples
