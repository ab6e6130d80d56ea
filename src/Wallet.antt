-- ===== src/Wallet.antt =====
-- The wallet module (app/modules/wallet/) and the assessment rate (app/modules/associations/).
pub mod Data
pub mod Repository
pub mod Service
pub mod Handler
pub mod Orders
pub mod Checks
pub mod Effects
mod Examples
pub mod Dues
pub mod Transfer
pub mod Postings
pub mod Sound
pub mod Ledger
pub mod Atomic
