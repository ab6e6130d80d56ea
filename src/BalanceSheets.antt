-- ===== src/BalanceSheets.antt =====
-- Balance sheets of an association (app/modules/balance_sheets).
pub mod Data
pub mod Totals
pub mod Service
pub mod Handler
pub mod Order
pub mod Written
pub mod Sound
mod Examples
