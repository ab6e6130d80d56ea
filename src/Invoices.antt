-- ===== src/Invoices.antt =====
-- The invoices module (app/modules/invoices/).
pub mod Data
pub mod Money
pub mod Number
pub mod Repository
pub mod Service
pub mod Unique
pub mod Consistent
pub mod Handler
pub mod Kept
pub mod Sound
pub mod Lifecycle
mod Examples
pub mod Effects
pub mod Free
pub mod Digits
pub mod Totals
