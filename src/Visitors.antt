-- ===== src/Visitors.antt =====
-- Visitors at the gate (app/modules/visitor_management).
pub mod Data
pub mod Repository
pub mod Gate
pub mod Access
pub mod WalkIn
pub mod Service
pub mod Guards
pub mod Kept
pub mod VisitChange
pub mod Lifecycle
pub mod PassChange
pub mod PassEffects
pub mod Entries
pub mod Admissions
pub mod Visit
pub mod CheckIn
mod Examples
pub mod Handler
