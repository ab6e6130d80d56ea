-- ===== src/Passes.antt =====
-- The event passes (app/modules/events/pass_service.py).
pub mod Data
pub mod Repository
pub mod Access
pub mod Service
pub mod Balance
pub mod Rows
pub mod Effects
pub mod Booking
pub mod Handler
pub mod Booked
pub mod Sound
pub mod Capacity
pub mod Rsvp
pub mod Engagement
mod Examples
pub mod Going
