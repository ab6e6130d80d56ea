-- ===== src/Notifications.antt =====
-- The notifications module (app/modules/notifications/).
pub mod Data
pub mod Service
pub mod Repository
pub mod Ids
pub mod Order
pub mod Paging
pub mod Unread
mod Examples
