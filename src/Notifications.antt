-- ===== src/Notifications.antt =====
-- The notification outbox: what the dashboard decides to say, and the worker that delivers it.
pub mod Types
pub mod Repository
pub mod Service
pub mod Worker
pub mod System
mod Examples
