-- ===== src/Uploads.antt =====
-- The upload queue of the dashboard: backend/app/services/sync_service.py, its repository and its worker.
pub mod Types
pub mod Repository
pub mod Service
pub mod Worker
pub mod System
mod Examples
