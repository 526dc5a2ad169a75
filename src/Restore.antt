-- ===== src/Restore.antt =====
-- Restores: backend/app/services/restore_service.py, its repository, and the worker that carries a
-- confirmed restore out, backend/app/workers/restore_worker.py.
pub mod Types
pub mod Preflight
pub mod Repository
pub mod Service
pub mod Steps
pub mod Worker
pub mod System
mod Examples
