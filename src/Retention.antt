-- ===== src/Retention.antt =====
-- Retention: which copies of a backup may be deleted, and their deletion
-- (backend/app/services/retention_service.py, backend/app/repositories/retention_repository.py).
pub mod Types
pub mod Policy
pub mod Plans
pub mod Repository
pub mod Service
pub mod Apply
pub mod Worker
pub mod Examples
