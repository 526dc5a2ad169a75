-- ===== src/Login.antt =====
-- Signing in to the dashboard: backend/app/services/auth_service.py with the repositories and the
-- limiter it uses. Times are whole seconds; the limiter's monotonic clock is separate from the wall
-- clock.
pub mod Limiter
pub mod Tokens
pub mod State
pub mod Signin
pub mod Sessions
mod Examples
