-- ===== src/Agent.antt =====
-- The agent on the Proxmox host (agent/app).
pub mod Auth
pub mod Remotes
pub mod Tasks
