-- ===== src/User.antt =====
-- kokoro-user: the refresh tokens of its sessions.
pub mod Refresh
