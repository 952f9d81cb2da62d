-- ===== src/Passwords.antt =====
-- The passwords that oidcp keeps for account files.
pub mod Entry
pub mod Store
mod Examples
