-- ===== src/Auth.antt =====
-- Authentication (src/auth): the one-time codes.
pub mod Otp
pub mod Sessions
