-- ===== src/Payroll.antt =====
-- The pay of guardians (src/guardian-payroll).
pub mod PayPolicy
pub mod Choice
pub mod Hours
pub mod Earnings
pub mod Payouts
pub mod Paid
pub mod Accrued
