-- ===== src/Billing.antt =====
-- The billing of a job (src/billing, src/payments): the amounts of its invoice, the invoice's life from
-- draft to payment, and its payments.
pub mod Calculation
pub mod Booking
pub mod Tables
pub mod Drafts
pub mod Invoices
pub mod Payments
pub mod Requests
pub mod Edits
pub mod Steps
pub mod Lifecycle
pub mod Disputes
pub mod Repeats
pub mod Service
pub mod Earned
pub mod Accruals
pub mod Wages
pub mod Night
pub mod Amounts
