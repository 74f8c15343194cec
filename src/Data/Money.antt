-- ===== src/Data/Money.antt =====
-- The rows of the billing schema (prisma/schema.prisma). A rate, a fee and a number of hours that is
-- a Decimal(_, 2) are in hundredths, a share or a surcharge, a Decimal(5, 4), in ten-thousandths, a
-- duration is in milliseconds. An amount is the exact product, before its column rounds it: those of
-- an invoice in `invoice_unit` of a hundredth, those of earnings and payouts in `pay_unit`.
use guardian_backend_service.Prelude.{
  ℕ, ◌*◌, ◌≡◌, ◌↔◌, Bool, true, Option, List, String, arith, ◌==◌, Eq,
}
use guardian_backend_service.Prelude.Table.{Table}
use guardian_backend_service.Data.Status.{BillingPolicyModel, PayPolicyModel}

pub data InvoiceStatus : Type 0 where
  draft pending_confirmation issued paid partially_paid overdue disputed void : InvoiceStatus

pub data PaymentStatus : Type 0 where
  pending completed failed refunded : PaymentStatus

pub data EarningStatus : Type 0 where
  pending_payout paid blocked cancelled : EarningStatus

pub data PayoutStatus : Type 0 where
  pending completed failed : PayoutStatus

pub data PricingModel : Type 0 where
  hourly flat tiered : PricingModel

abbrev pub invoice_rank : InvoiceStatus → ℕ
invoice_rank InvoiceStatus.draft = 0
invoice_rank InvoiceStatus.pending_confirmation = 1
invoice_rank InvoiceStatus.issued = 2
invoice_rank InvoiceStatus.paid = 3
invoice_rank InvoiceStatus.partially_paid = 4
invoice_rank InvoiceStatus.overdue = 5
invoice_rank InvoiceStatus.disputed = 6
invoice_rank InvoiceStatus.void = 7

abbrev pub same_invoice : InvoiceStatus → InvoiceStatus → Bool
same_invoice a b = invoice_rank a == invoice_rank b

pub same_invoice_iff : (a b : InvoiceStatus) → (same_invoice a b ≡ true) ↔ (a ≡ b)
same_invoice_iff a b = (λ h. ground arith, λ h. ground arith)

instance abbrev pub invoice_eq : Eq InvoiceStatus
invoice_eq = record { beq = same_invoice; beq_iff = same_invoice_iff }

abbrev pub earning_rank : EarningStatus → ℕ
earning_rank EarningStatus.pending_payout = 0
earning_rank EarningStatus.paid = 1
earning_rank EarningStatus.blocked = 2
earning_rank EarningStatus.cancelled = 3

abbrev pub same_earning : EarningStatus → EarningStatus → Bool
same_earning a b = earning_rank a == earning_rank b

pub same_earning_iff : (a b : EarningStatus) → (same_earning a b ≡ true) ↔ (a ≡ b)
same_earning_iff a b = (λ h. ground arith, λ h. ground arith)

instance abbrev pub earning_eq : Eq EarningStatus
earning_eq = record { beq = same_earning; beq_iff = same_earning_iff }

abbrev pub payout_rank : PayoutStatus → ℕ
payout_rank PayoutStatus.pending = 0
payout_rank PayoutStatus.completed = 1
payout_rank PayoutStatus.failed = 2

abbrev pub same_payout : PayoutStatus → PayoutStatus → Bool
same_payout a b = payout_rank a == payout_rank b

pub same_payout_iff : (a b : PayoutStatus) → (same_payout a b ≡ true) ↔ (a ≡ b)
same_payout_iff a b = (λ h. ground arith, λ h. ground arith)

instance abbrev pub payout_eq : Eq PayoutStatus
payout_eq = record { beq = same_payout; beq_iff = same_payout_iff }

abbrev pub pay_unit : ℕ
pay_unit = 3600000

abbrev pub invoice_unit : ℕ
invoice_unit = 3600000 * 10000 * 10000

-- the line items are left out: text for the client
pub record Invoice : Type 0 where
  pub organization_id : ℕ
  pub job_id : ℕ
  pub subtotal : ℕ
  pub tax_amount : ℕ
  pub total : ℕ
  pub currency : String
  pub status : InvoiceStatus
  pub arrived_at : Option ℕ
  pub completed_at : Option ℕ
  pub scheduled_ms : ℕ
  pub actual_ms : ℕ
  pub billable_ms : ℕ
  pub billing_basis : String
  pub issued_at : Option ℕ
  pub due_at : Option ℕ
  pub void_reason : Option String
  pub replacement_invoice_id : Option ℕ
  pub dispute_reason : Option String
  pub disputed_at : Option ℕ
  pub disputed_by : Option ℕ
  pub status_before_dispute : Option InvoiceStatus
  pub dispute_resolved_at : Option ℕ
  pub dispute_resolved_by : Option ℕ
  pub dispute_resolution_note : Option String

pub record Payment : Type 0 where
  pub invoice_id : ℕ
  pub provider : ℕ
  pub external_txn_id : Option String
  pub amount : ℕ
  pub currency : String
  pub status : PaymentStatus
  pub idempotency_key : ℕ
  pub paid_at : Option ℕ

pub record Earning : Type 0 where
  pub guardian_id : ℕ
  pub assignment_id : ℕ
  pub job_id : ℕ
  pub invoice_id : ℕ
  pub payable_ms : ℕ
  pub actual_ms : ℕ
  pub scheduled_ms : ℕ
  pub pay_minimum_hours : ℕ
  pub pay_policy_model : PayPolicyModel
  pub pay_basis : String
  pub hourly_pay_rate : Option ℕ
  pub amount : ℕ
  pub currency : String
  pub status : EarningStatus
  pub payout_id : Option ℕ
  pub paid_at : Option ℕ

pub record Payout : Type 0 where
  pub guardian_id : ℕ
  pub amount : ℕ
  pub currency : String
  pub provider : ℕ
  pub status : PayoutStatus
  pub external_txn_id : Option String
  pub idempotency_key : ℕ
  pub paid_at : Option ℕ
  pub created_by_user_id : ℕ

pub record BillingPolicy : Type 0 where
  pub priority : ℕ
  pub organization_id : Option ℕ
  pub job_type : Option ℕ
  pub valid_from : ℕ
  pub valid_until : Option ℕ
  pub model : BillingPolicyModel
  pub minimum_hours : ℕ
  pub proration_enabled : Bool

pub record PricingRule : Type 0 where
  pub priority : ℕ
  pub organization_id : Option ℕ
  pub district : Option ℕ
  pub job_type : Option ℕ
  pub valid_from : ℕ
  pub valid_until : Option ℕ
  pub pricing_model : PricingModel
  pub hourly_rate : Option ℕ
  pub flat_fee : Option ℕ
  pub currency : String

-- `BookingPolicySnapshot`, the columns that an invoice is made from
pub record BookingPolicy : Type 0 where
  pub night_surcharge_min_pct : ℕ
  pub holiday_surcharge_min_pct : ℕ
  pub guardian_share_pct : ℕ
  pub platform_share_pct : ℕ
  pub gateway_share_pct : ℕ
  pub reserve_share_pct : ℕ
  pub vat_rate : ℕ

-- the row of `services` that `getHourlyRateForJobType` reads
pub record CatalogEntry : Type 0 where
  pub hourly_rate : ℕ
  pub currency : String

-- an organization: whether it is verified, and whether its primary location, if it has one, is pinned on
-- the map
pub record Organization : Type 0 where
  pub is_verified : Bool
  pub primary_location_pinned : Option Bool

-- the tables of the billing schema, with the organizations
pub record Ledger : Type 0 where
  pub invoices : Table Invoice
  pub payments : Table Payment
  pub earnings : Table Earning
  pub payouts : Table Payout
  pub billing_policies : List BillingPolicy
  pub pricing_rules : List PricingRule
  pub booking_settings : BookingPolicy
  pub services : Table CatalogEntry
  pub organizations : Table Organization
