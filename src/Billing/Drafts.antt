-- ===== src/Billing/Drafts.antt =====
-- The draft invoice of a job (`resolvePrice`, `createDraftInvoiceForJob` and its callers in
-- src/billing/billing.service.ts).
use guardian_backend_service.Prelude.{
  ℕ, ◌+◌, ◌*◌, ◌/◌, Bool, false, Option, none, some, List, [], ◌∷◌, ◌&&◌, ◌||◌, is_some, or_else,
}
use guardian_backend_service.Prelude.Table.{Table, find}
use guardian_backend_service.Prelude.Priority.{first_by_priority}
use guardian_backend_service.Prelude.Effect.{
  ◌>>=◌, ◌>>◌, pure, gets, some_or_throw, no_service, no_completed_assignment, job_not_found,
}
use guardian_backend_service.Data.{
  Assignment, Job, Action, find_job, audit_log, enqueue_at, OutboxPayload, notify, Notice,
}
use guardian_backend_service.Data.Money.{
  Invoice, draft, PricingRule, PricingModel, BookingPolicy, CatalogEntry,
}
use guardian_backend_service.Payroll.PayPolicy.{matches}
use guardian_backend_service.Payroll.Earnings.{completed_assignments}
use guardian_backend_service.Billing.Calculation.{
  is_within, Price, BillableDuration, resolve_billing_policy, compute_invoice_amounts,
}
use guardian_backend_service.Billing.Booking.{compute_surcharge_multiplier}
use guardian_backend_service.Billing.Tables.{find_invoice_of, insert_invoice}

abbrev pub is_rule_valid_at : ℕ → PricingRule → Bool
is_rule_valid_at t r = is_within r.valid_from r.valid_until t

abbrev pub fits_pricing : ℕ → ℕ → ℕ → PricingRule → Bool
fits_pricing org district job_type r =
    matches r.organization_id org
    && matches r.district district
    && matches r.job_type job_type
    && (is_some r.hourly_rate || is_some r.flat_fee)

abbrev pub rule_priority : PricingRule → ℕ
rule_priority r = r.priority

unfoldable pub pick_pricing_rule : ℕ → ℕ → ℕ → ℕ → List PricingRule → Option PricingRule
unfolding first_by_priority
pick_pricing_rule org district job_type t rs =
    first_by_priority rule_priority (is_rule_valid_at t) (fits_pricing org district job_type) rs

abbrev pub price_from : CatalogEntry → Option PricingRule → Price
price_from catalog none = record {
  pricing_model = PricingModel.hourly;
  hourly_rate = catalog.hourly_rate;
  flat_fee = none;
  currency = catalog.currency;
}
price_from catalog (some r) = record {
  pricing_model = r.pricing_model;
  hourly_rate = or_else r.hourly_rate catalog.hourly_rate;
  flat_fee = r.flat_fee;
  currency = r.currency;
}

-- `getHourlyRateForJobType` of ServicesService reads the row of the catalog.
unfoldable pub resolve_price : ℕ → ℕ → ℕ → ℕ → Action Price
unfolding pick_pricing_rule
resolve_price org district job_type t = do
  catalog ← some_or_throw (← gets λ s. find job_type s.ledger.services) no_service
  rules ← gets λ s. s.ledger.pricing_rules
  pure (price_from catalog (pick_pricing_rule org district job_type t rules))

-- the last of the assignments; it stands for `completedAssignments[length - 1]`
abbrev pub last_of : ℕ × Assignment → Table Assignment → ℕ × Assignment
last_of a [] = a
last_of a (b ∷ t) = last_of b t

abbrev pub primary_of : Table Assignment → Option (ℕ × Assignment)
primary_of [] = none
primary_of (a ∷ t) = some (last_of a t)

abbrev pub coverage_start : Table Assignment → Option ℕ
coverage_start [] = none
coverage_start (a ∷ t) = a.1.arrived_at

-- A subtotal is a multiple of 10000, so that the division is exact.
abbrev pub new_invoice :
    Job → ℕ → ℕ → BillableDuration → ℕ → Price → BookingPolicy → Option ℕ → Option ℕ → Invoice
new_invoice j org job d subtotal price booking arrived completed = record {
  organization_id = org;
  job_id = job;
  subtotal = subtotal;
  tax_amount = subtotal * booking.vat_rate / 10000;
  total = subtotal + subtotal * booking.vat_rate / 10000;
  currency = price.currency;
  status = draft;
  arrived_at = arrived;
  completed_at = completed;
  scheduled_ms = d.scheduled_ms;
  actual_ms = d.actual_ms;
  billable_ms = d.billable_ms;
  billing_basis = d.billing_basis;
  issued_at = none;
  due_at = none;
  void_reason = none;
  replacement_invoice_id = none;
  dispute_reason = none;
  disputed_at = none;
  disputed_by = none;
  status_before_dispute = none;
  dispute_resolved_at = none;
  dispute_resolved_by = none;
  dispute_resolution_note = none;
}

-- BILLING_AUTO_CONFIRM_MS, unless the environment gives another number of hours
abbrev pub billing_auto_confirm_ms : ℕ
billing_auto_confirm_ms = 24 * 60 * 60 * 1000

unfoldable pub announce_draft : ℕ → ℕ → Invoice → ℕ → Action (Unit {0})
unfolding audit_log enqueue_at notify
announce_draft job id invoice actor = do
  audit_log (some actor) "INVOICE_DRAFT_CREATED" id
  now ← gets λ s. s.now
  enqueue_at (now + billing_auto_confirm_ms) (OutboxPayload.billing_auto_confirm job)
  notify
      (Notice.email_org_owners invoice.organization_id "BILLING_INVOICE_AWAITING_CONFIRMATION" id)
  notify (Notice.in_app_org_owners invoice.organization_id "Invoice awaiting confirmation" id)

-- The times of the coverage stand for those of the assignment that was completed last.
unfoldable pub draft_from : ℕ → Job → ℕ → Table Assignment → ℕ × Assignment → Action ℕ
unfolding resolve_price compute_surcharge_multiplier resolve_billing_policy compute_invoice_amounts
    insert_invoice announce_draft
draft_from job j actor rows (primary_id, primary) = do
  price ← resolve_price j.organization_id j.district_name j.job_type j.scheduled_start
  booking ← gets λ s. s.ledger.booking_settings
  policy ← resolve_billing_policy j.organization_id j.job_type j.scheduled_start
  amounts ← λ s. (
    compute_invoice_amounts j policy price
        (compute_surcharge_multiplier j.scheduled_start j.scheduled_end booking false)
        primary.early_release_resolution (coverage_start rows) primary.completed_at,
    s,
  )
  created ← insert_invoice (
      new_invoice j j.organization_id job amounts.0 amounts.1 price booking (coverage_start rows)
        primary.completed_at)
  announce_draft job created.0 created.1 actor
  pure created.0

unfoldable pub new_draft : ℕ → Job → ℕ → Action ℕ
unfolding completed_assignments draft_from
new_draft job j actor = do
  rows ← gets (completed_assignments job)
  primary ← some_or_throw (primary_of rows) no_completed_assignment
  draft_from job j actor rows primary

abbrev pub existing_or_new : ℕ → Job → ℕ → Option (ℕ × Invoice) → Action ℕ
existing_or_new job j actor none = new_draft job j actor
existing_or_new job j actor (some row) = pure row.0

unfoldable pub create_draft_invoice_for_job : ℕ → Job → ℕ → Action ℕ
unfolding find_invoice_of new_draft
create_draft_invoice_for_job job j actor = do
  existing ← find_invoice_of job
  existing_or_new job j actor existing

unfoldable pub create_draft_invoice_for_job_id : ℕ → ℕ → Action ℕ
unfolding find_job create_draft_invoice_for_job
create_draft_invoice_for_job_id job actor = do
  j ← some_or_throw (← find_job job) job_not_found
  create_draft_invoice_for_job job j actor
