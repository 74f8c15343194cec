-- ===== src/Billing/Calculation.antt =====
-- BillingCalculationService (src/billing/billing-calculation.service.ts): the policy that applies, the
-- time that is billed and the subtotal. The line items, texts for the client, are left out.
use guardian_backend_service.Prelude.{
  ℕ, ◌-◌, ◌*◌, min, max, Bool, true, Option, none, some, List, ◌&&◌, leb, or_else, String,
}
use guardian_backend_service.Prelude.Priority.{first_by_priority}
use guardian_backend_service.Prelude.Effect.{
  Result, ok, err, ◌>>=◌, some_or_throw, gets, no_billing_policy, invoice_needs_times,
  no_applicable_rate,
}
use guardian_backend_service.Data.{
  EarlyReleaseResolution, BillingPolicyModel, booked_block, actual_time, minimum_guaranteed, Job,
  Action,
}
use guardian_backend_service.Data.Money.{BillingPolicy, PricingModel, invoice_unit}
use guardian_backend_service.Payroll.PayPolicy.{matches}
use guardian_backend_service.Assignments.Transitions.{
  is_early_release_approved, effective_billing_model_for_invoice,
}

-- `validFrom <= at`, and `validUntil` null or `>= at`
abbrev pub is_within : ℕ → Option ℕ → ℕ → Bool
is_within from until t = leb from t && (elim until [ none ↦ true | some u ↦ leb t u ])

abbrev pub is_policy_valid_at : ℕ → BillingPolicy → Bool
is_policy_valid_at t p = is_within p.valid_from p.valid_until t

abbrev pub fits_billing : ℕ → ℕ → BillingPolicy → Bool
fits_billing org job_type p = matches p.organization_id org && matches p.job_type job_type

abbrev pub billing_priority : BillingPolicy → ℕ
billing_priority p = p.priority

unfoldable pub pick_billing_policy : ℕ → ℕ → ℕ → List BillingPolicy → Option BillingPolicy
unfolding first_by_priority
pick_billing_policy org job_type t ps =
    first_by_priority billing_priority (is_policy_valid_at t) (fits_billing org job_type) ps

unfoldable pub resolve_billing_policy : ℕ → ℕ → ℕ → Action BillingPolicy
unfolding pick_billing_policy
resolve_billing_policy org job_type t = do
  some_or_throw (← gets λ s. pick_billing_policy org job_type t s.ledger.billing_policies)
      no_billing_policy

-- `hoursBetween`, in milliseconds: the subtraction stops at 0
abbrev pub time_between : ℕ → ℕ → ℕ
time_between start end = end - start

-- hundredths of an hour in milliseconds
abbrev pub hours_ms : ℕ → ℕ
hours_ms hours = hours * 36000

abbrev pub model_text : BillingPolicyModel → String
model_text booked_block = "BOOKED_BLOCK"
model_text actual_time = "ACTUAL_TIME"
model_text minimum_guaranteed = "MINIMUM_GUARANTEED"

pub record BillableDuration : Type 0 where
  pub scheduled_ms : ℕ
  pub actual_ms : ℕ
  pub billable_ms : ℕ
  pub billing_basis : String
  pub minimum_hours : ℕ

abbrev pub billable_by : BillingPolicyModel → ℕ → ℕ → ℕ → ℕ
billable_by booked_block minimum scheduled capped = scheduled
billable_by actual_time minimum scheduled capped = capped
billable_by minimum_guaranteed minimum scheduled capped = max minimum capped

unfoldable pub compute_billable_duration : BillingPolicyModel → ℕ → ℕ → ℕ → ℕ → ℕ → BillableDuration
compute_billable_duration model minimum start end arrived completed =
    let scheduled = time_between start end in
    let actual = time_between arrived completed in
    record {
      scheduled_ms = scheduled;
      actual_ms = actual;
      billable_ms = billable_by model (hours_ms minimum) scheduled (min scheduled actual);
      billing_basis = model_text model;
      minimum_hours = minimum;
    }

-- what `resolvePrice` of BillingService finds
pub record Price : Type 0 where
  pub pricing_model : PricingModel
  pub hourly_rate : ℕ
  pub flat_fee : Option ℕ
  pub currency : String

-- The multiplier of the surcharge is in ten-thousandths. TIERED has no rate.
abbrev pub subtotal_of : Price → ℕ → ℕ → ℕ → Result ℕ
subtotal_of price multiplier billable guardians = elim price.pricing_model [
  | PricingModel.hourly ↦ ok (price.hourly_rate * multiplier * billable * guardians * 10000)
  | PricingModel.flat ↦ elim price.flat_fee [
    | none ↦ err no_applicable_rate
    | some fee ↦ ok (fee * guardians * invoice_unit)
  ]
  | PricingModel.tiered ↦ err no_applicable_rate
]

-- the text of a block that is billed by the time on site
abbrev pub basis_text : BillingPolicyModel → BillingPolicyModel → String → String
basis_text booked_block actual_time text = "BOOKED_BLOCK_PRORATED_ACTUAL"
basis_text base effective text = text

unfoldable pub invoice_duration :
    Job → BillingPolicy → Option EarlyReleaseResolution → ℕ → ℕ → BillableDuration
unfolding compute_billable_duration effective_billing_model_for_invoice
invoice_duration j policy resolution arrived completed =
    let base = or_else j.billing_policy_model policy.model in
    let model =
      effective_billing_model_for_invoice base (is_early_release_approved resolution)
        (or_else j.billing_proration_enabled policy.proration_enabled) in
    let duration =
      compute_billable_duration model (or_else j.billing_minimum_hours policy.minimum_hours)
        j.scheduled_start j.scheduled_end arrived completed in
    record duration { billing_basis = basis_text base model duration.billing_basis }

unfoldable pub compute_invoice_amounts :
    Job
    → BillingPolicy
    → Price
    → ℕ
    → Option EarlyReleaseResolution
    → Option ℕ
    → Option ℕ
    → Result (BillableDuration × ℕ)
unfolding invoice_duration
compute_invoice_amounts j policy price multiplier resolution (some arrived) (some completed) =
    let duration = invoice_duration j policy resolution arrived completed in
    elim (subtotal_of price multiplier duration.billable_ms j.requested_guardian_count) [
      | ok amount ↦ ok (duration, amount)
      | err e ↦ err e
    ]
compute_invoice_amounts j policy price multiplier resolution arrived completed =
    err invoice_needs_times
