-- ===== src/Billing/Amounts.antt =====
-- What a client is charged (src/billing/billing-calculation.service.ts,
-- src/common/config/booking-policy.config.ts): the policy and the rule that apply, the time that is
-- billed, and the shares.
use guardian_backend_service.Prelude.{
  ℕ, ◌+◌, ◌*◌, ◌≤◌, ◌<◌, ◌≡◌, ◌≢◌, ◌⊎◌, inl, inr, ◌↔◌, min, max, true, Option, List, arith, ◌&&◌,
  or_else, ap,
}
use guardian_backend_service.Prelude.Priority.Choice.{IsBest, first_by_priority-IsBest}
use guardian_backend_service.Data.{
  BillingPolicyModel, booked_block, actual_time, minimum_guaranteed, EarlyReleaseResolution, Job,
}
use guardian_backend_service.Data.Money.{BillingPolicy, PricingRule, BookingPolicy}
use guardian_backend_service.Assignments.Transitions.{
  is_early_release_approved, effective_billing_model_for_invoice,
}
use guardian_backend_service.Billing.Calculation.{
  is_policy_valid_at, fits_billing, billing_priority, pick_billing_policy, time_between, hours_ms,
  billable_by, compute_billable_duration, invoice_duration,
}
use guardian_backend_service.Billing.Booking.{compute_revenue_split}
use guardian_backend_service.Billing.Drafts.{
  is_rule_valid_at, fits_pricing, rule_priority, pick_pricing_rule,
}

-- `resolveBillingPolicy` chooses a policy that is valid at the start of the job and fits its
-- organization and type, of the highest priority of all that do; it finds none only where there is none.
pub pick_billing_policy-IsBest :
    (org job_type t : ℕ) (ps : List BillingPolicy)
    → IsBest billing_priority
        (λ p. is_policy_valid_at t p && fits_billing org job_type p)
        (pick_billing_policy org job_type t ps)
        ps
unfolding pick_billing_policy
pick_billing_policy-IsBest org job_type t ps =
    first_by_priority-IsBest billing_priority (is_policy_valid_at t) (fits_billing org job_type) ps

-- `resolvePrice` takes its rule from those that are valid, fit and have a rate or a fee, one of the
-- highest priority; it falls back on the catalog only where there is none.
pub pick_pricing_rule-IsBest :
    (org district job_type t : ℕ) (rs : List PricingRule)
    → IsBest rule_priority
        (λ r. is_rule_valid_at t r && fits_pricing org district job_type r)
        (pick_pricing_rule org district job_type t rs)
        rs
unfolding pick_pricing_rule
pick_pricing_rule-IsBest org district job_type t rs =
    first_by_priority-IsBest rule_priority (is_rule_valid_at t) (fits_pricing org district job_type)
      rs

billable_bound :
    (model : BillingPolicyModel) (m scheduled capped : ℕ)
    → capped ≤ scheduled
    → billable_by model m scheduled capped ≤ max scheduled m
billable_bound booked_block m scheduled capped h = omega arith
billable_bound actual_time m scheduled capped h = omega arith
billable_bound minimum_guaranteed m scheduled capped h = omega arith

-- The time that an invoice bills is at most the booked time or the minimum, whichever is longer; a
-- booked block whose early release was approved, with proration on, bills no more than the time on site.
pub invoice_duration-bounds :
    (j : Job) (p : BillingPolicy) (r : Option EarlyReleaseResolution) (arrived completed : ℕ)
    → ((invoice_duration j p r arrived completed).billable_ms
        ≤ max
            (time_between j.scheduled_start j.scheduled_end)
            (hours_ms (or_else j.billing_minimum_hours p.minimum_hours)))
      × (or_else j.billing_policy_model p.model ≡ booked_block
          → is_early_release_approved r ≡ true
          → or_else j.billing_proration_enabled p.proration_enabled ≡ true
          → (invoice_duration j p r arrived completed).billable_ms ≤ time_between arrived completed)
unfolding invoice_duration compute_billable_duration effective_billing_model_for_invoice
invoice_duration-bounds j p r arrived completed = (
  billable_bound _ (hours_ms (or_else j.billing_minimum_hours p.minimum_hours))
      (time_between j.scheduled_start j.scheduled_end)
      (min (time_between j.scheduled_start j.scheduled_end) (time_between arrived completed))
      (omega arith),
  λ block approved proration. rw (block, approved, proration) (omega arith),
)

compare_cases : (b c : ℕ) → (b < c) ⊎ (b ≡ c) ⊎ (c < b)
compare_cases b c = ground arith

factor :
    (gross : ℕ) (p : BookingPolicy)
    → gross * p.guardian_share_pct
        + gross * p.platform_share_pct
        + gross * p.gateway_share_pct
        + gross * p.reserve_share_pct
      ≡ gross
        * (p.guardian_share_pct + p.platform_share_pct + p.gateway_share_pct + p.reserve_share_pct)
factor gross p = grind arith

below_by_factor : (a b c : ℕ) → a ≢ 0 → b < c → a * b < a * c
below_by_factor a b c h less = grind arith

same_factor : (a b c : ℕ) → a ≢ 0 → a * b ≡ a * c → b ≡ c
same_factor a b c h e = elim (compare_cases b c) [
  | inl less ↦ absurd (ground (arith, below_by_factor a b c h less, e))
  | inr (inl same) ↦ same
  | inr (inr more) ↦ absurd (ground (arith, below_by_factor a c b h more, e))
]

-- The four shares add up to the gross amount exactly if the percentages add up to one; the gross
-- amount is not 0.
pub revenue_split-total :
    (gross : ℕ) (p : BookingPolicy)
    → gross ≢ 0
    → let split = compute_revenue_split gross p in
      (split.guardian + split.platform + split.gateway + split.reserve ≡ gross * 10000) ↔ (
        p.guardian_share_pct + p.platform_share_pct + p.gateway_share_pct + p.reserve_share_pct
        ≡ 10000)
unfolding compute_revenue_split
revenue_split-total gross p h = (
  λ e. same_factor gross _ 10000 h (ground (arith, factor gross p, e)),
  λ e. ground (arith, factor gross p, ap (λ n. gross * n) e),
)
