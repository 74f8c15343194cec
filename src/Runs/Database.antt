-- ===== src/Runs/Database.antt =====
-- A small database: one job with two slots, an offer to one guardian and one to another, and one
-- that was declined.
use guardian_backend_service.Prelude.{ℕ, true, none, some, [], ◌∷◌, nat_eq}
use guardian_backend_service.Data.{
  AssignmentStatus, assignment_eq, JobStatus, job_eq, ShiftStatus, PayPolicyModel, Assignment, Job,
  ShiftState, Guardian, PayPolicy, Store, BillingPolicyModel,
}
use guardian_backend_service.Data.Money.{BillingPolicy, BookingPolicy, Ledger}

abbrev pub night_job : Job
night_job = record {
  organization_id = 90;
  job_type = 3;
  status = JobStatus.dispatching;
  requested_guardian_count = 2;
  scheduled_start = 5000;
  scheduled_end = 9000;
  dispatch_deadline_at = none;
  dispatch_started_at = none;
  dispatch_failure_reason = none;
  unreachable_since = none;
  offers_sent_count = 2;
  dispatch_attempts = 2;
  district = 12;
  district_name = 12;
  billing_policy_model = none;
  billing_minimum_hours = none;
  billing_allow_early_release = none;
  billing_proration_enabled = none;
  billing_early_release_requires_client_approval = none;
  billing_auto_approve_after_minutes = none;
  replacement_departing_assignment_id = none;
}

abbrev pub offer_to : ℕ → Assignment
offer_to guardian = record {
  job_id = 50;
  guardian_id = guardian;
  status = AssignmentStatus.offered;
  version_number = 1;
  expires_at = 2000;
  accepted_at = none;
  arrived_at = none;
  completed_at = none;
  no_show_reason = none;
  no_show_reason_code = none;
  no_show_trigger_type = none;
  no_show_reported_by_user_id = none;
  no_show_reported_by_role = none;
  no_show_at = none;
  early_release_requested_at = none;
  early_release_reason = none;
  early_release_resolved_at = none;
  early_release_resolution = none;
  early_release_auto_approve_at = none;
  replacement_requested_at = none;
  replacement_reason = none;
  replacement_resolved_at = none;
  replacement_resolution = none;
  replacement_resolved_by_user_id = none;
  replaces_assignment_id = none;
  pay_policy_model = none;
  pay_minimum_hours = none;
  pay_policy_resolved_at = none;
  hourly_pay_rate_at_commit = none;
  pay_apply_on_early_release = none;
}

abbrev pub on_call : ShiftState
on_call = record {
  shift_status = ShiftStatus.available;
  available_for_jobs = true;
  shift_started_at = some 500;
  shift_ends_at = none;
}

abbrev pub guard_terms : Guardian
guard_terms = record {
  is_active = true;
  is_verified = true;
  certifications = record { is_verified = true; expiry_date = none } ∷ [];
  employment_type = 1;
  hourly_pay_rate = some 1500;
  pay_currency = "RWF";
  districts = 12 ∷ [];
  reliability_score = 9000;
}

abbrev pub policy : ℕ → ℕ → PayPolicy
policy priority until = record {
  job_type = none;
  employment_type = some 1;
  valid_from = 0;
  valid_until = some until;
  priority = priority;
  model = PayPolicyModel.actual_time;
  minimum_hours = 400;
  apply_on_early_release = true;
}

abbrev pub block_policy : BillingPolicy
block_policy = record {
  priority = 1;
  organization_id = none;
  job_type = none;
  valid_from = 0;
  valid_until = none;
  model = BillingPolicyModel.booked_block;
  minimum_hours = 200;
  proration_enabled = true;
}

abbrev pub usual_shares : BookingPolicy
usual_shares = record {
  night_surcharge_min_pct = 1000;
  holiday_surcharge_min_pct = 2000;
  guardian_share_pct = 8000;
  platform_share_pct = 1500;
  gateway_share_pct = 300;
  reserve_share_pct = 200;
  vat_rate = 1800;
}

abbrev pub empty_ledger : Ledger
empty_ledger = record {
  invoices = [];
  payments = [];
  earnings = [];
  payouts = [];
  billing_policies = block_policy ∷ [];
  pricing_rules = [];
  booking_settings = usual_shares;
  organizations = (90, record { is_verified = true; primary_location_pinned = some true }) ∷ [];
  services = (3, record { hourly_rate = 500000; currency = "RWF" }) ∷ [];
}

abbrev pub evening : Store
evening = record {
  now = 1000;
  assignments =
      (1, offer_to 7)
      ∷ (2, offer_to 8)
      ∷ (3, record (offer_to 9) { status = AssignmentStatus.declined })
      ∷ [];
  jobs = (50, night_job) ∷ [];
  shift_states = (7, on_call) ∷ (8, on_call) ∷ [];
  guardians = (7, guard_terms) ∷ (8, guard_terms) ∷ [];
  pay_policies = policy 5 4000 ∷ policy 1 8000 ∷ policy 3 8000 ∷ [];
  members = [];
  history =
      record {
        job_id = 50;
        old_status = some JobStatus.pending;
        new_status = JobStatus.dispatching;
        changed_by = none;
        reason = none;
      }
      ∷ [];
  outbox = [];
  audits = [];
  notices = [];
  no_show_counts = [];
  expiry_timers = [];
  present = [];
  dispatch_audits = [];
  ledger = empty_ledger;
}
