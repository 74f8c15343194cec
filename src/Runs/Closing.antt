-- ===== src/Runs/Closing.antt =====
-- Runs of the draft, the payroll and the cancellation of a job on the small database.
use guardian_backend_service.Prelude.{
  ℕ, ◌≤◌, ◌<◌, ◌≡◌, ◌≢◌, ◌↔◌, refl, max, true, false, none, some, [], ◌∷◌, arith, ◌&&◌,
}
use guardian_backend_service.Prelude.Table.{
  find, find_where, select_where, modify, count_where, fresh_id,
}
use guardian_backend_service.Prelude.Priority.Choice.{IsBest}
use guardian_backend_service.Prelude.Effect.{ok, earnings_not_payable, ◌>>=◌}
use guardian_backend_service.Data.{
  AssignmentStatus, EarlyReleaseResolution, ReplacementResolution, booked_block, Assignment, Job,
  Store, atomic,
}
use guardian_backend_service.Data.Money.{
  InvoiceStatus, invoice_eq, Earning, EarningStatus, earning_eq, Payout, PayoutStatus, payout_eq,
}
use guardian_backend_service.Assignments.Transitions.{is_early_release_approved}
use guardian_backend_service.Billing.Calculation.{
  is_policy_valid_at, fits_billing, billing_priority, pick_billing_policy, time_between, hours_ms,
  invoice_duration,
}
use guardian_backend_service.Billing.Booking.{is_night_hour, is_night_shift}
use guardian_backend_service.Billing.Drafts.{create_draft_invoice_for_job}
use guardian_backend_service.Billing.Repeats.{create_draft-again}
use guardian_backend_service.Billing.Night.{IsNightAtStep, is_night_shift_iff, aligned_shift_iff}
use guardian_backend_service.Billing.Amounts.{pick_billing_policy-IsBest, invoice_duration-bounds}
use guardian_backend_service.Payroll.Earnings.{accrue_for_paid_invoice}
use guardian_backend_service.Payroll.Payouts.{CreatePayoutDto, create_payout, confirm_payout}
use guardian_backend_service.Payroll.Paid.{
  payout_with, create_payout-error, confirm_payout-settles, paid_twice,
}
use guardian_backend_service.Payroll.Accrued.{count_earnings, IsPaidOnce, accrual-IsPaidOnce}
use guardian_backend_service.Jobs.Requests.{commit_cancel, release_and_cancel}
use guardian_backend_service.Dispatching.Release.{
  release_active_staffed_assignments, release_replacement_pipeline,
}
use guardian_backend_service.Jobs.Cancelled.{substitute_is_left}
use guardian_backend_service.Jobs.Closed.{IsCancelled, release_and_cancel-IsCancelled}
use guardian_backend_service.Runs.Money.{wage, month_end}
use guardian_backend_service.Runs.Database.{
  night_job, offer_to, block_policy, empty_ledger, evening,
}

-- the guardian has done the night
abbrev after_work : Store
after_work = record evening {
  assignments =
      (
        1,
        record (offer_to 7) {
          status = AssignmentStatus.completed;
          arrived_at = some 5000;
          completed_at = some 8000;
          hourly_pay_rate_at_commit = some 1500;
        },
      )
      ∷ [];
}

create_draft-again_example :
    create_draft_invoice_for_job 50 night_job 2
      (create_draft_invoice_for_job 50 night_job 1 after_work).1
    ≡ (ok 0, (create_draft_invoice_for_job 50 night_job 1 after_work).1)
unfolding create_draft_invoice_for_job find ◌>>=◌ find_where select_where
create_draft-again_example = create_draft-again 50 night_job night_job 1 2 after_work 0 refl

is_night_shift_iff_example :
    (is_night_shift 75600000 100000000 ≡ true) ↔ IsNightAtStep 75600000 100000000
is_night_shift_iff_example = is_night_shift_iff 75600000 100000000

aligned_shift_iff_example :
    (is_night_shift 75600000 100000000 ≡ true)
    ↔ ((t : ℕ) × (75600000 ≤ t) × (t < 100000000) × (is_night_hour t ≡ true))
aligned_shift_iff_example = aligned_shift_iff 75600000 100000000 refl

-- From 21:30 to 22:15 the loop looks at 21:30 only.
short_night_missed : is_night_shift 77400000 80100000 ≡ false
unfolding is_night_shift
short_night_missed = refl

pick_billing_policy-IsBest_example :
    IsBest billing_priority
      (λ p. is_policy_valid_at 5000 p && fits_billing 90 3 p)
      (pick_billing_policy 90 3 5000 (block_policy ∷ []))
      (block_policy ∷ [])
pick_billing_policy-IsBest_example = pick_billing_policy-IsBest 90 3 5000 (block_policy ∷ [])

invoice_duration-bounds_example :
    ((invoice_duration night_job block_policy
        (some EarlyReleaseResolution.approved)
        5000
        8000).billable_ms
      ≤ max (time_between 5000 9000) (hours_ms 200))
    × (booked_block ≡ booked_block
        → is_early_release_approved (some EarlyReleaseResolution.approved) ≡ true
        → true ≡ true
        → (invoice_duration night_job block_policy
            (some EarlyReleaseResolution.approved)
            5000
            8000).billable_ms
          ≤ time_between 5000 8000)
invoice_duration-bounds_example =
    invoice_duration-bounds night_job block_policy (some EarlyReleaseResolution.approved) 5000 8000

abbrev two_wages : CreatePayoutDto
two_wages = record {
  earning_ids = 2 ∷ 3 ∷ [];
  provider = 0;
  idempotency_key = 11;
  external_txn_id = none;
}

create_payout-error_example :
    (create_payout 7 two_wages 1 (month_end InvoiceStatus.paid)).1 ≡ month_end InvoiceStatus.paid
unfolding create_payout find_where ◌>>=◌
create_payout-error_example =
    create_payout-error 7 two_wages 1 (month_end InvoiceStatus.paid) earnings_not_payable refl

abbrev one_wage : ℕ → CreatePayoutDto
one_wage key = record {
  earning_ids = 2 ∷ [];
  provider = 0;
  idempotency_key = key;
  external_txn_id = none;
}

paid_twice_example :
    (create_payout 7
      (one_wage 12)
      1
      (create_payout 7 (one_wage 11) 1 (month_end InvoiceStatus.paid)).1).0
    ≡ ok
        (fresh_id (create_payout 7 (one_wage 11) 1 (month_end InvoiceStatus.paid)).1.ledger.payouts)
unfolding create_payout find_where find ◌>>=◌ payout_with
paid_twice_example =
    paid_twice 7 (one_wage 11) (one_wage 12) 1 (month_end InvoiceStatus.paid) 0 refl refl refl refl

-- a payout that waits for its confirmation
abbrev pending_payout : Payout
pending_payout = record {
  guardian_id = 7;
  amount = 4500000;
  currency = "RWF";
  provider = 0;
  status = PayoutStatus.pending;
  external_txn_id = none;
  idempotency_key = 11;
  paid_at = none;
  created_by_user_id = 1;
}

abbrev attached_wage : Earning
attached_wage = record wage { payout_id = some 0 }

abbrev next_month : Store
next_month = record evening {
  ledger = record empty_ledger {
    earnings = (2, attached_wage) ∷ [];
    payouts = (0, pending_payout) ∷ [];
  };
}

confirm_payout-settles_example :
    (attached_wage.payout_id ≡ some 0
      → find 2 (confirm_payout 0 none next_month).1.ledger.earnings
        ≡ some (record attached_wage { status = EarningStatus.paid; paid_at = some 1000 }))
    × (attached_wage.payout_id ≢ some 0
        → find 2 (confirm_payout 0 none next_month).1.ledger.earnings ≡ some attached_wage)
unfolding find
confirm_payout-settles_example =
    confirm_payout-settles 0 none next_month pending_payout 2 attached_wage refl (ground arith) refl

paid_once : IsPaidOnce (month_end InvoiceStatus.paid)
unfolding count_earnings count_where
paid_once n = ground arith

accrual-IsPaidOnce_example : IsPaidOnce (accrue_for_paid_invoice 4 (month_end InvoiceStatus.paid)).1
accrual-IsPaidOnce_example = accrual-IsPaidOnce 4 (month_end InvoiceStatus.paid) paid_once

-- a substitute has taken over
abbrev substitute : Assignment
substitute = record (offer_to 8) {
  status = AssignmentStatus.on_site;
  replaces_assignment_id = some 1;
  replacement_resolution = some ReplacementResolution.denied;
}

abbrev relieved_evening : Store
relieved_evening = record evening {
  assignments =
      (1, record (offer_to 7) { status = AssignmentStatus.completed }) ∷ (2, substitute) ∷ [];
}

substitute_is_left_example :
    find 2 (release_and_cancel 50 night_job 1 none relieved_evening).1.assignments ≡ some substitute
unfolding find
substitute_is_left_example =
    substitute_is_left 2 substitute 50 night_job 1 none relieved_evening refl refl refl
      (ground arith)

-- a guardian waits to be relieved when the client cancels
abbrev waiting_job : Job
waiting_job = record night_job { replacement_departing_assignment_id = some 1 }

abbrev waiting_evening : Store
waiting_evening = record evening {
  assignments = (1, record (offer_to 7) { status = AssignmentStatus.awaiting_relief }) ∷ [];
  jobs = (50, waiting_job) ∷ [];
}

release_and_cancel-IsCancelled_example :
    IsCancelled 50 (release_and_cancel 50 waiting_job 1 none waiting_evening).1
unfolding release_and_cancel find ◌>>=◌ release_replacement_pipeline modify
    release_active_staffed_assignments commit_cancel atomic
release_and_cancel-IsCancelled_example =
    release_and_cancel-IsCancelled 50 waiting_job 1 none waiting_evening refl
