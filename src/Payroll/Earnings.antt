-- ===== src/Payroll/Earnings.antt =====
-- The earnings of guardians (src/guardian-payroll/guardian-payroll.service.ts): they accrue when an
-- invoice is paid, and are cancelled when it is voided.
use guardian_backend_service.Prelude.{
  ℕ, ◌*◌, ◌==◌, ◌===◌, ◌&&◌, ltb, not, Bool, true, Option, none, some, [], ◌∷◌, is_some, or_else,
  if◌then◌else◌,
}
use guardian_backend_service.Prelude.Table.{
  Table, find, find_where, select_where, modify_where, count_where, fresh_id, insert,
}
use guardian_backend_service.Prelude.Effect.{Result, ok, err, ◌>>=◌, ◌>>◌, pure, gets, branch, when}
use guardian_backend_service.Data.{
  AssignmentStatus, assignment_eq, PayPolicy, minimum_guaranteed, Assignment, Job, Guardian, Store,
  Action, find_job, audit_log,
}
use guardian_backend_service.Data.Money.{
  Invoice, InvoiceStatus, invoice_eq, Earning, EarningStatus, earning_eq,
}
use guardian_backend_service.Billing.Tables.{update_ledger, find_invoice}
use guardian_backend_service.Payroll.PayPolicy.{resolve_pay_policy}
use guardian_backend_service.Payroll.Hours.{PayTerms, PayableDuration, compute_payable_duration}
use guardian_backend_service.Assignments.Transitions.{is_early_release_approved}

-- GUARDIAN_PAY_MINIMUM_HOURS_FALLBACK, unless the environment gives another
abbrev pub fallback_pay_policy : PayTerms
fallback_pay_policy = record {
  model = minimum_guaranteed;
  minimum_hours = 100;
  apply_on_early_release = true;
}

abbrev pub terms_of : PayPolicy → PayTerms
terms_of p = record {
  model = p.model;
  minimum_hours = p.minimum_hours;
  apply_on_early_release = p.apply_on_early_release;
}

abbrev pub resolved_or_fallback : Result PayPolicy × Store → Result PayTerms × Store
resolved_or_fallback (ok p, s) = (ok (terms_of p), s)
resolved_or_fallback (err e, s) = (ok fallback_pay_policy, s)

-- the snapshot of the assignment, or else the policy that matches, or else the fallback
unfoldable pub pay_terms : Job → Assignment → Guardian → Action PayTerms
unfolding resolve_pay_policy
pay_terms j a g s = elim a.pay_policy_model [
  | none ↦
      resolved_or_fallback (
        resolve_pay_policy j.job_type g.employment_type (or_else a.accepted_at j.scheduled_start) s)
  | some model ↦ elim a.pay_minimum_hours [
    | none ↦ resolved_or_fallback (
        resolve_pay_policy j.job_type g.employment_type (or_else a.accepted_at j.scheduled_start) s)
    | some hours ↦ (
      ok (record {
        model = model;
        minimum_hours = hours;
        apply_on_early_release = or_else a.pay_apply_on_early_release true;
      }),
      s,
    )
  ]
]

-- COMPLETED, with both times
abbrev pub is_completed_on : ℕ → Assignment → Bool
is_completed_on job a =
    a.job_id == job
    && a.status === AssignmentStatus.completed
    && is_some a.arrived_at
    && is_some a.completed_at

-- `orderBy: { arrivedAt: 'asc' }`, by insertion
unfoldable pub insert_by_arrival : ℕ × Assignment → Table Assignment → Table Assignment
insert_by_arrival a [] = a ∷ []
insert_by_arrival a (b ∷ t) =
    if ltb (or_else b.1.arrived_at 0) (or_else a.1.arrived_at 0)
    then b ∷ insert_by_arrival a t
    else a ∷ b ∷ t

unfoldable pub sort_by_arrival : Table Assignment → Table Assignment
unfolding insert_by_arrival
sort_by_arrival [] = []
sort_by_arrival (a ∷ t) = insert_by_arrival a (sort_by_arrival t)

unfoldable pub completed_assignments : ℕ → Store → Table Assignment
unfolding sort_by_arrival
completed_assignments job s = sort_by_arrival (select_where (is_completed_on job) s.assignments)

-- With no rate the earning is BLOCKED, with amount 0.
abbrev pub earning_status : Option ℕ → EarningStatus
earning_status none = EarningStatus.blocked
earning_status (some rate) = EarningStatus.pending_payout

abbrev pub earning_amount : Option ℕ → ℕ → ℕ
earning_amount none payable = 0
earning_amount (some rate) payable = payable * rate

abbrev pub rate_of : Assignment → Guardian → Option ℕ
rate_of a g = elim a.hourly_pay_rate_at_commit [ none ↦ g.hourly_pay_rate | some r ↦ some r ]

abbrev pub new_earning : ℕ → ℕ → ℕ → Assignment → Guardian → PayTerms → PayableDuration → Earning
new_earning invoice job id a g terms d = record {
  guardian_id = a.guardian_id;
  assignment_id = id;
  job_id = job;
  invoice_id = invoice;
  payable_ms = d.payable_ms;
  actual_ms = d.actual_ms;
  scheduled_ms = d.scheduled_ms;
  pay_minimum_hours = d.minimum_hours;
  pay_policy_model = terms.model;
  pay_basis = d.pay_basis;
  hourly_pay_rate = rate_of a g;
  amount = earning_amount (rate_of a g) d.payable_ms;
  currency = g.pay_currency;
  status = earning_status (rate_of a g);
  payout_id = none;
  paid_at = none;
}

unfoldable pub insert_earning : Earning → Action ℕ
unfolding fresh_id
insert_earning e s = (
  ok (fresh_id s.ledger.earnings),
  record s { ledger = record s.ledger { earnings = insert e s.ledger.earnings } },
)

unfoldable pub accrue_with : ℕ → Invoice → Job → ℕ → Assignment → Guardian → Action (Unit {0})
unfolding pay_terms compute_payable_duration insert_earning audit_log
accrue_with invoice_id invoice j id a g = do
  terms ← pay_terms j a g
  created ← insert_earning (
      new_earning invoice_id invoice.job_id id a g terms (
        compute_payable_duration terms j.scheduled_start j.scheduled_end (or_else a.arrived_at 0)
          (or_else a.completed_at 0) (is_early_release_approved a.early_release_resolution)))
  audit_log none
      (if is_some (rate_of a g) then "GUARDIAN_EARNING_ACCRUED" else "GUARDIAN_EARNING_BLOCKED")
      created

-- a guardian's row is there by the foreign key
abbrev pub accrue_if_there :
    ℕ → Invoice → Job → ℕ → Assignment → Option Guardian → Action (Unit {0})
accrue_if_there invoice_id invoice j id a none = pure tt
accrue_if_there invoice_id invoice j id a (some g) = accrue_with invoice_id invoice j id a g

-- an assignment that has an earning is passed over
unfoldable pub accrue_assignment : ℕ → Invoice → Job → ℕ × Assignment → Action (Unit {0})
accrue_assignment invoice_id invoice j (id, a) = do
  existing ← gets λ s. find_where (λ (e : Earning). e.assignment_id == id) s.ledger.earnings
  guardian ← gets λ s. find a.guardian_id s.guardians
  branch (is_some existing) (pure tt) (accrue_if_there invoice_id invoice j id a guardian)

unfoldable pub accrue_each : ℕ → Invoice → Job → Table Assignment → Action (Unit {0})
unfolding accrue_assignment
accrue_each invoice_id invoice j [] = pure tt
accrue_each invoice_id invoice j (a ∷ rest) = do
  accrue_assignment invoice_id invoice j a
  accrue_each invoice_id invoice j rest

abbrev pub accrue_if_job : ℕ → Invoice → Table Assignment → Option Job → Action (Unit {0})
accrue_if_job id invoice rows none = pure tt
accrue_if_job id invoice rows (some j) = accrue_each id invoice j rows

-- the invoice with its job
unfoldable pub accrue_for : ℕ → Option Invoice → Action (Unit {0})
unfolding completed_assignments find_job
accrue_for id none = pure tt
accrue_for id (some invoice) = branch (not (invoice.status === InvoiceStatus.paid)) (pure tt) (do
  rows ← gets (completed_assignments invoice.job_id)
  job ← find_job invoice.job_id
  accrue_if_job id invoice rows job)

unfoldable pub accrue_for_paid_invoice : ℕ → Action (Unit {0})
unfolding find_invoice accrue_for
accrue_for_paid_invoice id = do invoice ← find_invoice id; accrue_for id invoice

abbrev pub is_pending_of_invoice : ℕ → Earning → Bool
is_pending_of_invoice invoice e =
    e.invoice_id == invoice && e.status === EarningStatus.pending_payout

abbrev pub is_paid_of_invoice : ℕ → Earning → Bool
is_paid_of_invoice invoice e = e.invoice_id == invoice && e.status === EarningStatus.paid

abbrev pub cancel_earning : Earning → Earning
cancel_earning e = record e { status = EarningStatus.cancelled }

unfoldable pub cancel_earnings_for_invoice : ℕ → Action (Unit {0})
unfolding update_ledger audit_log
cancel_earnings_for_invoice id = do
  count ← gets λ s. count_where (is_pending_of_invoice id) s.ledger.earnings
  settled ← gets λ s. count_where (is_paid_of_invoice id) s.ledger.earnings
  branch (count == 0)
      (when (ltb 0 settled) (audit_log none "GUARDIAN_EARNING_CANCEL_SKIPPED_PAID" id))
      (do
        update_ledger λ l. record l {
          earnings = modify_where (is_pending_of_invoice id) cancel_earning l.earnings;
        }
        audit_log none "GUARDIAN_EARNINGS_CANCELLED" id)
