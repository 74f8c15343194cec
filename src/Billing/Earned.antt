-- ===== src/Billing/Earned.antt =====
-- What is earned belongs to what is paid (src/billing/billing.service.ts, src/payments/payments.service.ts,
-- src/guardian-payroll/guardian-payroll.service.ts).
use guardian_backend_service.Prelude.{ℕ, ◌≡◌, ◌⊎◌, Option, some, String, arith}
use guardian_backend_service.Prelude.Table.{find, modify_where}
use guardian_backend_service.Prelude.Effect.{◌>>=◌}
use guardian_backend_service.Data.{Store, AuthUser, atomic, audit_log, notify, find_job}
use guardian_backend_service.Data.Money.{Invoice, InvoiceStatus, invoice_eq, earning_eq}
use guardian_backend_service.Policies.{assert_org_member}
use guardian_backend_service.Policies.Setup.{assert_can_book_jobs}
use guardian_backend_service.Jobs.Lifecycle.{transition_job_status, confirm_billing}
use guardian_backend_service.Payroll.Earnings.{
  cancel_earnings_for_invoice, is_pending_of_invoice, cancel_earning,
}
use guardian_backend_service.Billing.Tables.{
  update_ledger, find_invoice, find_invoice_of, update_invoice,
}
use guardian_backend_service.Billing.Invoices.{
  apply_pending_confirmation_on_view, get_invoice, commit_issue, issue_if_draft,
  issue_draft_for_job_id, create_and_issue_invoice_for_job_id, assert_replacement_invoice,
  check_replacement, commit_void, void_invoice, commit_dispute, dispute_invoice, DisputeResolution,
  commit_clear, settle_dispute, resolve_dispute, process_auto_confirm,
}
use guardian_backend_service.Billing.Payments.{
  CreatePaymentInput, create_payment, new_payment_for, find_payment_with, insert_payment,
}
use guardian_backend_service.Billing.Service.{draft-SameWork}

abbrev pub SameEarnings : Store → Store → Type 0
SameEarnings s t = t.ledger.earnings ≡ s.ledger.earnings

pub get_invoice-earnings :
    (id : ℕ) (actor : AuthUser) (s : Store) → SameEarnings s (get_invoice id actor s).1
unfolding get_invoice apply_pending_confirmation_on_view assert_org_member ◌>>=◌ find_invoice
    update_invoice audit_log
get_invoice-earnings id actor s = ground arith

pub issue-earnings :
    (id : ℕ) (actor : Option ℕ) (s : Store) → SameEarnings s (issue_if_draft id actor s).1
unfolding issue_if_draft commit_issue ◌>>=◌ find_invoice update_invoice audit_log notify
issue-earnings id actor s = ground arith

pub issue_for_job-earnings :
    (job : ℕ) (actor : Option ℕ) (s : Store) → SameEarnings s (issue_draft_for_job_id job actor s).1
unfolding issue_draft_for_job_id ◌>>=◌ find_invoice_of
issue_for_job-earnings job actor s = grind (arith, issue-earnings)

pub draft_and_issue-earnings :
    (job actor : ℕ) (s : Store) → SameEarnings s (create_and_issue_invoice_for_job_id job actor s).1
unfolding create_and_issue_invoice_for_job_id ◌>>=◌
draft_and_issue-earnings job actor s = grind (arith, draft-SameWork job actor s, issue-earnings)

pub dispute-earnings :
    (id : ℕ) (actor : AuthUser) (reason : String) (s : Store)
    → SameEarnings s (dispute_invoice id actor reason s).1
unfolding dispute_invoice commit_dispute assert_org_member ◌>>=◌ find_invoice update_invoice
    audit_log notify
dispute-earnings id actor reason s = ground arith

commit_clear-earnings :
    (id : ℕ) (i : Invoice) (actor : ℕ) (text : Option String) (s : Store)
    → SameEarnings s (commit_clear id i actor text s).1
unfolding commit_clear ◌>>=◌ update_invoice audit_log notify
commit_clear-earnings id i actor text s = ground arith

confirm_billing-earnings :
    (job : ℕ) (by : Option ℕ) (s : Store) → SameEarnings s (confirm_billing job by s).1
unfolding confirm_billing atomic ◌>>=◌ transition_job_status
confirm_billing-earnings job by s = ground arith

pub auto_confirm-earnings : (job : ℕ) (s : Store) → SameEarnings s (process_auto_confirm job s).1
unfolding process_auto_confirm ◌>>=◌ find_job find_invoice_of
auto_confirm-earnings job s = grind (arith, confirm_billing-earnings, issue-earnings)

pub create_payment-earnings :
    (input : CreatePaymentInput) (s : Store) → SameEarnings s (create_payment input s).1
unfolding create_payment new_payment_for ◌>>=◌ find_payment_with find_invoice assert_can_book_jobs
    insert_payment audit_log
create_payment-earnings input s = ground arith

replacement-quiet :
    (o : Option ℕ) (org id : ℕ) (s : Store) → (assert_replacement_invoice o org id s).1 ≡ s
unfolding assert_replacement_invoice check_replacement ◌>>=◌ find_invoice
replacement-quiet o org id s = ground arith

-- where the earnings of a voided invoice are cancelled
abbrev pub MayCancel : ℕ → Store → Store → Type 0
MayCancel id s t =
    SameEarnings s t
    ⊎ (t.ledger.earnings ≡ modify_where (is_pending_of_invoice id) cancel_earning s.ledger.earnings)

commit_void-earnings :
    (id : ℕ) (i : Invoice) (actor : ℕ) (reason : String) (replacement : Option ℕ) (s : Store)
    → MayCancel id s (commit_void id i actor reason replacement s).1
unfolding commit_void ◌>>=◌ update_invoice audit_log notify cancel_earnings_for_invoice
    update_ledger
commit_void-earnings id i actor reason replacement s = ground arith

pub void-earnings :
    (id actor : ℕ) (reason : String) (replacement : Option ℕ) (s : Store)
    → MayCancel id s (void_invoice id actor reason replacement s).1
unfolding void_invoice ◌>>=◌ find_invoice
void-earnings id actor reason replacement s =
    grind (arith, replacement-quiet, commit_void-earnings id)

pub resolve-earnings :
    (id actor : ℕ) (body : DisputeResolution) (s : Store)
    → MayCancel id s (resolve_dispute id actor body s).1
unfolding resolve_dispute settle_dispute ◌>>=◌ find_invoice
resolve-earnings id actor (DisputeResolution.clear text) s = grind (arith, commit_clear-earnings id)
resolve-earnings id actor (DisputeResolution.void_it reason replacement) s =
    grind (arith, void-earnings id)

pub paid-keeps_earnings :
    (id actor : ℕ) (reason : String) (replacement : Option ℕ) (s : Store) (i : Invoice)
    → find id s.ledger.invoices ≡ some i
    → i.status ≡ InvoiceStatus.paid
    → SameEarnings s (void_invoice id actor reason replacement s).1
unfolding void_invoice ◌>>=◌ find_invoice
paid-keeps_earnings id actor reason replacement s i row paid = ground arith
