-- ===== src/Billing/Invoices.antt =====
-- The life of an invoice (src/billing/billing.service.ts, src/billing/invoice-view.service.ts,
-- src/billing/invoice-status.util.ts, src/billing/billing-confirmation.service.ts).
use guardian_backend_service.Prelude.{
  ℕ, ◌+◌, ◌*◌, Bool, false, Option, none, some, List, [], ◌∷◌, ◌==◌, ◌===◌, ◌&&◌, not, includes,
  is_some, or_else, String, if◌then◌else◌,
}
use guardian_backend_service.Prelude.Table.{find_where}
use guardian_backend_service.Prelude.Effect.{
  ◌>>=◌, ◌>>◌, pure, gets, branch, when, throw_if, some_or_throw, invoice_not_found,
  invoice_disputed, invoice_paid, invoice_not_disputable, invoice_not_disputed,
  void_reason_required, same_replacement_invoice, replacement_not_found, replacement_of_other_org,
}
use guardian_backend_service.Data.{
  AssignmentStatus, assignment_eq, JobStatus, job_eq, Job, Action, AuthUser, find_job, audit_log,
  notify, Notice,
}
use guardian_backend_service.Data.Money.{
  Invoice, InvoiceStatus, invoice_eq, draft, pending_confirmation, issued, partially_paid, overdue,
  disputed, void,
}
use guardian_backend_service.Policies.{assert_org_member}
use guardian_backend_service.Jobs.Lifecycle.{confirm_billing}
use guardian_backend_service.Payroll.Earnings.{cancel_earnings_for_invoice}
use guardian_backend_service.Billing.Tables.{find_invoice, find_invoice_of, update_invoice}
use guardian_backend_service.Billing.Drafts.{create_draft_invoice_for_job_id}

abbrev pub issuable_invoice_statuses : List InvoiceStatus
issuable_invoice_statuses = draft ∷ pending_confirmation ∷ []

abbrev pub disputable_invoice_statuses : List InvoiceStatus
disputable_invoice_statuses = draft ∷ pending_confirmation ∷ issued ∷ overdue ∷ partially_paid ∷ []

abbrev pub is_issuable_status : InvoiceStatus → Bool
is_issuable_status status = includes issuable_invoice_statuses status

abbrev pub is_disputable_status : InvoiceStatus → Bool
is_disputable_status status = includes disputable_invoice_statuses status

-- the audit entry and the two notices of a change
abbrev pub announce : Option ℕ → String → String → String → ℕ → Invoice → Action (Unit {0})
announce actor action template title id i =
    audit_log actor action id
    >> notify (Notice.email_org_owners i.organization_id template id)
    >> notify (Notice.in_app_org_owners i.organization_id title id)

-- `applyPendingConfirmationOnView`, when a member of the organization reads the invoice
unfoldable pub apply_pending_confirmation_on_view : ℕ → Invoice → ℕ → Action Invoice
unfolding update_invoice audit_log
apply_pending_confirmation_on_view id i actor = branch (not (i.status === draft)) (pure i) (do
  updated ← update_invoice id λ r. record r { status = pending_confirmation }
  audit_log (some actor) "INVOICE_PENDING_CONFIRMATION" id
  pure updated)

unfoldable pub get_invoice : ℕ → AuthUser → Action Invoice
unfolding find_invoice assert_org_member
get_invoice id actor = do
  invoice ← some_or_throw (← find_invoice id) invoice_not_found
  assert_org_member invoice.organization_id actor
  apply_pending_confirmation_on_view id invoice actor.sub

abbrev pub issue_at : ℕ → Invoice → Invoice
issue_at now r = record r {
  status = issued;
  issued_at = some now;
  due_at = some (now + 14 * 24 * 60 * 60 * 1000);
}

unfoldable pub commit_issue : ℕ → Invoice → Option ℕ → Action Invoice
unfolding update_invoice audit_log notify
commit_issue id i actor = do
  now ← gets λ s. s.now
  updated ← update_invoice id (issue_at now)
  announce actor "INVOICE_ISSUED" "BILLING_INVOICE_ISSUED" "Invoice issued" id i
  pure updated

unfoldable pub issue_if_draft : ℕ → Option ℕ → Action Invoice
unfolding find_invoice commit_issue
issue_if_draft id actor = do
  invoice ← some_or_throw (← find_invoice id) invoice_not_found
  throw_if (invoice.status === disputed) invoice_disputed
  branch (not (is_issuable_status invoice.status)) (pure invoice) (commit_issue id invoice actor)

unfoldable pub issue_draft_for_job_id : ℕ → Option ℕ → Action Invoice
unfolding find_invoice_of issue_if_draft
issue_draft_for_job_id job actor = do
  row ← some_or_throw (← find_invoice_of job) invoice_not_found
  issue_if_draft row.0 actor

unfoldable pub create_and_issue_invoice_for_job_id : ℕ → ℕ → Action Invoice
create_and_issue_invoice_for_job_id job actor = do
  id ← create_draft_invoice_for_job_id job actor
  issue_if_draft id (some actor)

unfoldable pub check_replacement : ℕ → ℕ → ℕ → Action (Unit {0})
unfolding find_invoice
check_replacement replacement org voided = do
  throw_if (replacement == voided) same_replacement_invoice
  row ← some_or_throw (← find_invoice replacement) replacement_not_found
  throw_if (not (row.organization_id == org)) replacement_of_other_org

-- `if (body.replacementInvoiceId) { await this.assertReplacementInvoice(…) }`
unfoldable pub assert_replacement_invoice : Option ℕ → ℕ → ℕ → Action (Unit {0})
unfolding check_replacement
assert_replacement_invoice none org voided = pure tt
assert_replacement_invoice (some id) org voided = check_replacement id org voided

-- Of a disputed invoice the dispute is resolved too.
abbrev pub void_with : ℕ → ℕ → Bool → String → Option ℕ → Invoice → Invoice
void_with now actor was_disputed reason replacement r = record r {
  status = void;
  void_reason = some reason;
  replacement_invoice_id = replacement;
  dispute_resolved_at = if was_disputed then some now else r.dispute_resolved_at;
  dispute_resolved_by = if was_disputed then some actor else r.dispute_resolved_by;
  dispute_resolution_note = if was_disputed then some reason else r.dispute_resolution_note;
}

unfoldable pub commit_void : ℕ → Invoice → ℕ → String → Option ℕ → Action Invoice
unfolding update_invoice audit_log notify
commit_void id i actor reason replacement = do
  now ← gets λ s. s.now
  updated ← update_invoice id (void_with now actor (i.status === disputed) reason replacement)
  announce (some actor) "INVOICE_VOIDED" "BILLING_INVOICE_VOIDED" "Invoice voided" id i
  cancel_earnings_for_invoice id
  pure updated

unfoldable pub void_invoice : ℕ → ℕ → String → Option ℕ → Action Invoice
unfolding find_invoice assert_replacement_invoice commit_void
void_invoice id actor reason replacement = do
  invoice ← some_or_throw (← find_invoice id) invoice_not_found
  branch (invoice.status === void) (pure invoice) (do
    throw_if (invoice.status === InvoiceStatus.paid) invoice_paid
    assert_replacement_invoice replacement invoice.organization_id id
    commit_void id invoice actor reason replacement)

abbrev pub dispute_at : ℕ → ℕ → String → InvoiceStatus → Invoice → Invoice
dispute_at now actor reason before r = record r {
  status = disputed;
  dispute_reason = some reason;
  disputed_at = some now;
  disputed_by = some actor;
  status_before_dispute = some before;
}

unfoldable pub commit_dispute : ℕ → Invoice → ℕ → String → Action Invoice
unfolding update_invoice audit_log notify
commit_dispute id i actor reason = do
  now ← gets λ s. s.now
  updated ← update_invoice id (dispute_at now actor reason i.status)
  announce (some actor) "INVOICE_DISPUTED" "BILLING_INVOICE_DISPUTED" "Invoice disputed" id i
  pure updated

unfoldable pub dispute_invoice : ℕ → AuthUser → String → Action Invoice
unfolding find_invoice assert_org_member commit_dispute
dispute_invoice id actor reason = do
  invoice ← some_or_throw (← find_invoice id) invoice_not_found
  assert_org_member invoice.organization_id actor
  branch (invoice.status === disputed) (pure invoice) (do
    throw_if (not (is_disputable_status invoice.status)) invoice_not_disputable
    commit_dispute id invoice actor.sub reason)

-- `ResolveDisputeDto`; the reason of a VOID may be missing
pub data DisputeResolution : Type 0 where
  clear : Option String → DisputeResolution
  void_it : Option String → Option ℕ → DisputeResolution

abbrev pub clear_at : ℕ → ℕ → Option String → InvoiceStatus → Invoice → Invoice
clear_at now actor note restored r = record r {
  status = restored;
  dispute_resolved_at = some now;
  dispute_resolved_by = some actor;
  dispute_resolution_note = note;
}

unfoldable pub commit_clear : ℕ → Invoice → ℕ → Option String → Action Invoice
unfolding update_invoice audit_log notify
commit_clear id i actor note = do
  now ← gets λ s. s.now
  updated ←
      update_invoice id
        (clear_at now actor note (or_else i.status_before_dispute pending_confirmation))
  announce (some actor) "INVOICE_DISPUTE_CLEARED" "BILLING_INVOICE_DISPUTE_RESOLVED"
      "Invoice dispute resolved" id i
  pure updated

unfoldable pub settle_dispute : ℕ → Invoice → ℕ → DisputeResolution → Action Invoice
unfolding commit_clear void_invoice
settle_dispute id i actor (DisputeResolution.clear note) = commit_clear id i actor note
settle_dispute id i actor (DisputeResolution.void_it reason replacement) = do
  text ← some_or_throw reason void_reason_required
  void_invoice id actor text replacement

unfoldable pub resolve_dispute : ℕ → ℕ → DisputeResolution → Action Invoice
unfolding find_invoice settle_dispute
resolve_dispute id actor body = do
  invoice ← some_or_throw (← find_invoice id) invoice_not_found
  throw_if (not (invoice.status === disputed)) invoice_not_disputed
  settle_dispute id invoice actor body

abbrev pub is_issuable_row : Option (ℕ × Invoice) → Bool
is_issuable_row none = false
is_issuable_row (some (id, i)) = is_issuable_status i.status

abbrev pub is_confirmable : Option Job → Bool
is_confirmable none = false
is_confirmable (some j) = j.status === JobStatus.awaiting_confirmation

abbrev pub issue_row : Option (ℕ × Invoice) → Action (Unit {0})
issue_row none = pure tt
issue_row (some (id, i)) = issue_if_draft id none >>= λ _. pure tt

-- `processAutoConfirm` of BillingConfirmationService
unfoldable pub process_auto_confirm : ℕ → Action (Unit {0})
unfolding find_job find_invoice_of issue_if_draft
process_auto_confirm job = do
  j ← find_job job
  done ← gets λ s.
      find_where (λ a. a.job_id == job && a.status === AssignmentStatus.completed) s.assignments
  row ← find_invoice_of job
  when (is_confirmable j && is_some done && is_issuable_row row)
      (do confirm_billing job none; issue_row row)
