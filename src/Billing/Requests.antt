-- ===== src/Billing/Requests.antt =====
-- The requests to the billing and payment services (src/billing, src/payments), as an explicit sequence.
use guardian_backend_service.Prelude.{ℕ, ◌≡◌, Option, String}
use guardian_backend_service.Data.{Store, AuthUser}
use guardian_backend_service.Billing.Drafts.{create_draft_invoice_for_job_id}
use guardian_backend_service.Billing.Invoices.{
  get_invoice, issue_if_draft, issue_draft_for_job_id, create_and_issue_invoice_for_job_id,
  void_invoice, dispute_invoice, DisputeResolution, resolve_dispute, process_auto_confirm,
}
use guardian_backend_service.Billing.Payments.{
  CreatePaymentInput, create_payment, confirm_payment, confirm_by_idempotency_key,
}

pub data Request : Type 0 where
  draft_invoice : ℕ → ℕ → Request
  view : ℕ → AuthUser → Request
  issue : ℕ → Option ℕ → Request
  issue_for_job : ℕ → Option ℕ → Request
  draft_and_issue : ℕ → ℕ → Request
  void : ℕ → ℕ → String → Option ℕ → Request
  dispute : ℕ → AuthUser → String → Request
  resolve : ℕ → ℕ → DisputeResolution → Request
  auto_confirm : ℕ → Request
  pay : CreatePaymentInput → Request
  confirm : ℕ → Option String → Request
  confirm_by_key : ℕ → Option String → Request

-- the database after a request, whether it throws or not
unfoldable pub handle : Request → Store → Store
handle (Request.draft_invoice job actor) s = (create_draft_invoice_for_job_id job actor s).1
handle (Request.view id actor) s = (get_invoice id actor s).1
handle (Request.issue id actor) s = (issue_if_draft id actor s).1
handle (Request.issue_for_job job actor) s = (issue_draft_for_job_id job actor s).1
handle (Request.draft_and_issue job actor) s = (create_and_issue_invoice_for_job_id job actor s).1
handle (Request.void id actor reason replacement) s = (void_invoice id actor reason replacement s).1
handle (Request.dispute id actor reason) s = (dispute_invoice id actor reason s).1
handle (Request.resolve id actor body) s = (resolve_dispute id actor body s).1
handle (Request.auto_confirm job) s = (process_auto_confirm job s).1
handle (Request.pay input) s = (create_payment input s).1
handle (Request.confirm id txn) s = (confirm_payment id txn s).1
handle (Request.confirm_by_key key txn) s = (confirm_by_idempotency_key key txn s).1

-- what happens between the requests leaves the ledger alone: time passes, jobs are worked on
pub data Trace : Store → Store → Type 0 where
  done : (s : Store) → Trace s s
  request : {s t : Store} → Trace s t → (r : Request) → Trace s (handle r t)
  elsewhere : {s t : Store} → Trace s t → (u : Store) → u.ledger ≡ t.ledger → Trace s u
