-- ===== src/Billing/Edits.antt =====
-- What the requests do to the table of invoices (src/billing/billing.service.ts,
-- src/payments/payments.service.ts): an abstract step of the table, which each handler refines.
pub mod Handlers
pub mod Accrual
use guardian_backend_service.Prelude.{
  ℕ, zero, suc, ◌≡◌, ◌≢◌, inl, inr, refl, Bool, true, false, Option, none, some, String, arith,
  ◌===◌, not, or_else, Bool-cases, ◌==◌,
}
use mathlib.Core.Path.{subst}
use guardian_backend_service.Prelude.Table.{Table, find, find_where, modify, insert}
use guardian_backend_service.Prelude.Effect.{Result, ok, err, continue, when, ◌>>=◌}
use guardian_backend_service.Prelude.Effect.Rules.{
  Run, Run-pure, Run-branch, Run-guard, Run-some, Run-quiet,
}
use guardian_backend_service.Data.{Store, AuthUser, Action, atomic, find_job, audit_log, notify}
use guardian_backend_service.Data.Money.{
  Invoice, InvoiceStatus, invoice_eq, draft, disputed, void, pending_confirmation,
}
use guardian_backend_service.Policies.{assert_org_member}
use guardian_backend_service.Jobs.Lifecycle.{transition_job_status, confirm_billing}
use guardian_backend_service.Payroll.Earnings.{cancel_earnings_for_invoice}
use guardian_backend_service.Billing.Tables.{
  update_ledger, find_invoice, find_invoice_of, update_invoice,
}
use guardian_backend_service.Billing.Invoices.{
  is_issuable_status, is_disputable_status, apply_pending_confirmation_on_view, get_invoice,
  issue_at, commit_issue, issue_if_draft, assert_replacement_invoice, check_replacement, void_with,
  commit_void, void_invoice, dispute_at, commit_dispute, dispute_invoice, DisputeResolution,
  clear_at, commit_clear, settle_dispute, resolve_dispute, process_auto_confirm, issue_row,
}
use guardian_backend_service.Billing.Payments.{set_paid}

-- a write to the row of an invoice, and when it is made
pub data Edit (i : Invoice) (f : Invoice → Invoice) : Type 0 where
  viewed : i.status ≡ draft → f ≡ (λ r. record r { status = pending_confirmation }) → Edit i f
  issued : (now : ℕ) → is_issuable_status i.status ≡ true → f ≡ issue_at now → Edit i f
  voided :
      (now actor : ℕ) (reason : String) (replacement : Option ℕ)
      → i.status ≢ void
      → i.status ≢ InvoiceStatus.paid
      → f ≡ void_with now actor (i.status === disputed) reason replacement
      → Edit i f
  disputed_by :
      (now actor : ℕ) (reason : String)
      → is_disputable_status i.status ≡ true
      → f ≡ dispute_at now actor reason i.status
      → Edit i f
  cleared :
      (now actor : ℕ) (note : Option String)
      → i.status ≡ disputed
      → f ≡ clear_at now actor note (or_else i.status_before_dispute pending_confirmation)
      → Edit i f
  settled : f ≡ set_paid → Edit i f

-- one step of the table
pub data Step (t u : Table Invoice) : Type 0 where
  unchanged : u ≡ t → Step t u
  drafted :
      (i : Invoice) → i.status ≡ draft → i.status_before_dispute ≡ none → u ≡ insert i t → Step t u
  edited :
      (id : ℕ) (i : Invoice) (f : Invoice → Invoice)
      → find id t ≡ some i
      → Edit i f
      → u ≡ modify id f t
      → Step t u

-- at most that many steps, one after the other
abbrev pub Moves : ℕ → Table Invoice → Table Invoice → Type 0
Moves zero t u = u ≡ t
Moves (suc n) t u = (m : Table Invoice) × Step t m × Moves n m u

abbrev pub Steps : Store → Store → Type 0
Steps s t = Step s.ledger.invoices t.ledger.invoices

abbrev pub SameInvoices : Store → Store → Type 0
SameInvoices s t = t.ledger.invoices ≡ s.ledger.invoices

pub org_member-frame :
    (org : ℕ) (actor : AuthUser) (s : Store) → (assert_org_member org actor s).1 ≡ s
unfolding assert_org_member ◌>>=◌
org_member-frame org actor s = ground arith

pub view-Steps :
    (id : ℕ) (i : Invoice) (actor : ℕ) (s : Store)
    → find id s.ledger.invoices ≡ some i
    → Steps s (apply_pending_confirmation_on_view id i actor s).1
unfolding apply_pending_confirmation_on_view ◌>>=◌ update_invoice audit_log
view-Steps id i actor s row = elim (Bool-cases (i.status === draft)) [
  | inl e ↦ edited id i _ row (viewed (ground arith) refl) (ground arith)
  | inr e ↦ unchanged (ground arith)
]

pub commit_issue-Steps :
    (id : ℕ) (i : Invoice) (actor : Option ℕ) (s : Store)
    → find id s.ledger.invoices ≡ some i
    → is_issuable_status i.status ≡ true
    → Steps s (commit_issue id i actor s).1
unfolding commit_issue ◌>>=◌ update_invoice audit_log notify
commit_issue-Steps id i actor s row h =
    edited id i (issue_at s.now) row (issued s.now h refl) (ground arith)

cancel_earnings-frame : (id : ℕ) (s : Store) → SameInvoices s (cancel_earnings_for_invoice id s).1
unfolding cancel_earnings_for_invoice ◌>>=◌ update_ledger audit_log
cancel_earnings-frame id s = ground arith

pub commit_void-Steps :
    (id : ℕ) (i : Invoice) (actor : ℕ) (reason : String) (replacement : Option ℕ) (s : Store)
    → find id s.ledger.invoices ≡ some i
    → i.status ≢ void
    → i.status ≢ InvoiceStatus.paid
    → Steps s (commit_void id i actor reason replacement s).1
unfolding commit_void ◌>>=◌ update_invoice audit_log notify
commit_void-Steps id i actor reason replacement s row h g =
    edited id i (void_with s.now actor (i.status === disputed) reason replacement) row
      (voided s.now actor reason replacement h g refl) (grind (arith, cancel_earnings-frame id))

pub commit_dispute-Steps :
    (id : ℕ) (i : Invoice) (actor : ℕ) (reason : String) (s : Store)
    → find id s.ledger.invoices ≡ some i
    → is_disputable_status i.status ≡ true
    → Steps s (commit_dispute id i actor reason s).1
unfolding commit_dispute ◌>>=◌ update_invoice audit_log notify
commit_dispute-Steps id i actor reason s row h =
    edited id i (dispute_at s.now actor reason i.status) row (disputed_by s.now actor reason h refl)
      (ground arith)

pub commit_clear-Steps :
    (id : ℕ) (i : Invoice) (actor : ℕ) (note : Option String) (s : Store)
    → find id s.ledger.invoices ≡ some i
    → i.status ≡ disputed
    → Steps s (commit_clear id i actor note s).1
unfolding commit_clear ◌>>=◌ update_invoice audit_log notify
commit_clear-Steps id i actor note s row h =
    edited id i _ row (cleared s.now actor note h refl) (ground arith)

-- a step after one that leaves the invoices alone
pub after_frame : (s t u : Store) → SameInvoices s t → Steps t u → Steps s u
after_frame s t u e h = subst (λ (x : Table Invoice). Step x u.ledger.invoices) e h

-- the outcome of a handler is a step
abbrev pub Goal : {A : Type 0} → Store → Result A × Store → Type 0
Goal s r = Steps s r.1

pub Run-invoice :
    {A : Type 0} {P : Result A × Store → Type 0} (id : ℕ) (k : Option Invoice → Action A)
    (s : Store)
    → Run P (k (find id s.ledger.invoices)) s
    → Run P (find_invoice id >>= k) s
unfolding ◌>>=◌ find_invoice
Run-invoice id k s h = record { at = h.at }
