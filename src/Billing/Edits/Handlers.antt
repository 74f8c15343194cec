-- ===== src/Billing/Edits/Handlers.antt =====
-- Each handler of an invoice (src/billing/billing.service.ts, billing-confirmation.service.ts) makes
-- at most one step of the table.
use guardian_backend_service.Prelude.{
  ℕ, ◌≡◌, refl, Bool, true, false, Option, none, some, String, arith, ◌===◌, not, ◌==◌,
}
use guardian_backend_service.Prelude.Table.{find, find_where}
use guardian_backend_service.Prelude.Effect.{Result, ok, err, continue, when, ◌>>=◌}
use guardian_backend_service.Prelude.Effect.Rules.{
  Run, Run-pure, Run-branch, Run-guard, Run-some, Run-quiet,
}
use guardian_backend_service.Data.{Store, AuthUser, atomic, find_job}
use guardian_backend_service.Data.Money.{Invoice, InvoiceStatus, invoice_eq, disputed, void}
use guardian_backend_service.Jobs.Lifecycle.{transition_job_status, confirm_billing}
use guardian_backend_service.Billing.Tables.{find_invoice, find_invoice_of}
use guardian_backend_service.Billing.Invoices.{
  is_issuable_status, is_disputable_status, get_invoice, issue_if_draft, assert_replacement_invoice,
  check_replacement, void_invoice, dispute_invoice, DisputeResolution, settle_dispute,
  resolve_dispute, process_auto_confirm, issue_row,
}
use guardian_backend_service.Billing.Edits.{
  Steps, SameInvoices, org_member-frame, view-Steps, commit_issue-Steps, commit_void-Steps,
  commit_dispute-Steps, commit_clear-Steps, after_frame, Goal, Run-invoice, unchanged,
}

pub issue_if_draft-Steps :
    (id : ℕ) (actor : Option ℕ) (s : Store) → Steps s (issue_if_draft id actor s).1
unfolding issue_if_draft
issue_if_draft-Steps id actor s =
    (Run-invoice {P = Goal s} id _ s (
      Run-some _ _ _ s (unchanged refl) λ i row. Run-guard _ _ _ s (unchanged refl) λ _.
        Run-branch (not (is_issuable_status i.status)) _ _ s (λ _. Run-pure i s (unchanged refl))
          λ h. record { at = commit_issue-Steps id i actor s row (ground arith) })).at

pub get_invoice-Steps : (id : ℕ) (actor : AuthUser) (s : Store) → Steps s (get_invoice id actor s).1
unfolding get_invoice
get_invoice-Steps id actor s =
    (Run-invoice {P = Goal s} id _ s (
      Run-some _ _ _ s (unchanged refl) λ i row.
        Run-quiet _ _ s (org_member-frame i.organization_id actor s) (λ _. (unchanged refl))
          λ _ _. record { at = view-Steps id i actor.sub s row })).at

replacement-frame :
    (o : Option ℕ) (org id : ℕ) (s : Store) → (assert_replacement_invoice o org id s).1 ≡ s
unfolding assert_replacement_invoice check_replacement ◌>>=◌ find_invoice
replacement-frame o org id s = ground arith

pub void_invoice-Steps :
    (id actor : ℕ) (reason : String) (replacement : Option ℕ) (s : Store)
    → Steps s (void_invoice id actor reason replacement s).1
unfolding void_invoice
void_invoice-Steps id actor reason replacement s =
    (Run-invoice {P = Goal s} id _ s (
      Run-some _ _ _ s (unchanged refl) λ i row.
        Run-branch (i.status === void) _ _ s (λ _. Run-pure i s (unchanged refl))
          λ not_void. Run-guard (i.status === InvoiceStatus.paid) _ _ s (unchanged refl) λ not_paid.
            Run-quiet _ _ s (replacement-frame replacement i.organization_id id s)
              (λ _. (unchanged refl))
              λ _ _. record {
                at =
                    commit_void-Steps id i actor reason replacement s row (λ e. ground arith)
                      (λ e. ground arith);
              })).at

pub dispute_invoice-Steps :
    (id : ℕ) (actor : AuthUser) (reason : String) (s : Store)
    → Steps s (dispute_invoice id actor reason s).1
unfolding dispute_invoice
dispute_invoice-Steps id actor reason s =
    (Run-invoice {P = Goal s} id _ s (
      Run-some _ _ _ s (unchanged refl) λ i row.
        Run-quiet _ _ s (org_member-frame i.organization_id actor s) (λ _. (unchanged refl))
          λ _ _.
            Run-branch _ _ _ s (λ _. Run-pure i s (unchanged refl))
              λ _. Run-guard (not (is_disputable_status i.status)) _ _ s (unchanged refl) λ h.
                record { at = commit_dispute-Steps id i actor.sub reason s row (ground arith) })).at

settle_dispute-Steps :
    (id : ℕ) (i : Invoice) (actor : ℕ) (body : DisputeResolution) (s : Store)
    → find id s.ledger.invoices ≡ some i
    → i.status ≡ disputed
    → Run (Goal s) (settle_dispute id i actor body) s
unfolding settle_dispute
settle_dispute-Steps id i actor (DisputeResolution.clear note) s row h = record {
  at = commit_clear-Steps id i actor note s row h;
}
settle_dispute-Steps id i actor (DisputeResolution.void_it reason replacement) s row h =
    Run-some reason _ _ s (unchanged refl)
      λ text _. record { at = void_invoice-Steps id actor text replacement s }

pub resolve_dispute-Steps :
    (id actor : ℕ) (body : DisputeResolution) (s : Store)
    → Steps s (resolve_dispute id actor body s).1
unfolding resolve_dispute
resolve_dispute-Steps id actor body s =
    (Run-invoice {P = Goal s} id _ s (
      Run-some _ _ _ s (unchanged refl) λ i row.
        Run-guard (not (i.status === disputed)) _ _ s (unchanged refl)
          λ h. settle_dispute-Steps id i actor body s row (ground arith))).at

confirm_billing-frame :
    (job : ℕ) (by : Option ℕ) (s : Store) → SameInvoices s (confirm_billing job by s).1
unfolding confirm_billing atomic ◌>>=◌ transition_job_status
confirm_billing-frame job by s = ground arith

issue_row-state :
    (id : ℕ) (i : Invoice) (s : Store)
    → (issue_row (some (id, i)) s).1 ≡ (issue_if_draft id none s).1
unfolding ◌>>=◌
issue_row-state id i s = ground arith

issue_row-Steps : (o : Option (ℕ × Invoice)) (s : Store) → Steps s (issue_row o s).1
unfolding ◌>>=◌
issue_row-Steps none s = unchanged refl
issue_row-Steps (some (id, i)) s = rw (issue_row-state id i s) (issue_if_draft-Steps id none s)

confirm_and_issue-Steps :
    (job : ℕ) (o : Option (ℕ × Invoice)) (s : Store)
    → Steps s ((confirm_billing job none >>= λ _. issue_row o) s).1
unfolding ◌>>=◌
confirm_and_issue-Steps job o s =
    by_result (confirm_billing job none s) (confirm_billing-frame job none s)
  where
    by_result :
        (r : Result (Unit {0}) × Store)
        → SameInvoices s r.1
        → Steps s (continue (λ _. issue_row o) r).1
    by_result (ok a, t) e = after_frame s t (issue_row o t).1 e (issue_row-Steps o t)
    by_result (err x, t) e = unchanged e

pub process_auto_confirm-Steps : (job : ℕ) (s : Store) → Steps s (process_auto_confirm job s).1
unfolding process_auto_confirm ◌>>=◌ find_job find_invoice_of
process_auto_confirm-Steps job s = by_test _
  where
    by_test :
        (b : Bool)
        → Steps s
            (when b
              (confirm_billing job none >>= λ _.
                issue_row (find_where (λ i. i.job_id == job) s.ledger.invoices))
              s).1
    by_test true = confirm_and_issue-Steps job _ s
    by_test false = unchanged refl
