-- ===== src/Billing/Steps.antt =====
-- Every request to the billing and payment services is a step of the table of invoices
-- (src/billing/billing.service.ts, src/payments/payments.service.ts).
use guardian_backend_service.Prelude.{
  ℕ, ◌≡◌, refl, Option, none, some, String, arith, Option-cases, inl, inr, ◌==◌, sym,
}
use mathlib.Core.Path.{subst}
use guardian_backend_service.Prelude.Table.{Table, find, find_where}
use guardian_backend_service.Prelude.Effect.{
  Result, ok, err, ◌>>=◌, continue, pure, some_or_throw, job_not_found, invoice_not_found,
  payment_not_found,
}
use guardian_backend_service.Prelude.Effect.Rules.{Run, Run-gets, Run-some, Run-quiet}
use guardian_backend_service.Data.{
  Store, Assignment, Job, atomic, find_job, audit_log, notify, enqueue_at,
}
use guardian_backend_service.Data.Money.{Invoice, draft, Payment}
use guardian_backend_service.Policies.Setup.{assert_can_book_jobs}
use guardian_backend_service.Payroll.Earnings.{completed_assignments}
use guardian_backend_service.Billing.Calculation.{resolve_billing_policy}
use guardian_backend_service.Billing.Tables.{
  find_invoice, find_invoice_of, update_invoice, insert_invoice,
}
use guardian_backend_service.Billing.Drafts.{
  new_draft, existing_or_new, resolve_price, draft_from, announce_draft,
  create_draft_invoice_for_job, create_draft_invoice_for_job_id,
}
use guardian_backend_service.Billing.Invoices.{
  issue_if_draft, issue_draft_for_job_id, create_and_issue_invoice_for_job_id,
}
use guardian_backend_service.Billing.Payments.{
  CreatePaymentInput, find_payment_with, insert_payment, new_payment_for, create_payment,
  update_payment, commit_payment, announce_payment, confirm_payment, set_paid,
  confirm_by_idempotency_key,
}
use guardian_backend_service.Billing.Requests.{Request, handle}
use guardian_backend_service.Billing.Edits.{
  Step, Moves, unchanged, drafted, edited, settled, Steps, SameInvoices, Goal,
}
use guardian_backend_service.Billing.Edits.Accrual.{accrue_for_paid-frame}
use guardian_backend_service.Billing.Edits.Handlers.{
  get_invoice-Steps, issue_if_draft-Steps, void_invoice-Steps, dispute_invoice-Steps,
  resolve_dispute-Steps, process_auto_confirm-Steps,
}

pub resolve_price-quiet : (org d t at : ℕ) (s : Store) → (resolve_price org d t at s).1 ≡ s
unfolding resolve_price ◌>>=◌
resolve_price-quiet org d t at s = ground arith

pub resolve_billing_policy-quiet :
    (org t at : ℕ) (s : Store) → (resolve_billing_policy org t at s).1 ≡ s
unfolding resolve_billing_policy ◌>>=◌
resolve_billing_policy-quiet org t at s = ground arith

announce_draft-frame :
    (job id : ℕ) (i : Invoice) (actor : ℕ) (s : Store)
    → SameInvoices s (announce_draft job id i actor s).1
unfolding announce_draft ◌>>=◌ audit_log enqueue_at notify
announce_draft-frame job id i actor s = ground arith

insert_draft-Steps :
    (job actor : ℕ) (i : Invoice) (s : Store)
    → i.status ≡ draft
    → i.status_before_dispute ≡ none
    → Run
        (Goal s)
        (insert_invoice i >>= λ created.
          announce_draft job created.0 created.1 actor >>= λ _. pure created.0)
        s
unfolding ◌>>=◌ insert_invoice
insert_draft-Steps job actor i s h g = record {
  at = drafted i h g (grind (arith, announce_draft-frame job));
}

-- a draft is made, or the table is as it was
draft_from-Steps :
    (job : ℕ) (j : Job) (actor : ℕ) (rows : Table Assignment) (primary : ℕ × Assignment) (s : Store)
    → Run (Goal s) (draft_from job j actor rows primary) s
unfolding draft_from
draft_from-Steps job j actor rows (id, a) s =
    Run-quiet _ _ s
      (resolve_price-quiet j.organization_id j.district_name j.job_type j.scheduled_start s)
      (λ _. unchanged refl)
      λ price _. Run-gets _ _ s (
        Run-quiet _ _ s
          (resolve_billing_policy-quiet j.organization_id j.job_type j.scheduled_start s)
          (λ _. unchanged refl)
          λ policy _.
            Run-quiet _ _ s refl (λ _. unchanged refl)
              λ amounts _. insert_draft-Steps job actor _ s refl refl)

new_draft-Steps : (job : ℕ) (j : Job) (actor : ℕ) (s : Store) → Steps s (new_draft job j actor s).1
unfolding new_draft
new_draft-Steps job j actor s =
    (Run-gets {P = Goal s} _ _ s (
      Run-some _ _ _ s (unchanged refl)
        λ primary _. draft_from-Steps job j actor (completed_assignments job s) primary s)).at

create_draft-Steps :
    (job : ℕ) (j : Job) (actor : ℕ) (s : Store)
    → Steps s (create_draft_invoice_for_job job j actor s).1
unfolding create_draft_invoice_for_job ◌>>=◌ find_invoice_of
create_draft-Steps job j actor s = by_row (find_where (λ i. i.job_id == job) s.ledger.invoices)
  where
    by_row : (o : Option (ℕ × Invoice)) → Steps s (existing_or_new job j actor o s).1
    by_row none = new_draft-Steps job j actor s
    by_row (some row) = unchanged refl

create_draft_by_id-Steps :
    (job actor : ℕ) (s : Store) → Steps s (create_draft_invoice_for_job_id job actor s).1
unfolding create_draft_invoice_for_job_id ◌>>=◌ find_job
create_draft_by_id-Steps job actor s = by_job (find job s.jobs)
  where
    by_job :
        (o : Option Job)
        → Steps s
            (continue
              (λ j. create_draft_invoice_for_job job j actor)
              (some_or_throw o job_not_found s)).1
    by_job none = unchanged refl
    by_job (some j) = create_draft-Steps job j actor s

create_payment-frame :
    (input : CreatePaymentInput) (s : Store) → SameInvoices s (create_payment input s).1
unfolding create_payment new_payment_for ◌>>=◌ find_payment_with find_invoice assert_can_book_jobs
    insert_payment audit_log
create_payment-frame input s = ground arith

commit_payment-Steps :
    (id invoice : ℕ) (txn : Option String) (s : Store) → Steps s (commit_payment id invoice txn s).1
unfolding commit_payment atomic ◌>>=◌ update_payment update_invoice
commit_payment-Steps id invoice txn s = elim (Option-cases (find invoice s.ledger.invoices)) [
  | inl e ↦ unchanged (ground arith)
  | inr (i, e) ↦ elim (Option-cases (find id s.ledger.payments)) [
    | inl h ↦ unchanged (ground arith)
    | inr (p, h) ↦ edited invoice i set_paid e (settled refl) (ground arith)
  ]
]

-- what follows the transaction leaves the invoices alone
pub confirm_payment-invoices :
    (id : ℕ) (txn : Option String) (s : Store) (p : Payment)
    → find id s.ledger.payments ≡ some p
    → SameInvoices (commit_payment id p.invoice_id txn s).1 (confirm_payment id txn s).1
unfolding confirm_payment ◌>>=◌ audit_log announce_payment notify find_invoice
confirm_payment-invoices id txn s p row = grind (arith, accrue_for_paid-frame)

confirm_payment-Steps :
    (id : ℕ) (txn : Option String) (s : Store) → Steps s (confirm_payment id txn s).1
unfolding confirm_payment ◌>>=◌
confirm_payment-Steps id txn s = elim (Option-cases (find id s.ledger.payments)) [
  | inl e ↦ unchanged (ground arith)
  | inr (p, e) ↦
      subst (λ (x : Table Invoice). Step s.ledger.invoices x)
        (sym (confirm_payment-invoices id txn s p e)) (commit_payment-Steps id p.invoice_id txn s)
]

issue_for_job-Steps :
    (job : ℕ) (actor : Option ℕ) (s : Store) → Steps s (issue_draft_for_job_id job actor s).1
unfolding issue_draft_for_job_id ◌>>=◌ find_invoice_of
issue_for_job-Steps job actor s = by_row (find_where (λ i. i.job_id == job) s.ledger.invoices)
  where
    by_row :
        (o : Option (ℕ × Invoice))
        → Steps s
            (continue (λ row. issue_if_draft row.0 actor) (some_or_throw o invoice_not_found s)).1
    by_row none = unchanged refl
    by_row (some row) = issue_if_draft-Steps row.0 actor s

confirm_by_key-Steps :
    (key : ℕ) (txn : Option String) (s : Store) → Steps s (confirm_by_idempotency_key key txn s).1
unfolding confirm_by_idempotency_key ◌>>=◌ find_payment_with
confirm_by_key-Steps key txn s =
    by_row (find_where (λ p. p.idempotency_key == key) s.ledger.payments)
  where
    by_row :
        (o : Option (ℕ × Payment))
        → Steps s
            (continue (λ row. confirm_payment row.0 txn) (some_or_throw o payment_not_found s)).1
    by_row none = unchanged refl
    by_row (some row) = confirm_payment-Steps row.0 txn s

once : (t u : Table Invoice) → Step t u → Moves 1 t u
once t u h = (u, h, refl)

abbrev pub MovesTo : ℕ → Store → Store → Type 0
MovesTo n s t = Moves n s.ledger.invoices t.ledger.invoices

draft_and_issue-Moves :
    (job actor : ℕ) (s : Store) → MovesTo 2 s (create_and_issue_invoice_for_job_id job actor s).1
unfolding create_and_issue_invoice_for_job_id ◌>>=◌
draft_and_issue-Moves job actor s =
    by_result (create_draft_invoice_for_job_id job actor s) (create_draft_by_id-Steps job actor s)
  where
    by_result :
        (r : Result ℕ × Store)
        → Steps s r.1
        → MovesTo 2 s (continue (λ id. issue_if_draft id (some actor)) r).1
    by_result (ok id, t) h =
        (t.ledger.invoices, h, once t.ledger.invoices _ (issue_if_draft-Steps id (some actor) t))
    by_result (err e, t) h =
        (t.ledger.invoices, h, once t.ledger.invoices t.ledger.invoices (unchanged refl))

-- to make a draft and issue it are two steps, any other request is one
abbrev pub most_steps : Request → ℕ
most_steps (Request.draft_and_issue job actor) = 2
most_steps _ = 1

-- Every request to the services of billing and payment makes at most one step of the abstract
-- machine, and `createAndIssueInvoiceForJobId` at most two: in a step a draft is inserted, or one
-- invoice is edited in a way that its status allows.
pub handle-Steps : (r : Request) (s : Store) → MovesTo (most_steps r) s (handle r s)
unfolding handle
handle-Steps (Request.draft_invoice job actor) s = once _ _ (create_draft_by_id-Steps job actor s)
handle-Steps (Request.view id actor) s = once _ _ (get_invoice-Steps id actor s)
handle-Steps (Request.issue id actor) s = once _ _ (issue_if_draft-Steps id actor s)
handle-Steps (Request.issue_for_job job actor) s = once _ _ (issue_for_job-Steps job actor s)
handle-Steps (Request.draft_and_issue job actor) s = draft_and_issue-Moves job actor s
handle-Steps (Request.void id actor reason replacement) s =
    once _ _ (void_invoice-Steps id actor reason replacement s)
handle-Steps (Request.dispute id actor reason) s =
    once _ _ (dispute_invoice-Steps id actor reason s)
handle-Steps (Request.resolve id actor body) s = once _ _ (resolve_dispute-Steps id actor body s)
handle-Steps (Request.auto_confirm job) s = once _ _ (process_auto_confirm-Steps job s)
handle-Steps (Request.pay input) s = once _ _ (unchanged (create_payment-frame input s))
handle-Steps (Request.confirm id txn) s = once _ _ (confirm_payment-Steps id txn s)
handle-Steps (Request.confirm_by_key key txn) s = once _ _ (confirm_by_key-Steps key txn s)
