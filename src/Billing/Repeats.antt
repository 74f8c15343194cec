-- ===== src/Billing/Repeats.antt =====
-- A request that is repeated (src/billing/billing.service.ts, src/payments/payments.service.ts): the
-- issue of an invoice, the draft for a job, and a payment with its idempotency key.
use guardian_backend_service.Prelude.{
  ℕ, ◌≡◌, refl, false, Option, none, some, arith, ◌==◌, ◌===◌, Option-cases, inl, inr,
}
use guardian_backend_service.Prelude.Table.{Table, find, find_where}
use guardian_backend_service.Prelude.Table.Laws.{find-modify_self}
use guardian_backend_service.Prelude.Effect.{Error, Result, ok, err, ◌>>=◌, pure}
use guardian_backend_service.Prelude.Effect.Rules.{Run, Run-gets, Run-some, Run-quiet}
use guardian_backend_service.Data.{Store, Job, Assignment, audit_log, notify, enqueue_at}
use guardian_backend_service.Payroll.Earnings.{completed_assignments}
use guardian_backend_service.Billing.Steps.{resolve_price-quiet, resolve_billing_policy-quiet}
use guardian_backend_service.Data.Money.{Invoice, invoice_eq, disputed, Payment}
use guardian_backend_service.Policies.Setup.{assert_can_book_jobs}
use guardian_backend_service.Billing.Tables.{
  find_invoice, find_invoice_of, update_invoice, insert_invoice,
}
use guardian_backend_service.Billing.Drafts.{
  new_draft, draft_from, announce_draft, create_draft_invoice_for_job,
}
use guardian_backend_service.Billing.Invoices.{
  is_issuable_status, issue_at, commit_issue, issue_if_draft,
}
use guardian_backend_service.Billing.Payments.{
  new_payment, CreatePaymentInput, find_payment_with, insert_payment, new_payment_for,
  create_payment,
}

commit_issue-row :
    (id : ℕ) (i : Invoice) (actor : Option ℕ) (s : Store)
    → find id s.ledger.invoices ≡ some i
    → (find id (commit_issue id i actor s).1.ledger.invoices ≡ some (issue_at s.now i))
      × ((commit_issue id i actor s).0 ≡ ok (issue_at s.now i))
unfolding commit_issue ◌>>=◌ update_invoice audit_log notify
commit_issue-row id i actor s row =
    ground (arith, find-modify_self id (issue_at s.now) s.ledger.invoices i row)

-- What is there to be issued again is not.
settled_row :
    (id : ℕ) (i : Invoice) (actor : Option ℕ) (s : Store) (b : Invoice)
    → find id s.ledger.invoices ≡ some i
    → (issue_if_draft id actor s).0 ≡ ok b
    → (find id (issue_if_draft id actor s).1.ledger.invoices ≡ some b)
      × (is_issuable_status b.status ≡ false)
      × ((b.status === disputed) ≡ false)
unfolding issue_if_draft ◌>>=◌ find_invoice
settled_row id i actor s b row done = grind (arith, commit_issue-row id i actor s row)

no_change :
    (id : ℕ) (actor : Option ℕ) (s : Store) (b : Invoice)
    → find id s.ledger.invoices ≡ some b
    → is_issuable_status b.status ≡ false
    → (b.status === disputed) ≡ false
    → issue_if_draft id actor s ≡ (ok b, s)
unfolding issue_if_draft ◌>>=◌ find_invoice
no_change id actor s b row closed undisputed = ground arith

-- Once an invoice has been issued, another request to issue it answers with the same row and writes
-- nothing.
pub issue_if_draft-again :
    (id : ℕ) (i : Invoice) (actor again : Option ℕ) (s : Store) (b : Invoice)
    → find id s.ledger.invoices ≡ some i
    → (issue_if_draft id actor s).0 ≡ ok b
    → issue_if_draft id again (issue_if_draft id actor s).1 ≡ (ok b, (issue_if_draft id actor s).1)
issue_if_draft-again id i actor again s b row done =
    let (there, closed, undisputed) = settled_row id i actor s b row done in
    no_change id again (issue_if_draft id actor s).1 b there closed undisputed

find_payment : ℕ → Store → Option (ℕ × Payment)
find_payment key s = find_where (λ (p : Payment). p.idempotency_key == key) s.ledger.payments

create_payment-known :
    (input : CreatePaymentInput) (s : Store) (row : ℕ × Payment)
    → find_payment input.idempotency_key s ≡ some row
    → create_payment input s ≡ (ok row.0, s)
unfolding create_payment ◌>>=◌ find_payment_with find_payment
create_payment-known input s row h = ground arith

create_payment-new :
    (input : CreatePaymentInput) (s : Store)
    → find_payment input.idempotency_key s ≡ none
    → create_payment input s ≡ new_payment_for input s
unfolding create_payment ◌>>=◌ find_payment_with find_payment
create_payment-new input s h = ground arith

-- The key of the input is the key of the new row, which is in front.
new_payment-found :
    (input : CreatePaymentInput) (s : Store) (id : ℕ) (i : Invoice)
    → find input.invoice_id s.ledger.invoices ≡ some i
    → (new_payment_for input s).0 ≡ ok id
    → find_payment input.idempotency_key (new_payment_for input s).1
      ≡ some (id, new_payment input i.currency)
unfolding new_payment_for ◌>>=◌ find_payment find_invoice assert_can_book_jobs insert_payment
    audit_log find_where
new_payment-found input s id i row done = ground arith

new_payment-refused :
    (input : CreatePaymentInput) (s : Store) (id : ℕ)
    → find input.invoice_id s.ledger.invoices ≡ none
    → (new_payment_for input s).0 ≡ ok id
    → ⊥
unfolding new_payment_for ◌>>=◌ find_invoice
new_payment-refused input s id row done = ground arith

-- A request to pay that is sent again with its idempotency key answers with the same payment and
-- writes nothing.
pub create_payment-again :
    (input again : CreatePaymentInput) (s : Store) (id : ℕ)
    → again.idempotency_key ≡ input.idempotency_key
    → (create_payment input s).0 ≡ ok id
    → create_payment again (create_payment input s).1 ≡ (ok id, (create_payment input s).1)
create_payment-again input again s id same done =
    elim (Option-cases (find_payment input.idempotency_key s)) [
      | inr (row, e) ↦
          ground (arith, create_payment-known input s row e, create_payment-known again s row)
      | inl e ↦ elim (Option-cases (find input.invoice_id s.ledger.invoices)) [
        | inl h ↦
            absurd (
              new_payment-refused input s id h (ground (arith, create_payment-new input s e, done)))
        | inr (i, h) ↦ ground (
          arith,
          create_payment-new input s e,
          new_payment-found input s id i h,
          create_payment-known again (new_payment_for input s).1 (id, new_payment input i.currency),
        )
      ]
    ]

-- the invoice of a job
invoice_of : ℕ → Store → Option (ℕ × Invoice)
invoice_of job s = find_where (λ (i : Invoice). i.job_id == job) s.ledger.invoices

-- if it answers with an id, the invoice of the job has that id
abbrev IsDrafted : ℕ → Result ℕ × Store → Type 0
IsDrafted job r = (id : ℕ) → r.0 ≡ ok id → (i : Invoice) × (invoice_of job r.1 ≡ some (id, i))

refused : (job : ℕ) (e : Error) (s : Store) → IsDrafted job (err e, s)
refused job e s id h = absurd (ground arith)

insert_draft-IsDrafted :
    (job actor : ℕ) (i : Invoice) (s : Store)
    → i.job_id ≡ job
    → Run
        (IsDrafted job)
        (insert_invoice i >>= λ created.
          announce_draft job created.0 created.1 actor >>= λ _. pure created.0)
        s
unfolding ◌>>=◌ insert_invoice announce_draft audit_log enqueue_at notify invoice_of find_where
insert_draft-IsDrafted job actor i s own = record { at = λ id h. (i, ground arith) }

draft_from-IsDrafted :
    (job : ℕ) (j : Job) (actor : ℕ) (rows : Table Assignment) (primary : ℕ × Assignment) (s : Store)
    → Run (IsDrafted job) (draft_from job j actor rows primary) s
unfolding draft_from
draft_from-IsDrafted job j actor rows (id, a) s =
    Run-quiet _ _ s
      (resolve_price-quiet j.organization_id j.district_name j.job_type j.scheduled_start s)
      (λ e. refused job e s)
      λ price _. Run-gets _ _ s (
        Run-quiet _ _ s
          (resolve_billing_policy-quiet j.organization_id j.job_type j.scheduled_start s)
          (λ e. refused job e s)
          λ policy _.
            Run-quiet _ _ s refl (λ e. refused job e s)
              λ amounts _. insert_draft-IsDrafted job actor _ s refl)

new_draft-IsDrafted :
    (job : ℕ) (j : Job) (actor : ℕ) (s : Store) → IsDrafted job (new_draft job j actor s)
unfolding new_draft
new_draft-IsDrafted job j actor s =
    (Run-gets {P = IsDrafted job} _ _ s (
      Run-some _ _ _ s (refused job _ s)
        λ primary _. draft_from-IsDrafted job j actor (completed_assignments job s) primary s)).at

create_draft-known :
    (job : ℕ) (j : Job) (actor : ℕ) (s : Store) (row : ℕ × Invoice)
    → invoice_of job s ≡ some row
    → create_draft_invoice_for_job job j actor s ≡ (ok row.0, s)
unfolding create_draft_invoice_for_job ◌>>=◌ find_invoice_of invoice_of
create_draft-known job j actor s row h = ground arith

create_draft-new :
    (job : ℕ) (j : Job) (actor : ℕ) (s : Store)
    → invoice_of job s ≡ none
    → create_draft_invoice_for_job job j actor s ≡ new_draft job j actor s
unfolding create_draft_invoice_for_job ◌>>=◌ find_invoice_of invoice_of
create_draft-new job j actor s h = ground arith

-- A draft for a job that has been made is not made twice: the second request answers with the same
-- invoice and writes nothing.
pub create_draft-again :
    (job : ℕ) (j k : Job) (actor again : ℕ) (s : Store) (id : ℕ)
    → (create_draft_invoice_for_job job j actor s).0 ≡ ok id
    → create_draft_invoice_for_job job k again (create_draft_invoice_for_job job j actor s).1
      ≡ (ok id, (create_draft_invoice_for_job job j actor s).1)
create_draft-again job j k actor again s id done = elim (Option-cases (invoice_of job s)) [
  | inr (row, e) ↦
      ground (arith, create_draft-known job j actor s row e, create_draft-known job k again s row)
  | inl e ↦
      let (i, found) =
        new_draft-IsDrafted job j actor s id
          (ground (arith, create_draft-new job j actor s e, done)) in
      ground (
        arith,
        create_draft-new job j actor s e,
        create_draft-known job k again (new_draft job j actor s).1 (id, i) found,
      )
]
