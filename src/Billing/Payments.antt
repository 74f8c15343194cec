-- ===== src/Billing/Payments.antt =====
-- PaymentsService (src/payments/payments.service.ts). A handler runs alone, so the idempotency key that
-- was looked up is still free at the insertion.
use guardian_backend_service.Prelude.{
  ℕ, ◌==◌, ◌===◌, ◌||◌, not, Bool, Option, none, some, String, first_of_two,
}
use guardian_backend_service.Prelude.Table.{find, modify, find_where, fresh_id, insert}
use guardian_backend_service.Prelude.Effect.{
  ok, err, ◌>>=◌, ◌>>◌, pure, gets, throw_if, some_or_throw, invoice_not_found, invoice_disputed,
  invoice_not_issued, payment_not_found, record_missing,
}
use guardian_backend_service.Data.{Action, atomic, audit_log, notify, Notice}
use guardian_backend_service.Data.Money.{
  Invoice, InvoiceStatus, invoice_eq, issued, partially_paid, disputed, Payment, PaymentStatus,
}
use guardian_backend_service.Policies.Setup.{assert_can_book_jobs}
use guardian_backend_service.Payroll.Earnings.{accrue_for_paid_invoice}
use guardian_backend_service.Billing.Tables.{find_invoice, update_invoice}

pub record CreatePaymentInput : Type 0 where
  pub invoice_id : ℕ
  pub provider : ℕ
  pub amount : ℕ
  pub idempotency_key : ℕ
  pub external_txn_id : Option String

abbrev pub new_payment : CreatePaymentInput → String → Payment
new_payment input currency = record {
  invoice_id = input.invoice_id;
  provider = input.provider;
  external_txn_id = input.external_txn_id;
  amount = input.amount;
  currency = currency;
  status = PaymentStatus.pending;
  idempotency_key = input.idempotency_key;
  paid_at = none;
}

unfoldable pub insert_payment : Payment → Action ℕ
unfolding fresh_id
insert_payment p s = (
  ok (fresh_id s.ledger.payments),
  record s { ledger = record s.ledger { payments = insert p s.ledger.payments } },
)

abbrev pub takes_payment : InvoiceStatus → Bool
takes_payment status = status === issued || status === partially_paid

unfoldable pub new_payment_for : CreatePaymentInput → Action ℕ
unfolding find_invoice assert_can_book_jobs insert_payment audit_log
new_payment_for input = do
  invoice ← some_or_throw (← find_invoice input.invoice_id) invoice_not_found
  throw_if (invoice.status === disputed) invoice_disputed
  throw_if (not (takes_payment invoice.status)) invoice_not_issued
  assert_can_book_jobs invoice.organization_id
  payment ← insert_payment (new_payment input invoice.currency)
  audit_log none "PAYMENT_CREATED" payment
  pure payment

unfoldable pub find_payment_with : ℕ → Action (Option (ℕ × Payment))
find_payment_with key s =
    (ok (find_where (λ (p : Payment). p.idempotency_key == key) s.ledger.payments), s)

unfoldable pub create_payment : CreatePaymentInput → Action ℕ
unfolding find_payment_with new_payment_for
create_payment input = do
  existing ← find_payment_with input.idempotency_key
  elim existing [ none ↦ new_payment_for input | some row ↦ pure row.0 ]

unfoldable pub update_payment : ℕ → (Payment → Payment) → Action Payment
update_payment id f s = elim (find id s.ledger.payments) [
  | none ↦ (err record_missing, s)
  | some p ↦
      (ok (f p), record s { ledger = record s.ledger { payments = modify id f s.ledger.payments } })
]

abbrev pub complete_payment : ℕ → Option String → Payment → Payment
complete_payment now txn p = record p {
  status = PaymentStatus.completed;
  paid_at = some now;
  external_txn_id = first_of_two txn p.external_txn_id;
}

abbrev pub set_paid : Invoice → Invoice
set_paid i = record i { status = InvoiceStatus.paid }

-- the transaction
unfoldable pub commit_payment : ℕ → ℕ → Option String → Action Payment
unfolding update_payment update_invoice
commit_payment id invoice txn = atomic (do
  now ← gets λ s. s.now
  updated ← update_payment id (complete_payment now txn)
  i ← update_invoice invoice set_paid
  pure updated)

unfoldable pub announce_payment : ℕ → Option Invoice → Action (Unit {0})
unfolding notify
announce_payment id none = pure tt
announce_payment id (some i) = do
  notify (Notice.email_org_owners i.organization_id "BILLING_PAYMENT_CONFIRMED" id)
  notify (Notice.in_app_org_owners i.organization_id "Payment confirmed" id)

unfoldable pub confirm_payment : ℕ → Option String → Action Payment
unfolding commit_payment audit_log find_invoice announce_payment accrue_for_paid_invoice
confirm_payment id txn = do
  payment ← some_or_throw (← gets λ s. find id s.ledger.payments) payment_not_found
  updated ← commit_payment id payment.invoice_id txn
  audit_log none "PAYMENT_CONFIRMED" id
  invoice ← find_invoice payment.invoice_id
  announce_payment id invoice
  accrue_for_paid_invoice payment.invoice_id
  pure updated

unfoldable pub confirm_by_idempotency_key : ℕ → Option String → Action Payment
unfolding find_payment_with confirm_payment
confirm_by_idempotency_key key txn = do
  row ← some_or_throw (← find_payment_with key) payment_not_found
  confirm_payment row.0 txn
