-- ===== src/Billing/Wages.antt =====
-- Only what has been paid is earned: the earnings of guardians beside the invoices
-- (src/billing/billing.service.ts, src/payments/payments.service.ts,
-- src/guardian-payroll/guardian-payroll.service.ts).
use guardian_backend_service.Prelude.{ℕ, ◌≡◌, ◌⊎◌, some}
use guardian_backend_service.Prelude.Table.{Table, find}
use guardian_backend_service.Data.{Store}
use guardian_backend_service.Data.Money.{Invoice, InvoiceStatus, Earning, earning_eq}

abbrev pub IsPaidIn : Table Invoice → ℕ → Type 0
IsPaidIn t id = (i : Invoice) × (find id t ≡ some i) × (i.status ≡ InvoiceStatus.paid)

-- every earning belongs to an invoice that is PAID
abbrev pub IsPaidFor : Store → Type 0
IsPaidFor s =
    (k : ℕ) (e : Earning)
    → find k s.ledger.earnings ≡ some e
    → IsPaidIn s.ledger.invoices e.invoice_id

-- An earning was there for the same invoice, or its invoice is PAID.
abbrev IsJustified : Store → Store → Type 0
IsJustified s t =
    (k : ℕ) (e : Earning)
    → find k t.ledger.earnings ≡ some e
    → ((b : Earning) × (find k s.ledger.earnings ≡ some b) × (b.invoice_id ≡ e.invoice_id))
      ⊎ IsPaidIn t.ledger.invoices e.invoice_id
