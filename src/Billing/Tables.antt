-- ===== src/Billing/Tables.antt =====
-- The statements of the billing services on their tables.
use guardian_backend_service.Prelude.{ℕ, Option, none, some, ◌==◌}
use guardian_backend_service.Prelude.Table.{find, modify, find_where, fresh_id, insert}
use guardian_backend_service.Prelude.Effect.{ok, err, record_missing}
use guardian_backend_service.Data.{Action}
use guardian_backend_service.Data.Money.{Invoice, Ledger}

unfoldable pub update_ledger : (Ledger → Ledger) → Action (Unit {0})
update_ledger f s = (ok tt, record s { ledger = f s.ledger })

unfoldable pub find_invoice : ℕ → Action (Option Invoice)
find_invoice id s = (ok (find id s.ledger.invoices), s)

-- `findUnique({ where: { jobId } })`
unfoldable pub find_invoice_of : ℕ → Action (Option (ℕ × Invoice))
find_invoice_of job s = (ok (find_where (λ i. i.job_id == job) s.ledger.invoices), s)

unfoldable pub update_invoice : ℕ → (Invoice → Invoice) → Action Invoice
update_invoice id f s = elim (find id s.ledger.invoices) [
  | none ↦ (err record_missing, s)
  | some i ↦
      (ok (f i), record s { ledger = record s.ledger { invoices = modify id f s.ledger.invoices } })
]

unfoldable pub insert_invoice : Invoice → Action (ℕ × Invoice)
unfolding fresh_id
insert_invoice i s = (
  ok (fresh_id s.ledger.invoices, i),
  record s { ledger = record s.ledger { invoices = insert i s.ledger.invoices } },
)
