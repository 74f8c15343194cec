-- ===== src/Billing/Disputes.antt =====
-- A dispute and its end, and a payment that comes late
-- (src/billing/billing.service.ts, src/payments/payments.service.ts).
use guardian_backend_service.Prelude.{ℕ, ◌≡◌, refl, true, Option, some, String, arith, or_else}
use guardian_backend_service.Prelude.Table.{find}
use guardian_backend_service.Prelude.Table.Laws.{find-modify_self}
use guardian_backend_service.Prelude.Effect.{ok, ◌>>=◌}
use guardian_backend_service.Data.{Store, AuthUser, atomic, audit_log, notify}
use guardian_backend_service.Data.Money.{
  Invoice, invoice_eq, earning_eq, Payment, disputed, pending_confirmation,
}
use guardian_backend_service.Policies.{assert_org_member}
use guardian_backend_service.Billing.Tables.{find_invoice, update_invoice}
use guardian_backend_service.Billing.Invoices.{
  is_disputable_status, dispute_at, commit_dispute, dispute_invoice, DisputeResolution, clear_at,
  commit_clear, settle_dispute, resolve_dispute,
}
use guardian_backend_service.Billing.Payments.{
  commit_payment, confirm_payment, update_payment, set_paid,
}
use guardian_backend_service.Billing.Steps.{confirm_payment-invoices}

-- the row of an invoice while it is disputed, and after the dispute is cleared
abbrev pub disputed_row : ℕ → ℕ → String → Invoice → Invoice
disputed_row now actor reason i = dispute_at now actor reason i.status i

commit_dispute-row :
    (id : ℕ) (i : Invoice) (actor : ℕ) (reason : String) (s : Store)
    → find id s.ledger.invoices ≡ some i
    → (find id (commit_dispute id i actor reason s).1.ledger.invoices
        ≡ some (disputed_row s.now actor reason i))
      × ((commit_dispute id i actor reason s).1.now ≡ s.now)
unfolding commit_dispute ◌>>=◌ update_invoice audit_log notify
commit_dispute-row id i actor reason s row = (
  ground
      (arith, find-modify_self id (dispute_at s.now actor reason i.status) s.ledger.invoices i row),
  ground arith,
)

commit_clear-row :
    (id : ℕ) (i : Invoice) (actor : ℕ) (text : Option String) (s : Store)
    → find id s.ledger.invoices ≡ some i
    → find id (commit_clear id i actor text s).1.ledger.invoices
      ≡ some (clear_at s.now actor text (or_else i.status_before_dispute pending_confirmation) i)
unfolding commit_clear ◌>>=◌ update_invoice audit_log notify
commit_clear-row id i actor text s row = ground (
  arith,
  find-modify_self id
      (clear_at s.now actor text (or_else i.status_before_dispute pending_confirmation))
      s.ledger.invoices i row,
)

-- a request on a row that is there, and passes the checks
dispute-commits :
    (id : ℕ) (i : Invoice) (actor : AuthUser) (reason : String) (s : Store)
    → find id s.ledger.invoices ≡ some i
    → assert_org_member i.organization_id actor s ≡ (ok tt, s)
    → is_disputable_status i.status ≡ true
    → dispute_invoice id actor reason s ≡ commit_dispute id i actor.sub reason s
unfolding dispute_invoice ◌>>=◌ find_invoice
dispute-commits id i actor reason s row member allowed = ground arith

resolve-commits :
    (id : ℕ) (i : Invoice) (actor : ℕ) (text : Option String) (s : Store)
    → find id s.ledger.invoices ≡ some i
    → i.status ≡ disputed
    → resolve_dispute id actor (DisputeResolution.clear text) s ≡ commit_clear id i actor text s
unfolding resolve_dispute ◌>>=◌ find_invoice settle_dispute
resolve-commits id i actor text s row allowed = ground arith

-- A dispute that is opened by a member, on an invoice whose status allows it, and then cleared gives
-- the invoice its status back.
pub dispute_then_clear :
    (id : ℕ) (i : Invoice) (actor : AuthUser) (reason : String) (admin : ℕ) (text : Option String)
    (s : Store)
    → find id s.ledger.invoices ≡ some i
    → assert_org_member i.organization_id actor s ≡ (ok tt, s)
    → is_disputable_status i.status ≡ true
    → (b : Invoice) × (find id
          (resolve_dispute id admin
            (DisputeResolution.clear text)
            (dispute_invoice id actor reason s).1).1.ledger.invoices
        ≡ some b)
      × (b.status ≡ i.status)
dispute_then_clear id i actor reason admin text s row member allowed =
    let before = disputed_row s.now actor.sub reason i in
    let t = (commit_dispute id i actor.sub reason s).1 in
    (
      clear_at t.now admin text i.status before,
      rw (dispute-commits id i actor reason s row member allowed) (
          rw
            (resolve-commits id before admin text t
              (commit_dispute-row id i actor.sub reason s row).0 refl)
            (commit_clear-row id before admin text t
              (commit_dispute-row id i actor.sub reason s row).0)),
      refl,
    )

commit_payment-row :
    (id : ℕ) (txn : Option String) (s : Store) (p : Payment) (i : Invoice)
    → find id s.ledger.payments ≡ some p
    → find p.invoice_id s.ledger.invoices ≡ some i
    → find p.invoice_id (commit_payment id p.invoice_id txn s).1.ledger.invoices ≡ some (set_paid i)
unfolding commit_payment atomic ◌>>=◌ update_payment update_invoice
commit_payment-row id txn s p i row there =
    ground (arith, find-modify_self p.invoice_id set_paid s.ledger.invoices i there)

-- The confirmation of a payment makes its invoice PAID whatever the invoice's status is, VOID and
-- DISPUTED included, and whatever the amount and the status of the payment are.
pub confirm_payment-pays :
    (id : ℕ) (txn : Option String) (s : Store) (p : Payment) (i : Invoice)
    → find id s.ledger.payments ≡ some p
    → find p.invoice_id s.ledger.invoices ≡ some i
    → find p.invoice_id (confirm_payment id txn s).1.ledger.invoices ≡ some (set_paid i)
confirm_payment-pays id txn s p i row there =
    rw (confirm_payment-invoices id txn s p row) (commit_payment-row id txn s p i row there)
