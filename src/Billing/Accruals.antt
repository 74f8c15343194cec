-- ===== src/Billing/Accruals.antt =====
-- What a confirmed payment adds to the earnings (src/payments/payments.service.ts,
-- src/guardian-payroll/guardian-payroll.service.ts).
use guardian_backend_service.Prelude.{
  ℕ, ◌≡◌, ◌⊎◌, refl, Option, none, some, String, [], ◌∷◌, arith, inl, inr,
}
use guardian_backend_service.Prelude.Table.{Table, find}
use guardian_backend_service.Prelude.Effect.{Result, ok, err, ◌>>=◌, continue, pure}
use guardian_backend_service.Prelude.Effect.Rules.{Run-branch, Run-pure, Run-gets, Run-quiet}
use guardian_backend_service.Data.{
  Store, Assignment, Job, Guardian, atomic, find_job, audit_log, notify,
}
use guardian_backend_service.Data.Money.{Invoice, Earning, Payment}
use guardian_backend_service.Billing.Tables.{find_invoice, update_invoice}
use guardian_backend_service.Billing.Payments.{
  update_payment, commit_payment, announce_payment, confirm_payment,
}
use guardian_backend_service.Billing.Edits.Accrual.{pay_terms-quiet}
use guardian_backend_service.Payroll.Earnings.{
  insert_earning, accrue_with, accrue_if_there, accrue_assignment, accrue_each, accrue_if_job,
  accrue_for, accrue_for_paid_invoice,
}

-- an earning is there already, or is one of the invoice
abbrev pub IsEarnedFrom : ℕ → Store → Store → Type 0
IsEarnedFrom id s t =
    (k : ℕ) (e : Earning)
    → find k t.ledger.earnings ≡ some e
    → (find k s.ledger.earnings ≡ some e) ⊎ (e.invoice_id ≡ id)

same-IsEarnedFrom :
    (id : ℕ) (s t : Store) → t.ledger.earnings ≡ s.ledger.earnings → IsEarnedFrom id s t
same-IsEarnedFrom id s t same k e row = inl (ground (arith, same, row))

IsEarnedFrom-trans :
    (id : ℕ) (s t u : Store) → IsEarnedFrom id s t → IsEarnedFrom id t u → IsEarnedFrom id s u
IsEarnedFrom-trans id s t u h g k e row = elim (g k e row) [
  | inl there ↦ h k e there
  | inr new ↦ inr new
]

accrue_with-earns :
    (id : ℕ) (i : Invoice) (j : Job) (n : ℕ) (a : Assignment) (g : Guardian) (s : Store)
    → IsEarnedFrom id s (accrue_with id i j n a g s).1
unfolding accrue_with ◌>>=◌ insert_earning audit_log find
accrue_with-earns id i j n a g s k e row = grind (arith, pay_terms-quiet)

accrue_if_there-earns :
    (id : ℕ) (i : Invoice) (j : Job) (n : ℕ) (a : Assignment) (o : Option Guardian) (s : Store)
    → IsEarnedFrom id s (accrue_if_there id i j n a o s).1
unfolding pure
accrue_if_there-earns id i j n a none s = same-IsEarnedFrom id s s refl
accrue_if_there-earns id i j n a (some g) s = accrue_with-earns id i j n a g s

accrue_assignment-earns :
    (id : ℕ) (i : Invoice) (j : Job) (row : ℕ × Assignment) (s : Store)
    → IsEarnedFrom id s (accrue_assignment id i j row s).1
unfolding accrue_assignment
accrue_assignment-earns id i j (n, a) s =
    (Run-gets {P = λ r. IsEarnedFrom id s r.1} _ _ s (
      Run-gets _ _ s (
        Run-branch _ _ _ s (λ _. Run-pure _ s (same-IsEarnedFrom id s s refl))
          λ _. record {
            at = accrue_if_there-earns id i j n a (find a.guardian_id s.guardians) s;
          }))).at

accrue_each-earns :
    (id : ℕ) (i : Invoice) (j : Job) (t : Table Assignment) (s : Store)
    → IsEarnedFrom id s (accrue_each id i j t s).1
unfolding accrue_each ◌>>=◌
accrue_each-earns id i j [] s = same-IsEarnedFrom id s s refl
accrue_each-earns id i j (row ∷ t) s =
    by_result (accrue_each-earns id i j t) (accrue_assignment id i j row s)
      (accrue_assignment-earns id i j row s)
  where
    by_result :
        ((u : Store) → IsEarnedFrom id u (accrue_each id i j t u).1)
        → (r : Result (Unit {0}) × Store) → IsEarnedFrom id s r.1
        → IsEarnedFrom id s (continue (λ _. accrue_each id i j t) r).1
    by_result rest (ok a, u) g = IsEarnedFrom-trans id s u (accrue_each id i j t u).1 g (rest u)
    by_result rest (err e, u) g = g

accrue_if_job-earns :
    (id : ℕ) (i : Invoice) (rows : Table Assignment) (o : Option Job) (s : Store)
    → IsEarnedFrom id s (accrue_if_job id i rows o s).1
unfolding pure
accrue_if_job-earns id i rows none s = same-IsEarnedFrom id s s refl
accrue_if_job-earns id i rows (some j) s = accrue_each-earns id i j rows s

job_frame : (id : ℕ) (s : Store) → (find_job id s).1 ≡ s
unfolding find_job
job_frame id s = refl

accrue_for-earns :
    (id : ℕ) (o : Option Invoice) (s : Store) → IsEarnedFrom id s (accrue_for id o s).1
unfolding accrue_for pure
accrue_for-earns id none s = same-IsEarnedFrom id s s refl
accrue_for-earns id (some i) s =
    (Run-branch {P = λ r. IsEarnedFrom id s r.1} _ _ _ s
      (λ _. Run-pure _ s (same-IsEarnedFrom id s s refl))
      (λ _. Run-gets _ _ s (
        Run-quiet _ _ s (job_frame i.job_id s) (λ _. same-IsEarnedFrom id s s refl)
          λ o _. record { at = accrue_if_job-earns id i _ o s }))).at

accrual-earns : (id : ℕ) (s : Store) → IsEarnedFrom id s (accrue_for_paid_invoice id s).1
unfolding accrue_for_paid_invoice ◌>>=◌ find_invoice
accrual-earns id s = accrue_for-earns id (find id s.ledger.invoices) s

commit_payment-earnings :
    (id invoice : ℕ) (txn : Option String) (s : Store)
    → (commit_payment id invoice txn s).1.ledger.earnings ≡ s.ledger.earnings
unfolding commit_payment atomic ◌>>=◌ update_payment update_invoice
commit_payment-earnings id invoice txn s = ground arith

announce_payment-earnings :
    (id : ℕ) (o : Option Invoice) (s : Store)
    → (announce_payment id o s).1.ledger.earnings ≡ s.ledger.earnings
unfolding announce_payment ◌>>=◌ notify pure
announce_payment-earnings id none s = refl
announce_payment-earnings id (some i) s = refl

-- a payment of which the invoice is missing adds nothing
pub confirm_payment-lost :
    (id : ℕ) (txn : Option String) (s : Store) (p : Payment)
    → find id s.ledger.payments ≡ some p
    → find p.invoice_id s.ledger.invoices ≡ none
    → (confirm_payment id txn s).1.ledger.earnings ≡ s.ledger.earnings
unfolding confirm_payment commit_payment atomic ◌>>=◌ update_payment update_invoice
confirm_payment-lost id txn s p row gone = ground arith

pub confirm_payment-earns :
    (id : ℕ) (txn : Option String) (s : Store) (p : Payment)
    → find id s.ledger.payments ≡ some p
    → IsEarnedFrom p.invoice_id s (confirm_payment id txn s).1
unfolding confirm_payment ◌>>=◌ find_invoice audit_log
confirm_payment-earns id txn s p row k e there = grind (
  arith,
  accrual-earns p.invoice_id,
  commit_payment-earnings id p.invoice_id txn s,
  announce_payment-earnings id,
  there,
)
