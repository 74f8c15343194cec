-- ===== src/Billing/Edits/Accrual.antt =====
-- The accrual of earnings leaves the invoices alone
-- (src/guardian-payroll/guardian-payroll.service.ts).
use guardian_backend_service.Prelude.{ℕ, ◌≡◌, refl, Option, none, some, [], ◌∷◌, arith}
use guardian_backend_service.Prelude.Table.{Table, find}
use guardian_backend_service.Prelude.Effect.{◌>>=◌, pure}
use guardian_backend_service.Data.{Store, Assignment, Job, Guardian, find_job, audit_log}
use guardian_backend_service.Data.Money.{Invoice}
use guardian_backend_service.Payroll.PayPolicy.{resolve_pay_policy}
use guardian_backend_service.Payroll.Earnings.{
  pay_terms, insert_earning, accrue_with, accrue_if_there, accrue_if_job, accrue_assignment,
  accrue_each, accrue_for, accrue_for_paid_invoice,
}
use guardian_backend_service.Billing.Tables.{find_invoice}
use guardian_backend_service.Billing.Edits.{SameInvoices}

pub pay_terms-quiet :
    (j : Job) (a : Assignment) (g : Guardian) (s : Store) → (pay_terms j a g s).1 ≡ s
unfolding pay_terms resolve_pay_policy ◌>>=◌
pay_terms-quiet j a g s = ground arith

accrue_with-frame :
    (id : ℕ) (i : Invoice) (j : Job) (k : ℕ) (a : Assignment) (g : Guardian) (s : Store)
    → SameInvoices s (accrue_with id i j k a g s).1
unfolding accrue_with ◌>>=◌ insert_earning audit_log
accrue_with-frame id i j k a g s = grind (arith, pay_terms-quiet)

accrue_if_there-frame :
    (id : ℕ) (i : Invoice) (j : Job) (k : ℕ) (a : Assignment) (o : Option Guardian) (s : Store)
    → SameInvoices s (accrue_if_there id i j k a o s).1
unfolding pure
accrue_if_there-frame id i j k a none s = refl
accrue_if_there-frame id i j k a (some g) s = accrue_with-frame id i j k a g s

accrue_assignment-frame :
    (id : ℕ) (i : Invoice) (j : Job) (row : ℕ × Assignment) (s : Store)
    → SameInvoices s (accrue_assignment id i j row s).1
unfolding accrue_assignment ◌>>=◌
accrue_assignment-frame id i j (k, a) s = grind (arith, accrue_if_there-frame id i j k a)

accrue_each-frame :
    (id : ℕ) (i : Invoice) (j : Job) (t : Table Assignment) (s : Store)
    → SameInvoices s (accrue_each id i j t s).1
unfolding accrue_each ◌>>=◌
accrue_each-frame id i j [] s = refl
accrue_each-frame id i j (row ∷ t) s =
    grind (arith, accrue_assignment-frame id i j row, accrue_each-frame id i j t)

accrue_if_job-frame :
    (id : ℕ) (i : Invoice) (rows : Table Assignment) (o : Option Job) (s : Store)
    → SameInvoices s (accrue_if_job id i rows o s).1
unfolding pure
accrue_if_job-frame id i rows none s = refl
accrue_if_job-frame id i rows (some j) s = accrue_each-frame id i j rows s

accrue_for-frame : (id : ℕ) (o : Option Invoice) (s : Store) → SameInvoices s (accrue_for id o s).1
unfolding accrue_for ◌>>=◌ find_job
accrue_for-frame id none s = refl
accrue_for-frame id (some i) s = grind (arith, accrue_if_job-frame id i)

pub accrue_for_paid-frame : (id : ℕ) (s : Store) → SameInvoices s (accrue_for_paid_invoice id s).1
unfolding accrue_for_paid_invoice ◌>>=◌ find_invoice
accrue_for_paid-frame id s = accrue_for-frame id (find id s.ledger.invoices) s
