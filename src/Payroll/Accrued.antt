-- ===== src/Payroll/Accrued.antt =====
-- An assignment is paid for once (`accrueForPaidInvoice` of
-- src/guardian-payroll/guardian-payroll.service.ts).
use guardian_backend_service.Prelude.{
  ℕ, suc, ◌≤◌, ◌≡◌, ◌⊎◌, refl, Bool, Option, none, some, [], ◌∷◌, arith, ◌==◌, Option-cases, inl,
  inr,
}
use guardian_backend_service.Prelude.Table.{Table, find, find_where, count_where}
use guardian_backend_service.Prelude.Effect.{Result, ok, err, ◌>>=◌, pure, continue}
use guardian_backend_service.Prelude.Effect.Rules.{Run-branch, Run-pure, Run-gets, Run-quiet}
use guardian_backend_service.Data.{Store, Assignment, Job, Guardian, find_job, audit_log}
use guardian_backend_service.Data.Money.{Invoice, Earning}
use guardian_backend_service.Billing.Tables.{find_invoice}
use guardian_backend_service.Billing.Edits.Accrual.{pay_terms-quiet}
use guardian_backend_service.Payroll.Earnings.{
  insert_earning, accrue_with, accrue_if_there, accrue_assignment, accrue_each, accrue_if_job,
  accrue_for, accrue_for_paid_invoice,
}

abbrev is_for : ℕ → Earning → Bool
is_for assignment e = e.assignment_id == assignment

-- the earnings of an assignment
unfoldable pub count_earnings : ℕ → Store → ℕ
count_earnings assignment s = count_where (is_for assignment) s.ledger.earnings

-- no assignment has two
abbrev pub IsPaidOnce : Store → Type 0
IsPaidOnce s = (assignment : ℕ) → count_earnings assignment s ≤ 1

none_counted :
    (k : ℕ) (t : Table Earning) → find_where (is_for k) t ≡ none → count_where (is_for k) t ≡ 0
unfolding find_where count_where
none_counted k [] h = refl
none_counted k ((id, e) ∷ t) h = ground (arith, none_counted k t)

fresh_count :
    (k : ℕ) (s : Store) → find_where (is_for k) s.ledger.earnings ≡ none → count_earnings k s ≡ 0
unfolding count_earnings
fresh_count k s h = none_counted k s.ledger.earnings h

job_frame : (id : ℕ) (s : Store) → (find_job id s).1 ≡ s
unfolding find_job
job_frame id s = refl

accrue_with-count :
    (id : ℕ) (i : Invoice) (j : Job) (k : ℕ) (a : Assignment) (g : Guardian) (s : Store) (n : ℕ)
    → (count_earnings n (accrue_with id i j k a g s).1 ≡ count_earnings n s)
      ⊎ ((n ≡ k) × (count_earnings n (accrue_with id i j k a g s).1 ≡ suc (count_earnings n s)))
unfolding accrue_with ◌>>=◌ insert_earning audit_log count_earnings count_where
accrue_with-count id i j k a g s n = grind (arith, pay_terms-quiet)

accrue_if_there-count :
    (id : ℕ) (i : Invoice) (j : Job) (k : ℕ) (a : Assignment) (o : Option Guardian) (s : Store)
    (n : ℕ)
    → count_earnings k s ≡ 0
    → count_earnings n s ≤ 1
    → count_earnings n (accrue_if_there id i j k a o s).1 ≤ 1
unfolding pure
accrue_if_there-count id i j k a none s n fresh h = h
accrue_if_there-count id i j k a (some g) s n fresh h =
    ground (arith, accrue_with-count id i j k a g s n, fresh)

accrue_assignment-IsPaidOnce :
    (id : ℕ) (i : Invoice) (j : Job) (row : ℕ × Assignment) (s : Store)
    → IsPaidOnce s
    → IsPaidOnce (accrue_assignment id i j row s).1
unfolding accrue_assignment ◌>>=◌
accrue_assignment-IsPaidOnce id i j (k, a) s h n =
    elim (Option-cases (find_where (is_for k) s.ledger.earnings)) [
      | inl e ↦ ground (
        arith,
        accrue_if_there-count id i j k a (find a.guardian_id s.guardians) s n (fresh_count k s e)
            (h n),
      )
      | inr (row, e) ↦ ground (arith, h n)
    ]

accrue_each-IsPaidOnce :
    (id : ℕ) (i : Invoice) (j : Job) (t : Table Assignment) (s : Store)
    → IsPaidOnce s
    → IsPaidOnce (accrue_each id i j t s).1
unfolding accrue_each ◌>>=◌
accrue_each-IsPaidOnce id i j [] s h = h
accrue_each-IsPaidOnce id i j (row ∷ t) s h =
    by_result (accrue_each-IsPaidOnce id i j t) (accrue_assignment id i j row s)
      (accrue_assignment-IsPaidOnce id i j row s h)
  where
    by_result :
        ((u : Store) → IsPaidOnce u → IsPaidOnce (accrue_each id i j t u).1)
        → (r : Result (Unit {0}) × Store) → IsPaidOnce r.1
        → IsPaidOnce (continue (λ _. accrue_each id i j t) r).1
    by_result rest (ok a, u) g = rest u g
    by_result rest (err e, u) g = g

accrue_if_job-IsPaidOnce :
    (id : ℕ) (i : Invoice) (rows : Table Assignment) (o : Option Job) (s : Store)
    → IsPaidOnce s
    → IsPaidOnce (accrue_if_job id i rows o s).1
unfolding pure
accrue_if_job-IsPaidOnce id i rows none s h = h
accrue_if_job-IsPaidOnce id i rows (some j) s h = accrue_each-IsPaidOnce id i j rows s h

accrue_for-IsPaidOnce :
    (id : ℕ) (o : Option Invoice) (s : Store) → IsPaidOnce s → IsPaidOnce (accrue_for id o s).1
unfolding accrue_for pure
accrue_for-IsPaidOnce id none s h = h
accrue_for-IsPaidOnce id (some i) s h =
    (Run-branch {P = λ r. IsPaidOnce r.1} _ _ _ s (λ _. Run-pure _ s h)
      (λ _. Run-gets _ _ s (
        Run-quiet _ _ s (job_frame i.job_id s) (λ _. h)
          λ o _. record { at = accrue_if_job-IsPaidOnce id i _ o s h }))).at

-- The accrual of the earnings of a paid invoice keeps that no assignment has two earnings.
pub accrual-IsPaidOnce :
    (id : ℕ) (s : Store) → IsPaidOnce s → IsPaidOnce (accrue_for_paid_invoice id s).1
unfolding accrue_for_paid_invoice ◌>>=◌ find_invoice
accrual-IsPaidOnce id s h = accrue_for-IsPaidOnce id (find id s.ledger.invoices) s h
