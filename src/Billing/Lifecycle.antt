-- ===== src/Billing/Lifecycle.antt =====
-- What holds of an invoice under any sequence of requests (src/billing/billing.service.ts,
-- src/payments/payments.service.ts).
use guardian_backend_service.Prelude.{
  ℕ, zero, suc, ◌≡◌, ◌⊎◌, inl, inr, refl, true, false, some, arith, ◌==◌, Bool-cases,
}
use mathlib.Core.Path.{subst}
use mathlib.Core.Option.{some-injective}
use guardian_backend_service.Prelude.Table.{Table, find}
use guardian_backend_service.Prelude.Table.Laws.{find-modify, find-insert}
use guardian_backend_service.Data.{Store}
use guardian_backend_service.Data.Money.{Invoice, InvoiceStatus, invoice_eq, void}
use guardian_backend_service.Billing.Requests.{handle, Trace, done, request, elsewhere}
use guardian_backend_service.Billing.Edits.{
  Edit, viewed, issued, voided, disputed_by, cleared, settled, Step, Moves, unchanged, drafted,
  edited,
}
use guardian_backend_service.Billing.Steps.{most_steps, handle-Steps}

-- the later row of an invoice: whose it is and what it charges are as they were, and what is paid
-- stays paid, what is void stays so until it is paid
pub record Kept (a b : Invoice) : Type 0 where
  pub organization : b.organization_id ≡ a.organization_id
  pub job : b.job_id ≡ a.job_id
  pub amounts : (b.subtotal ≡ a.subtotal) × (b.tax_amount ≡ a.tax_amount) × (b.total ≡ a.total)
  pub paid : a.status ≡ InvoiceStatus.paid → b.status ≡ InvoiceStatus.paid
  pub void : a.status ≡ void → (b.status ≡ void) ⊎ (b.status ≡ InvoiceStatus.paid)

Kept-refl : (a : Invoice) → Kept a a
Kept-refl a = record {
  organization = refl;
  job = refl;
  amounts = (refl, refl, refl);
  paid = λ h. h;
  void = λ h. inl h;
}

Kept-trans : (a b c : Invoice) → Kept a b → Kept b c → Kept a c
Kept-trans a b c h g = record {
  organization = cc (h.organization, g.organization);
  job = cc (h.job, g.job);
  amounts = ground (arith, h.amounts, g.amounts);
  paid = λ e. g.paid (h.paid e);
  void = λ e. elim (h.void e) [ inl v ↦ g.void v | inr p ↦ inr (g.paid p) ];
}

-- a write to a row that is neither paid nor void
open-Kept :
    (a b : Invoice)
    → b.organization_id ≡ a.organization_id
    → b.job_id ≡ a.job_id
    → (b.subtotal ≡ a.subtotal) × (b.tax_amount ≡ a.tax_amount) × (b.total ≡ a.total)
    → (a.status ≡ InvoiceStatus.paid → ⊥)
    → (a.status ≡ void → ⊥)
    → Kept a b
open-Kept a b org job amounts not_paid not_void = record {
  organization = org;
  job = job;
  amounts = amounts;
  paid = λ e. absurd (not_paid e);
  void = λ e. absurd (not_void e);
}

Edit-Kept : (i : Invoice) (f : Invoice → Invoice) → Edit i f → Kept i (f i)
Edit-Kept i f (viewed h e) =
    rw e (open-Kept i _ refl refl (refl, refl, refl) (λ g. ground arith) (λ g. ground arith))
Edit-Kept i f (issued now h e) =
    rw e (open-Kept i _ refl refl (refl, refl, refl) (λ g. ground arith) (λ g. ground arith))
Edit-Kept i f (voided now actor reason replacement not_void not_paid e) =
    rw e (open-Kept i _ refl refl (refl, refl, refl) not_paid not_void)
Edit-Kept i f (disputed_by now actor reason h e) =
    rw e (open-Kept i _ refl refl (refl, refl, refl) (λ g. ground arith) (λ g. ground arith))
Edit-Kept i f (cleared now actor text h e) =
    rw e (open-Kept i _ refl refl (refl, refl, refl) (λ g. ground arith) (λ g. ground arith))
Edit-Kept i f (settled e) = rw e (record {
  organization = refl;
  job = refl;
  amounts = (refl, refl, refl);
  paid = λ _. refl;
  void = λ _. inr refl;
})

-- the row that stands for `a` in the table
abbrev pub IsKeptIn : ℕ → Invoice → Table Invoice → Type 0
IsKeptIn id a t = (b : Invoice) × (find id t ≡ some b) × Kept a b

Step-Kept :
    (t u : Table Invoice) (id : ℕ) (a : Invoice) → Step t u → find id t ≡ some a → IsKeptIn id a u
Step-Kept t u id a (unchanged e) row = (a, rw e row, Kept-refl a)
Step-Kept t u id a (drafted i h g e) row = (a, rw e (find-insert id i a t row), Kept-refl a)
Step-Kept t u id a (edited k i f there edit e) row = by_id (Bool-cases (k == id))
  where
    by_id : ((k == id) ≡ true) ⊎ ((k == id) ≡ false) → IsKeptIn id a u
    by_id (inl same) = (
      f a,
      ground (arith, e, find-modify id k f t, row),
      subst (λ (x : Invoice). Kept x (f x)) (some-injective i a (ground (arith, there, row)))
          (Edit-Kept i f edit),
    )
    by_id (inr other) = (a, ground (arith, e, find-modify id k f t, row), Kept-refl a)

pub Moves-Kept :
    (n : ℕ) (t u : Table Invoice) (id : ℕ) (a : Invoice)
    → Moves n t u
    → find id t ≡ some a
    → IsKeptIn id a u
Moves-Kept zero t u id a e row = (a, rw e row, Kept-refl a)
Moves-Kept (suc n) t u id a (m, h, rest) row =
    let (b, there, kept) = Step-Kept t m id a h row in
    let (c, then_there, then_kept) = Moves-Kept n m u id b rest there in
    (c, then_there, Kept-trans a b c kept then_kept)

-- Under any sequence of requests an invoice stays, with its job, its organization and its amounts; if
-- it was PAID it is PAID, and if it was VOID it is VOID or PAID.
pub Trace-Kept :
    {s t : Store}
    → Trace s t
    → (id : ℕ) (a : Invoice) → find id s.ledger.invoices ≡ some a
    → IsKeptIn id a t.ledger.invoices
Trace-Kept (done s) id a row = (a, row, Kept-refl a)
Trace-Kept (request {t = t} h r) id a row =
    let (b, there, kept) = Trace-Kept h id a row in
    let (c, then_there, then_kept) =
      Moves-Kept (most_steps r) t.ledger.invoices (handle r t).ledger.invoices id b
        (handle-Steps r t) there in
    (c, then_there, Kept-trans a b c kept then_kept)
Trace-Kept (elsewhere {t = t} h u e) id a row =
    let (b, there, kept) = Trace-Kept h id a row in (b, ground (arith, there, e), kept)
