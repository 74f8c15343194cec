-- ===== src/Billing/Service.antt =====
-- The service behind `Billing` (src/billing/billing.service.ts): what a draft writes is in the ledger,
-- the logs and the notices, so that the assignments and the jobs stay as they are.
use guardian_backend_service.Prelude.{ℕ, ◌≡◌, refl, Option, none, some, arith, ◌==◌}
use guardian_backend_service.Prelude.Table.{Table, find, find_where}
use guardian_backend_service.Prelude.Effect.{
  Result, ◌>>=◌, pure, some_or_throw, job_not_found, continue,
}
use guardian_backend_service.Prelude.Effect.Rules.{Run, Run-gets, Run-some, Run-quiet}
use guardian_backend_service.Data.{
  Store, Action, Assignment, Job, audit_log, enqueue_at, notify, find_job,
}
use guardian_backend_service.Data.Money.{Invoice}
use guardian_backend_service.Assignments.Completion.{Billing}
use guardian_backend_service.Payroll.Earnings.{completed_assignments}
use guardian_backend_service.Billing.Tables.{find_invoice_of, insert_invoice}
use guardian_backend_service.Billing.Drafts.{
  announce_draft, draft_from, new_draft, existing_or_new, create_draft_invoice_for_job,
  create_draft_invoice_for_job_id,
}
use guardian_backend_service.Billing.Steps.{resolve_price-quiet, resolve_billing_policy-quiet}

-- the assignments, the jobs and the earnings are as they were
abbrev pub SameWork : {A : Type 0} → Store → Result A × Store → Type 0
SameWork s r =
    (r.1.assignments ≡ s.assignments)
    × (r.1.jobs ≡ s.jobs)
    × (r.1.ledger.earnings ≡ s.ledger.earnings)

insert_draft-SameWork :
    (job actor : ℕ) (i : Invoice) (s : Store)
    → Run
        (SameWork s)
        (insert_invoice i >>= λ created.
          announce_draft job created.0 created.1 actor >>= λ _. pure created.0)
        s
unfolding ◌>>=◌ insert_invoice announce_draft audit_log enqueue_at notify
insert_draft-SameWork job actor i s = record { at = (refl, refl, refl) }

draft_from-SameWork :
    (job : ℕ) (j : Job) (actor : ℕ) (rows : Table Assignment) (primary : ℕ × Assignment) (s : Store)
    → Run (SameWork s) (draft_from job j actor rows primary) s
unfolding draft_from
draft_from-SameWork job j actor rows (id, a) s =
    Run-quiet _ _ s
      (resolve_price-quiet j.organization_id j.district_name j.job_type j.scheduled_start s)
      (λ _. (refl, refl, refl))
      λ price _. Run-gets _ _ s (
        Run-quiet _ _ s
          (resolve_billing_policy-quiet j.organization_id j.job_type j.scheduled_start s)
          (λ _. (refl, refl, refl))
          λ policy _.
            Run-quiet _ _ s refl (λ _. (refl, refl, refl))
              λ amounts _. insert_draft-SameWork job actor _ s)

new_draft-SameWork :
    (job : ℕ) (j : Job) (actor : ℕ) (s : Store) → SameWork s (new_draft job j actor s)
unfolding new_draft
new_draft-SameWork job j actor s =
    (Run-gets {P = SameWork s} _ _ s (
      Run-some _ _ _ s (refl, refl, refl)
        λ primary _. draft_from-SameWork job j actor (completed_assignments job s) primary s)).at

draft_for-SameWork :
    (job : ℕ) (j : Job) (actor : ℕ) (s : Store)
    → SameWork s (create_draft_invoice_for_job job j actor s)
unfolding create_draft_invoice_for_job ◌>>=◌ find_invoice_of
draft_for-SameWork job j actor s = by_row (find_where (λ i. i.job_id == job) s.ledger.invoices)
  where
    by_row : (o : Option (ℕ × Invoice)) → SameWork s (existing_or_new job j actor o s)
    by_row none = new_draft-SameWork job j actor s
    by_row (some row) = (refl, refl, refl)

pub draft-SameWork :
    (job actor : ℕ) (s : Store) → SameWork s (create_draft_invoice_for_job_id job actor s)
unfolding create_draft_invoice_for_job_id ◌>>=◌ find_job
draft-SameWork job actor s = by_job (find job s.jobs)
  where
    by_job :
        (o : Option Job)
        → SameWork s (
            continue
              (λ j. create_draft_invoice_for_job job j actor)
              (some_or_throw o job_not_found s))
    by_job none = (refl, refl, refl)
    by_job (some j) = draft_for-SameWork job j actor s

-- the id of the invoice is dropped
unfoldable pub create_draft : ℕ → ℕ → Action (Unit {0})
create_draft job actor = create_draft_invoice_for_job_id job actor >>= λ _. pure tt

pub create_draft-SameWork : (job actor : ℕ) (s : Store) → SameWork s (create_draft job actor s)
unfolding create_draft ◌>>=◌
create_draft-SameWork job actor s = ground (arith, draft-SameWork job actor s)

abbrev pub billing_service : Billing
billing_service = record {
  create_draft_invoice = create_draft;
  keeps_assignments = λ job user s. (create_draft-SameWork job user s).0;
  keeps_jobs = λ job user s. (create_draft-SameWork job user s).1;
}
