-- ===== src/Assignments/Completion.antt =====
-- `complete` of AssignmentsService (src/assignments/assignments.service.ts). The draft invoice is
-- made by the billing service, which stands behind an interface here.
use guardian_backend_service.Prelude.{
  ℕ, ◌≡◌, Bool, false, Option, none, some, ◌===◌, ◌&&◌, ◌||◌, not,
}
use guardian_backend_service.Prelude.Effect.{
  ◌>>=◌, ◌>>◌, pure, throw_if, gets, when, remain_on_site, cannot_complete,
}
use guardian_backend_service.Data.{
  AssignmentStatus, assignment_eq, on_site, awaiting_relief, early_release_requested, JobStatus,
  job_eq, Assignment, Job, Store, Action, find_job, update_assignment,
}
use guardian_backend_service.Guardians.ShiftState.{set_available}
use guardian_backend_service.Jobs.Lifecycle.{complete_from_assignment}
use guardian_backend_service.Assignments.Transitions.{is_early_release_approved}
use guardian_backend_service.Assignments.Offers.{own_assignment}
use guardian_backend_service.Assignments.OnSite.{transition}

-- BillingService: `createDraftInvoiceForJobId(jobId, actorUserId)` writes an invoice, the outbox,
-- the audit log and notices, and leaves the assignments and the jobs alone.
pub record Billing : Type 0 where
  pub create_draft_invoice : ℕ → ℕ → Action (Unit {0})
  pub keeps_assignments :
      (job user : ℕ) (s : Store) → (create_draft_invoice job user s).1.assignments ≡ s.assignments
  pub keeps_jobs : (job user : ℕ) (s : Store) → (create_draft_invoice job user s).1.jobs ≡ s.jobs

abbrev pub can_complete : Assignment → Bool
can_complete a =
    a.status === on_site
    || (a.status === early_release_requested
        && is_early_release_approved a.early_release_resolution)

abbrev pub awaits_confirmation : Option Job → Bool
awaits_confirmation none = false
awaits_confirmation (some j) = j.status === JobStatus.awaiting_confirmation

-- the writes on the assignment
unfoldable pub finish_assignment : ℕ → ℕ → AssignmentStatus → Action Assignment
unfolding update_assignment
finish_assignment id guardian from = do
  result ← transition id guardian from AssignmentStatus.completed "ASSIGNMENT_COMPLETED"
  now ← gets λ s. s.now
  updated ← update_assignment id λ r. record r { completed_at = some now }
  pure result

unfoldable pub complete : Billing → ℕ → ℕ → ℕ → Action Assignment
unfolding own_assignment finish_assignment find_job
complete billing id guardian actor = do
  row ← own_assignment id guardian
  throw_if (row.0.status === awaiting_relief) remain_on_site
  throw_if (not (can_complete row.0)) cannot_complete
  result ← finish_assignment id guardian row.0.status
  complete_from_assignment result.job_id (some actor)
  job_after ← find_job result.job_id
  when (awaits_confirmation job_after) (billing.create_draft_invoice result.job_id actor)
  set_available guardian
  pure result
