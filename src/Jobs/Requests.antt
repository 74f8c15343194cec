-- ===== src/Jobs/Requests.antt =====
-- The requests to JobsService (src/jobs/jobs.service.ts) that change a job, and `completeJob` of
-- DispatchingService (src/dispatching/dispatching.service.ts).
use guardian_backend_service.Prelude.{ℕ, Bool, Option, none, some, String, ◌===◌, ◌||◌, not}
use guardian_backend_service.Prelude.Effect.{
  ◌>>=◌, ◌>>◌, branch, when, throw_if, some_or_throw, job_not_found, job_not_cancellable,
  job_not_confirmable,
}
use guardian_backend_service.Data.{
  JobStatus, job_eq, Job, AuthUser, Notice, Action, atomic, find_job, update_job, audit_log, notify,
}
use guardian_backend_service.Data.Money.{Invoice}
use guardian_backend_service.Policies.{is_ops, assert_job_access}
use guardian_backend_service.Policies.Setup.{assert_org_verified_for_mutations}
use guardian_backend_service.Jobs.Lifecycle.{record_status, confirm_billing}
use guardian_backend_service.Dispatching.Release.{
  release_replacement_pipeline, release_active_staffed_assignments,
}
use guardian_backend_service.Dispatching.Requests.{request_dispatch}
use guardian_backend_service.Billing.Invoices.{issue_draft_for_job_id}

abbrev pub set_cancelled : Job → Job
set_cancelled r = record r { status = JobStatus.cancelled }

-- the transaction of `cancel`
unfoldable pub commit_cancel : ℕ → Job → ℕ → Option String → Action (Unit {0})
unfolding update_job record_status
commit_cancel id j actor reason = atomic (do
  update_job id set_cancelled
  record_status (record {
    job_id = id;
    old_status = some j.status;
    new_status = JobStatus.cancelled;
    changed_by = some actor;
    reason = reason;
  }))

abbrev pub cannot_cancel : JobStatus → Bool
cannot_cancel status =
    status === JobStatus.completed
    || status === JobStatus.cancelled
    || status === JobStatus.awaiting_confirmation

-- what follows the checks
unfoldable pub release_and_cancel : ℕ → Job → ℕ → Option String → Action (Unit {0})
unfolding audit_log notify
release_and_cancel id j actor reason = do
  release_replacement_pipeline id
  release_active_staffed_assignments id
  commit_cancel id j actor reason
  audit_log (some actor) "JOB_CANCELLED" id
  notify (Notice.email_org_owners j.organization_id "JOB_CANCELLED" id)
  notify (Notice.in_app_org_owners j.organization_id "Job cancelled" id)

unfoldable pub cancel_job : ℕ → AuthUser → Option String → Action (Unit {0})
unfolding assert_job_access assert_org_verified_for_mutations release_and_cancel
cancel_job id actor reason = do
  job ← assert_job_access id actor
  when (not (is_ops actor)) (assert_org_verified_for_mutations job.organization_id)
  throw_if (cannot_cancel job.status) job_not_cancellable
  release_and_cancel id job actor.sub reason

unfoldable pub check_dispatch : ℕ → AuthUser → Action (Unit {0})
unfolding assert_job_access assert_org_verified_for_mutations
check_dispatch id actor = do
  job ← assert_job_access id actor
  assert_org_verified_for_mutations job.organization_id

-- a dispatch by the system has no actor
unfoldable pub dispatch_job : ℕ → Option AuthUser → Action (Unit {0})
unfolding check_dispatch request_dispatch
dispatch_job id none = request_dispatch id
dispatch_job id (some actor) = do
  when (not (is_ops actor)) (check_dispatch id actor)
  request_dispatch id

unfoldable pub confirm_and_issue : ℕ → ℕ → Job → Action Invoice
unfolding confirm_billing issue_draft_for_job_id
confirm_and_issue id actor j =
    branch (j.status === JobStatus.completed) (issue_draft_for_job_id id (some actor)) (do
      throw_if (not (j.status === JobStatus.awaiting_confirmation)) job_not_confirmable
      confirm_billing id (some actor)
      issue_draft_for_job_id id (some actor))

unfoldable pub complete_job : ℕ → ℕ → Action Invoice
unfolding find_job confirm_and_issue
complete_job id actor = do
  job ← some_or_throw (← find_job id) job_not_found
  confirm_and_issue id actor job
