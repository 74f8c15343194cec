-- ===== src/Jobs/Lifecycle.antt =====
-- JobLifecycleService (src/jobs/job-lifecycle.service.ts): every change of a job's status goes
-- through `transition_job_status`, which checks where the job comes from and writes the history.
use guardian_backend_service.Prelude.{
  ℕ, ◌+◌, Bool, false, Option, none, some, List, [], ◌∷◌, String, ◌===◌, includes, ltb, not,
  or_else, is_some, ◌==◌, if◌then◌else◌,
}
use guardian_backend_service.Prelude.Table.{find_where}
use guardian_backend_service.Prelude.Effect.{
  ◌>>=◌, ◌>>◌, ok, pure, throw_if, some_or_throw, gets, branch, job_not_found,
  job_transition_refused, job_not_completable,
}
use guardian_backend_service.Data.{
  AssignmentStatus, assignment_eq, JobStatus, job_eq, Assignment, StatusChange, Action, atomic,
  find_job, update_job, enqueue, OutboxPayload,
}
use guardian_backend_service.Jobs.Progress.{count_active_staffed}

-- `tx.jobStatusHistory.create`
unfoldable pub record_status : StatusChange → Action (Unit {0})
record_status c s = (ok tt, record s { history = c ∷ s.history })

-- The writes of `transitionJobStatus`, once the transition is allowed.
unfoldable pub write_status :
    ℕ → JobStatus → JobStatus → Option ℕ → Option String → Action (Unit {0})
unfolding update_job record_status
write_status id old target by reason = do
  update_job id (λ j. record j { status = target })
  record_status (record {
    job_id = id;
    old_status = some old;
    new_status = target;
    changed_by = by;
    reason = reason;
  })

unfoldable pub transition_job_status :
    ℕ → JobStatus → List JobStatus → Option ℕ → Option String → Action (Unit {0})
unfolding find_job write_status
transition_job_status id target allowed_from by reason = do
  job ← some_or_throw (← find_job id) job_not_found
  branch (job.status === target) (pure tt) (do
    throw_if (not (includes allowed_from job.status)) job_transition_refused
    write_status id job.status target by reason)

abbrev pub from_partially_assigned : List JobStatus
from_partially_assigned =
    JobStatus.pending ∷ JobStatus.dispatching ∷ JobStatus.partially_assigned ∷ []

abbrev pub from_assigned : List JobStatus
from_assigned =
    JobStatus.pending ∷ JobStatus.dispatching ∷ JobStatus.partially_assigned ∷ JobStatus.assigned
    ∷ []

abbrev pub from_in_progress : List JobStatus
from_in_progress = JobStatus.assigned ∷ JobStatus.partially_assigned ∷ []

abbrev pub from_complete : List JobStatus
from_complete = JobStatus.in_progress ∷ JobStatus.assigned ∷ JobStatus.partially_assigned ∷ []

abbrev pub from_redispatch : List JobStatus
from_redispatch =
    JobStatus.assigned ∷ JobStatus.partially_assigned ∷ JobStatus.in_progress
    ∷ JobStatus.dispatching ∷ []

unfoldable pub transition_to_partially_assigned : ℕ → Option ℕ → Option String → Action (Unit {0})
transition_to_partially_assigned id by reason =
    transition_job_status id JobStatus.partially_assigned from_partially_assigned by
      (some (or_else reason "guardian_accepted_partial"))

unfoldable pub transition_to_assigned : ℕ → Option ℕ → Action (Unit {0})
transition_to_assigned id by = transition_job_status id JobStatus.assigned from_assigned by none

unfoldable pub transition_to_in_progress : ℕ → Option ℕ → Action (Unit {0})
transition_to_in_progress id by =
    transition_job_status id JobStatus.in_progress from_in_progress by none

unfoldable pub transition_to_seeking_replacement : ℕ → Option ℕ → Action (Unit {0})
transition_to_seeking_replacement id by =
    transition_job_status id JobStatus.seeking_replacement (JobStatus.in_progress ∷ []) by
      (some "replacement_approved")

unfoldable pub transition_from_seeking_replacement : ℕ → Option ℕ → Action (Unit {0})
transition_from_seeking_replacement id by =
    transition_job_status id JobStatus.in_progress (JobStatus.seeking_replacement ∷ []) by
      (some "replacement_handoff_completed")

unfoldable pub complete_from_assignment : ℕ → Option ℕ → Action (Unit {0})
complete_from_assignment id by = atomic (do
  active ← gets (λ s. count_active_staffed id s.assignments)
  branch (ltb 0 active) (pure tt) (
      transition_job_status id JobStatus.awaiting_confirmation from_complete by
        (some "all_guardians_assignment_completed")))

unfoldable pub confirm_billing : ℕ → Option ℕ → Action (Unit {0})
confirm_billing id by = atomic (
    transition_job_status id JobStatus.completed (JobStatus.awaiting_confirmation ∷ []) by
      (some "billing_confirmed"))

abbrev pub is_completed_of : ℕ → Assignment → Bool
is_completed_of id a = if a.job_id == id then a.status === AssignmentStatus.completed else false

unfoldable pub complete_explicit : ℕ → ℕ → Action (Unit {0})
unfolding find_job confirm_billing find_where
complete_explicit id by = do
  done ← gets (λ s. find_where (is_completed_of id) s.assignments)
  throw_if (not (is_some done)) job_not_completable
  job ← some_or_throw (← find_job id) job_not_found
  branch (job.status === JobStatus.completed) (pure tt) (
      branch (job.status === JobStatus.awaiting_confirmation) (confirm_billing id (some by))
        (atomic (transition_job_status id JobStatus.completed from_complete (some by) none)))

-- DISPATCH_WINDOW_MS, unless the environment gives another
abbrev pub dispatch_window_ms : ℕ
dispatch_window_ms = 600000

unfoldable pub redispatch_after_no_show : ℕ → Option ℕ → Option String → Action (Unit {0})
unfolding update_job enqueue
redispatch_after_no_show id by reason = do
  transition_job_status id JobStatus.dispatching from_redispatch by
      (some (or_else reason "assignment_no_show"))
  now ← gets (λ s. s.now)
  update_job id (λ j. record j {
    dispatch_deadline_at = some (now + dispatch_window_ms);
    dispatch_started_at = some now;
    dispatch_failure_reason = none;
    unreachable_since = none;
  })
  enqueue (OutboxPayload.dispatch_job id)
