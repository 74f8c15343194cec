-- ===== src/Jobs/Staffing.antt =====
-- JobStaffingService (src/jobs/job-staffing.service.ts) and the release of competing offers
-- (src/assignments/competing-offer-release.util.ts). The row locks (`FOR UPDATE`) change no state
-- and have no counterpart: a handler here runs alone.
use guardian_backend_service.Prelude.{
  ℕ, ◌+◌, Bool, false, Option, none, [], String, ◌===◌, ◌||◌, ◌&&◌, ltb, not,
}
use guardian_backend_service.Prelude.Table.{Table, modify_where, select_where}
use guardian_backend_service.Prelude.Effect.{
  ok, ◌>>=◌, ◌>>◌, pure, throw_if, gets, branch, when, slots_filled,
}
use guardian_backend_service.Data.{
  AssignmentStatus, assignment_eq, JobStatus, job_eq, Assignment, Job, Action, enqueue,
  OutboxPayload,
}
use guardian_backend_service.Jobs.Progress.{
  JobStaffingProgress, compute_job_staffing_progress, count_staffed, is_pending_of,
}
use guardian_backend_service.Jobs.Lifecycle.{
  transition_to_assigned, transition_to_partially_assigned, redispatch_after_no_show,
}

-- `{ status: CANCELLED, versionNumber: { increment: 1 } }`
abbrev pub cancel : Assignment → Assignment
cancel a = record a { status = AssignmentStatus.cancelled; version_number = a.version_number + 1 }

-- A competing offer is given by its id and its row before the cancellation.
unfoldable pub cancel_excess_offers : ℕ → Action (Table Assignment)
cancel_excess_offers job s = (
  ok (select_where (is_pending_of job) s.assignments),
  record s { assignments = modify_where (is_pending_of job) cancel s.assignments },
)

pub record StaffingAcceptResult : Type 0 where
  pub progress : JobStaffingProgress
  pub excess_offers : Table Assignment
  pub should_continue_dispatch : Bool

abbrev pub no_excess : JobStaffingProgress → Bool → StaffingAcceptResult
no_excess p more = record { progress = p; excess_offers = []; should_continue_dispatch = more }

abbrev pub progress_of : ℕ → ℕ → Action JobStaffingProgress
progress_of id requested = gets λ s. compute_job_staffing_progress id requested s.assignments

-- the branch of a job whose slots are all taken
unfoldable pub fill_job : ℕ → Option ℕ → JobStaffingProgress → Action StaffingAcceptResult
unfolding cancel_excess_offers
fill_job id by p = do
  transition_to_assigned id by
  excess ← cancel_excess_offers id
  pure (record { progress = p; excess_offers = excess; should_continue_dispatch = false })

-- the branch of a job with slots left
unfoldable pub keep_filling : ℕ → Option ℕ → JobStaffingProgress → Action StaffingAcceptResult
keep_filling id by p = do
  transition_to_partially_assigned id by none
  pure (no_excess p (ltb p.pending_offer_count p.remaining_guardian_slots))

-- `job` is the row that the caller read.
unfoldable pub apply_accept_staffing_update : ℕ → Job → Option ℕ → Action StaffingAcceptResult
apply_accept_staffing_update id job by =
    branch (job.status === JobStatus.seeking_replacement)
      (do p ← progress_of id job.requested_guardian_count; pure (no_excess p false))
      (do
        staffed ← gets λ s. count_staffed id s.assignments
        throw_if (ltb job.requested_guardian_count staffed) slots_filled
        p ← progress_of id job.requested_guardian_count
        branch p.is_fully_staffed (fill_job id by p) (keep_filling id by p))

-- the branches of a job that is not fully staffed
unfoldable pub refill : ℕ → Job → Option ℕ → Option String → Action (Unit {0})
unfolding enqueue
refill id job by reason =
    branch (job.status === JobStatus.in_progress) (enqueue (OutboxPayload.dispatch_refill id)) (
      branch (job.status === JobStatus.assigned || job.status === JobStatus.partially_assigned)
        (do
          when (not (job.status === JobStatus.partially_assigned))
              (transition_to_partially_assigned id by reason)
          enqueue (OutboxPayload.dispatch_refill id))
        (redispatch_after_no_show id by reason))

unfoldable pub apply_unfilled_slot_redispatch :
    ℕ → Job → Option ℕ → Option String → Action (Unit {0})
apply_unfilled_slot_redispatch id job by reason =
    branch (job.status === JobStatus.seeking_replacement) (pure tt) (do
      p ← progress_of id job.requested_guardian_count
      branch p.is_fully_staffed
          (when
            (not (job.status === JobStatus.assigned) && not (job.status === JobStatus.in_progress))
            (transition_to_assigned id by))
          (refill id job by reason))
