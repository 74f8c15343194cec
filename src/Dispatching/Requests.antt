-- ===== src/Dispatching/Requests.antt =====
-- The requests to DispatchingService (src/dispatching/dispatching.service.ts) and the expiry of an
-- offer. `updateAssignmentOptimistic` there is `updateOptimistic` of the assignments service again.
use guardian_backend_service.Prelude.{
  ℕ, ◌+◌, Bool, true, false, Option, none, some, ◌===◌, ◌&&◌, ◌||◌, not, ltb,
}
use guardian_backend_service.Prelude.Effect.{
  ◌>>=◌, ◌>>◌, pure, throw_if, some_or_throw, gets, when, branch, job_not_found,
  job_not_dispatchable, not_seeking_replacement, no_departing, departing_not_awaiting_relief,
  offer_not_active,
}
use guardian_backend_service.Data.{
  AssignmentStatus, assignment_eq, JobStatus, job_eq, Assignment, Job, Notice, Action, atomic,
  transaction, on_tx, on_pool, find_job, find_assignment, find_with_job, update_job, audit_log,
  enqueue, write_dispatch_audit, notify, OutboxPayload,
}
use guardian_backend_service.Guardians.ShiftState.{set_available}
use guardian_backend_service.Jobs.Lifecycle.{write_status, dispatch_window_ms}
use guardian_backend_service.Assignments.Update.{update_optimistic}
use guardian_backend_service.Assignments.Offers.{own_assignment}
use guardian_backend_service.Dispatching.{
  is_replacement_dispatch_paused, request_replacement_dispatch,
}
use guardian_backend_service.Dispatching.Failures.{
  ensure_dispatch_schedule, is_searching, evaluate_terminal_failures, fail_if_dispatch_timed_out,
  fail_if_dispatch_pool_exhausted, for_job,
}

unfoldable pub request_dispatch : ℕ → Action (Unit {0})
unfolding find_job ensure_dispatch_schedule enqueue audit_log
request_dispatch id = do
  job ← some_or_throw (← find_job id) job_not_found
  throw_if (not (is_searching job.status)) job_not_dispatchable
  ensure_dispatch_schedule id job
  atomic (write_status id job.status JobStatus.dispatching none none)
  enqueue (OutboxPayload.dispatch_job id)
  audit_log none "JOB_DISPATCH_REQUESTED" id

abbrev pub is_awaiting_relief : Option Assignment → Bool
is_awaiting_relief none = false
is_awaiting_relief (some a) = a.status === AssignmentStatus.awaiting_relief

unfoldable pub resume_replacement_dispatch : ℕ → Option ℕ → Action (Unit {0})
unfolding find_job find_assignment update_job audit_log
resume_replacement_dispatch id actor = do
  job ← some_or_throw (← find_job id) job_not_found
  throw_if (not (job.status === JobStatus.seeking_replacement)) not_seeking_replacement
  departing_id ← some_or_throw job.replacement_departing_assignment_id no_departing
  departing ← find_assignment departing_id
  throw_if (not (is_awaiting_relief departing)) departing_not_awaiting_relief
  now ← gets λ s. s.now
  update_job id λ r. record r {
    dispatch_failure_reason = none;
    dispatch_deadline_at = some (now + dispatch_window_ms);
    dispatch_started_at = some now;
    unreachable_since = none;
  }
  audit_log actor "REPLACEMENT_DISPATCH_RESUMED" id
  request_replacement_dispatch id

-- The guardian is released by a statement on `this.prisma`, inside the transaction.
unfoldable pub close_offer : ℕ → Assignment → AssignmentStatus → Action (Unit {0})
close_offer id a target = transaction (do
  updated ← on_tx (update_optimistic id a.version_number target)
  on_pool (set_available a.guardian_id))

unfoldable pub reject_offer : ℕ → ℕ → Action (Unit {0})
unfolding own_assignment audit_log write_dispatch_audit enqueue
reject_offer id guardian = do
  row ← own_assignment id guardian
  throw_if (not (row.0.status === AssignmentStatus.offered)) offer_not_active
  close_offer id row.0 AssignmentStatus.declined
  audit_log none "OFFER_DECLINED" id
  write_dispatch_audit row.0.job_id "offer_declined"
  when
      (not (row.1.status === JobStatus.seeking_replacement)
        || not (is_replacement_dispatch_paused row.1))
      (enqueue (
        OutboxPayload.dispatch_replacement row.0.job_id
          (row.1.status === JobStatus.seeking_replacement)))

-- the search goes on after an offer has expired, unless it has failed or is paused
unfoldable pub search_on : ℕ → Job → Action (Unit {0})
unfolding enqueue
search_on id j =
    branch (j.status === JobStatus.seeking_replacement)
      (when (not (is_replacement_dispatch_paused j))
        (enqueue (OutboxPayload.dispatch_replacement id true)))
      (when (is_searching j.status) (do
        failed ← evaluate_terminal_failures id j
        when (not failed) (enqueue (OutboxPayload.dispatch_replacement id false))))

abbrev pub is_closed : JobStatus → Bool
is_closed status =
    status === JobStatus.cancelled
    || status === JobStatus.completed
    || status === JobStatus.awaiting_confirmation

-- an offer that is open, of a job that is not over, and whose time has come
abbrev pub is_expiring : ℕ → Assignment → Job → Bool
is_expiring now a j =
    a.status === AssignmentStatus.offered && not (is_closed j.status) && not (ltb now a.expires_at)

unfoldable pub expire_row : ℕ → Assignment → Job → Action (Unit {0})
unfolding notify find_job search_on
expire_row id a j = do
  now ← gets λ s. s.now
  when (is_expiring now a j) (do
    close_offer id a AssignmentStatus.expired
    notify (Notice.in_app_guardian a.guardian_id "Offer expired" id)
    row ← find_job a.job_id
    for_job row (search_on a.job_id))

abbrev pub for_row :
    Option (Assignment × Job) → (Assignment → Job → Action (Unit {0})) → Action (Unit {0})
for_row none k = pure tt
for_row (some (a, j)) k = k a j

unfoldable pub expire_offer : ℕ → Action (Unit {0})
unfolding find_with_job expire_row
expire_offer id = do row ← find_with_job id; for_row row (expire_row id)

abbrev pub check_job : Option Job → (Job → Action Bool) → Action Bool
check_job none k = pure false
check_job (some j) k = k j

unfoldable pub fail_dispatch_due_to_timeout : ℕ → Action Bool
unfolding find_job fail_if_dispatch_timed_out
fail_dispatch_due_to_timeout id = do
  row ← find_job id
  check_job row (fail_if_dispatch_timed_out id)

unfoldable pub fail_dispatch_pool_exhausted_if_applicable : ℕ → Action Bool
unfolding find_job fail_if_dispatch_pool_exhausted
fail_dispatch_pool_exhausted_if_applicable id = do
  row ← find_job id
  check_job row (fail_if_dispatch_pool_exhausted id)
