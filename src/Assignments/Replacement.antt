-- ===== src/Assignments/Replacement.antt =====
-- The replacement of a guardian on site: request, denial, approval and hand-over
-- (src/assignments/assignments.service.ts).
use guardian_backend_service.Prelude.{
  ℕ, ◌+◌, Bool, false, Option, none, some, ◌===◌, not, first_of_two, String,
}
use guardian_backend_service.Prelude.Table.{Table, select_where}
use guardian_backend_service.Prelude.Effect.{
  ◌>>=◌, ◌>>◌, pure, throw_if, some_or_throw, gets, or_throw, lift_result, assignment_not_found,
  not_on_site, replacement_in_progress, job_not_in_progress, transition_refused,
  not_awaiting_replacement, missing_departing, original_not_ready,
}
use guardian_backend_service.Prelude.Text.{with_note}
use guardian_backend_service.Data.{
  AssignmentStatus, assignment_eq, JobStatus, job_eq, ReplacementResolution, Assignment, Job,
  Notice, Action, atomic, find_with_job, find_assignment, update_assignment, update_job,
  update_shift, audit_log, notify,
}
use guardian_backend_service.Guardians.ShiftState.{made_available}
use guardian_backend_service.Dispatching.{request_replacement_dispatch}
use guardian_backend_service.Jobs.Lifecycle.{
  transition_to_seeking_replacement, transition_from_seeking_replacement,
}
use guardian_backend_service.Assignments.Transitions.{
  assert_assignment_transition_allowed, assert_seeking_replacement_state,
}
use guardian_backend_service.Assignments.Update.{update_optimistic}
use guardian_backend_service.Assignments.Offers.{own_assignment}

-- the assignment with its job, whoever the guardian is
unfoldable pub any_assignment : ℕ → Action (Assignment × Job)
unfolding find_with_job
any_assignment id = do some_or_throw (← find_with_job id) assignment_not_found

unfoldable pub commit_request_replacement : ℕ → String → Assignment → Action Assignment
unfolding update_assignment
commit_request_replacement id reason a = atomic (do
  updated ← update_optimistic id a.version_number AssignmentStatus.replacement_requested
  now ← gets λ s. s.now
  update_assignment id λ r. record r {
    replacement_requested_at = some now;
    replacement_reason = some reason;
    replacement_resolved_at = none;
    replacement_resolution = none;
    replacement_resolved_by_user_id = none;
  })

unfoldable pub request_replacement : ℕ → ℕ → String → Action Assignment
unfolding own_assignment commit_request_replacement audit_log notify
request_replacement id guardian reason = do
  row ← own_assignment id guardian
  throw_if (not (row.0.status === AssignmentStatus.on_site)) not_on_site
  throw_if (row.1.status === JobStatus.seeking_replacement) replacement_in_progress
  throw_if (not (row.1.status === JobStatus.in_progress)) job_not_in_progress
  or_throw
      (assert_assignment_transition_allowed AssignmentStatus.on_site
        AssignmentStatus.replacement_requested)
      transition_refused
  result ← commit_request_replacement id reason row.0
  audit_log none "REPLACEMENT_REQUESTED" id
  notify (Notice.email_ops_admins "ASSIGNMENT_REPLACEMENT_REQUESTED" id)
  notify (Notice.in_app_ops_admins "Replacement requested" id)
  pure result

-- the order by `replacementRequestedAt` is left out
unfoldable pub list_replacement_requests : Action (Table Assignment)
unfolding select_where
list_replacement_requests =
    gets λ s. select_where (λ a. a.status === AssignmentStatus.replacement_requested) s.assignments

unfoldable pub commit_deny_replacement : ℕ → ℕ → Option String → Assignment → Action Assignment
unfolding update_assignment
commit_deny_replacement id actor note a = atomic (do
  updated ← update_optimistic id a.version_number AssignmentStatus.on_site
  now ← gets λ s. s.now
  update_assignment id λ r. record r {
    replacement_resolution = some ReplacementResolution.denied;
    replacement_resolved_at = some now;
    replacement_resolved_by_user_id = some actor;
    replacement_reason = with_note " | denied: " note a.replacement_reason;
  })

unfoldable pub deny_replacement : ℕ → ℕ → Option String → Action Assignment
unfolding any_assignment commit_deny_replacement audit_log notify
deny_replacement id actor note = do
  row ← any_assignment id
  throw_if (not (row.0.status === AssignmentStatus.replacement_requested)) not_awaiting_replacement
  result ← commit_deny_replacement id actor note row.0
  audit_log (some actor) "REPLACEMENT_DENIED" id
  notify (Notice.in_app_guardian row.0.guardian_id "Replacement denied" id)
  pure result

unfoldable pub commit_approve_replacement : ℕ → ℕ → Assignment → Action (Unit {0})
unfolding update_assignment update_job
commit_approve_replacement id actor a = atomic (do
  updated ← update_optimistic id a.version_number AssignmentStatus.awaiting_relief
  now ← gets λ s. s.now
  resolved ← update_assignment id λ r. record r {
    replacement_resolution = some ReplacementResolution.approved;
    replacement_resolved_at = some now;
    replacement_resolved_by_user_id = some actor;
  }
  transition_to_seeking_replacement a.job_id (some actor)
  update_job a.job_id λ j. record j {
    replacement_departing_assignment_id = some id;
    dispatch_deadline_at = some (now + 600000);
    dispatch_started_at = some now;
    dispatch_failure_reason = none;
    unreachable_since = none;
  })

abbrev pub status_of : Option Assignment → Option AssignmentStatus
status_of none = none
status_of (some a) = some a.status

unfoldable pub approve_replacement : ℕ → ℕ → Action (Unit {0})
unfolding any_assignment audit_log notify find_assignment
approve_replacement id actor = do
  row ← any_assignment id
  throw_if (not (row.0.status === AssignmentStatus.replacement_requested)) not_awaiting_replacement
  throw_if (not (row.1.status === JobStatus.in_progress)) job_not_in_progress
  commit_approve_replacement id actor row.0
  audit_log (some actor) "REPLACEMENT_APPROVED" id
  approved ← find_assignment id
  lift_result (assert_seeking_replacement_state (status_of approved) none)
  request_replacement_dispatch row.0.job_id
  notify (Notice.in_app_guardian row.0.guardian_id "Replacement approved" id)

abbrev pub is_ready_for_handoff : Assignment → Bool
is_ready_for_handoff a = elim a.replacement_resolution [
  | some ReplacementResolution.approved ↦ a.status === AssignmentStatus.awaiting_relief
  | _ ↦ false
]

unfoldable pub commit_handoff : ℕ → ℕ → Assignment → Assignment → Action Assignment
unfolding update_assignment update_job update_shift
commit_handoff id original_id original substitute = atomic (do
  completed ← update_optimistic original_id original.version_number AssignmentStatus.completed
  now ← gets λ s. s.now
  departed ← update_assignment original_id λ r. record r { completed_at = some now }
  updated ← update_optimistic id substitute.version_number AssignmentStatus.on_site
  arrived ← update_assignment id λ r. record r { arrived_at = some now }
  transition_from_seeking_replacement substitute.job_id none
  update_job substitute.job_id
      λ j. record j { replacement_departing_assignment_id = none; dispatch_failure_reason = none }
  update_shift original.guardian_id made_available
  pure updated)

unfoldable pub execute_replacement_handoff : ℕ → Assignment → Job → Action Assignment
unfolding find_assignment commit_handoff audit_log notify
execute_replacement_handoff id substitute j = do
  original_id ←
      some_or_throw
        (first_of_two substitute.replaces_assignment_id j.replacement_departing_assignment_id)
        missing_departing
  original ← some_or_throw (← find_assignment original_id) original_not_ready
  throw_if (not (is_ready_for_handoff original)) original_not_ready
  lift_result (assert_seeking_replacement_state (some original.status) (some substitute.status))
  result ← commit_handoff id original_id original substitute
  audit_log none "REPLACEMENT_HANDOFF_COMPLETED" id
  notify (Notice.email_org_owners j.organization_id "ASSIGNMENT_REPLACEMENT_COMPLETED" id)
  notify (Notice.in_app_org_owners j.organization_id "Officer replaced" id)
  pure result
