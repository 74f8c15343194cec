-- ===== src/Assignments/OnSite.antt =====
-- On the way and on site: `transition`, `enRoute` and `onSite` of AssignmentsService
-- (src/assignments/assignments.service.ts).
use guardian_backend_service.Prelude.{ℕ, none, some, ◌==◌, ◌===◌, ◌&&◌, not, is_some, String}
use guardian_backend_service.Prelude.Effect.{
  ◌>>=◌, ◌>>◌, pure, throw_if, some_or_throw, gets, branch, or_throw, assignment_not_found,
  unexpected_status, transition_refused,
}
use guardian_backend_service.Data.{
  AssignmentStatus, assignment_eq, en_route, on_site, accepted, JobStatus, job_eq, Assignment,
  Action, atomic, find_assignment, update_assignment, audit_log,
}
use guardian_backend_service.Jobs.Lifecycle.{transition_to_in_progress}
use guardian_backend_service.Assignments.Transitions.{assert_assignment_transition_allowed}
use guardian_backend_service.Assignments.Update.{update_optimistic}
use guardian_backend_service.Assignments.Offers.{own_assignment}
use guardian_backend_service.Assignments.Replacement.{execute_replacement_handoff}

-- the checks of `transition`, and the row that it read
unfoldable pub check_transition : ℕ → ℕ → AssignmentStatus → AssignmentStatus → Action Assignment
unfolding find_assignment assert_assignment_transition_allowed
check_transition id guardian from to = do
  a ← some_or_throw (← find_assignment id) assignment_not_found
  throw_if (not (a.guardian_id == guardian)) assignment_not_found
  throw_if (not (a.status === from)) unexpected_status
  or_throw (assert_assignment_transition_allowed from to) transition_refused
  pure a

unfoldable pub transition : ℕ → ℕ → AssignmentStatus → AssignmentStatus → String → Action Assignment
unfolding check_transition audit_log
transition id guardian from to audit_action = do
  a ← check_transition id guardian from to
  updated ← atomic (update_optimistic id a.version_number to)
  audit_log none audit_action id
  pure updated

unfoldable pub go_en_route : ℕ → ℕ → Action Assignment
unfolding transition
go_en_route id guardian = transition id guardian accepted en_route "EN_ROUTE"

unfoldable pub commit_on_site : ℕ → Assignment → Action Assignment
unfolding update_assignment
commit_on_site id a = atomic (do
  updated ← update_optimistic id a.version_number on_site
  now ← gets λ s. s.now
  arrived ← update_assignment id λ r. record r { arrived_at = some now }
  transition_to_in_progress a.job_id none
  pure updated)

-- a substitute hands over; any other guardian starts the job
unfoldable pub arrive_on_site : ℕ → ℕ → Action Assignment
unfolding own_assignment commit_on_site audit_log
arrive_on_site id guardian = do
  row ← own_assignment id guardian
  throw_if (not (row.0.status === en_route)) unexpected_status
  branch (is_some row.0.replaces_assignment_id && row.1.status === JobStatus.seeking_replacement)
      (execute_replacement_handoff id row.0 row.1)
      (do result ← commit_on_site id row.0; audit_log none "ON_SITE" id; pure result)
