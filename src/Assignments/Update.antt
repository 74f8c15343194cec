-- ===== src/Assignments/Update.antt =====
-- The two conditional writes of an assignment: `updateOptimistic` of AssignmentsService, which
-- expects the version that the handler read, and `transitionOfferedAssignment`
-- (src/assignments/assignment-accept.util.ts), which expects the status OFFERED too.
use guardian_backend_service.Prelude.{ℕ, ◌+◌, Option, none, some, ◌==◌, ◌===◌, ◌&&◌, if◌then◌else◌}
use guardian_backend_service.Prelude.Table.{find, modify}
use guardian_backend_service.Prelude.Effect.{ok, err, modified_concurrently}
use guardian_backend_service.Data.{AssignmentStatus, assignment_eq, Assignment, PayPolicy, Action}

-- `{ status, versionNumber: { increment: 1 } }`
abbrev pub set_status : AssignmentStatus → Assignment → Assignment
set_status target a = record a { status = target; version_number = a.version_number + 1 }

-- All callers give a status only; the other columns of `data` are undefined, so unchanged.
unfoldable pub update_optimistic : ℕ → ℕ → AssignmentStatus → Action Assignment
update_optimistic id version target s = elim (find id s.assignments) [
  | none ↦ (err modified_concurrently, s)
  | some a ↦
      if a.version_number == version
      then (
        ok (set_status target a),
        record s { assignments = modify id (set_status target) s.assignments },
      )
      else (err modified_concurrently, s)
]

-- the columns that an acceptance writes
abbrev pub set_accepted : ℕ → PayPolicy → Option ℕ → Assignment → Assignment
set_accepted now policy rate a = record a {
  status = AssignmentStatus.accepted;
  accepted_at = some now;
  pay_policy_model = some policy.model;
  pay_minimum_hours = some policy.minimum_hours;
  pay_policy_resolved_at = some now;
  hourly_pay_rate_at_commit = rate;
  pay_apply_on_early_release = some policy.apply_on_early_release;
  version_number = a.version_number + 1;
}

-- `where: { id, versionNumber, status: OFFERED }`; the result is the number of rows written.
unfoldable pub transition_offered_assignment : ℕ → ℕ → (Assignment → Assignment) → Action ℕ
transition_offered_assignment id version data' s = elim (find id s.assignments) [
  | none ↦ (ok 0, s)
  | some a ↦
      if a.version_number == version && a.status === AssignmentStatus.offered
      then (ok 1, record s { assignments = modify id data' s.assignments })
      else (ok 0, s)
]
