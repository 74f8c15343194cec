-- ===== src/Assignments/EarlyRelease.antt =====
-- Early release: request, approval, rejection and automatic approval
-- (src/assignments/assignments.service.ts), and the scan that triggers the last
-- (src/assignments/early-release-automation.service.ts).
use guardian_backend_service.Prelude.{
  ℕ, ◌+◌, ◌*◌, Bool, false, Option, none, some, [], ◌∷◌, ◌==◌, ◌===◌, ◌&&◌, ◌||◌, not, is_some,
  or_else, leb, if◌then◌else◌, String,
}
use guardian_backend_service.Prelude.Table.{Table, select_where}
use guardian_backend_service.Prelude.Text.{with_note}
use guardian_backend_service.Prelude.Effect.{
  ok, ◌>>=◌, ◌>>◌, pure, throw_if, gets, branch, when, or_throw, replacement_workflow, not_on_site,
  replacement_pending, early_release_not_allowed, transition_refused, not_awaiting_early_release,
}
use guardian_backend_service.Data.{
  assignment_eq, on_site, early_release_requested, replacement_requested, awaiting_relief,
  EarlyReleaseResolution, Assignment, Job, AuthUser, Notice, Action, atomic, find_assignment,
  update_assignment, audit_log, notify,
}
use guardian_backend_service.Policies.{assert_org_member}
use guardian_backend_service.Assignments.Transitions.{assert_assignment_transition_allowed}
use guardian_backend_service.Assignments.Update.{update_optimistic}
use guardian_backend_service.Assignments.Offers.{own_assignment}
use guardian_backend_service.Assignments.Replacement.{any_assignment}

-- the resolution, when it was made, and when it will be made by itself
pub record ReleaseTerms : Type 0 where
  pub resolution : Option EarlyReleaseResolution
  pub resolved_at : Option ℕ
  pub auto_approve_at : Option ℕ

-- `if (minutes) { autoApproveAt = … }`: no minutes, or 0, set no time
abbrev pub auto_approval_time : ℕ → Option ℕ → Option ℕ
auto_approval_time now none = none
auto_approval_time now (some minutes) = if minutes == 0 then none else some (now + minutes * 60000)

unfoldable pub release_terms : ℕ → Job → ReleaseTerms
release_terms now j =
    if not (or_else j.billing_early_release_requires_client_approval false)
    then record {
      resolution = some EarlyReleaseResolution.auto_approved;
      resolved_at = some now;
      auto_approve_at = none;
    }
    else record {
      resolution = none;
      resolved_at = none;
      auto_approve_at = auto_approval_time now j.billing_auto_approve_after_minutes;
    }

-- the checks of `requestEarlyRelease`
unfoldable pub check_release_request : Assignment → Job → Action (Unit {0})
unfolding assert_assignment_transition_allowed
check_release_request a j = do
  throw_if (a.status === replacement_requested || a.status === awaiting_relief) replacement_workflow
  throw_if (not (a.status === on_site)) not_on_site
  throw_if (is_some a.replacement_requested_at && not (is_some a.replacement_resolution))
      replacement_pending
  throw_if (not (or_else j.billing_allow_early_release false)) early_release_not_allowed
  or_throw (assert_assignment_transition_allowed on_site early_release_requested) transition_refused

unfoldable pub commit_early_release : ℕ → String → ReleaseTerms → Assignment → Action Assignment
unfolding update_assignment
commit_early_release id reason terms a = atomic (do
  updated ← update_optimistic id a.version_number early_release_requested
  now ← gets λ s. s.now
  update_assignment id λ r. record r {
    early_release_requested_at = some now;
    early_release_reason = some reason;
    early_release_resolved_at = terms.resolved_at;
    early_release_resolution = terms.resolution;
    early_release_auto_approve_at = terms.auto_approve_at;
  })

unfoldable pub request_early_release : ℕ → ℕ → String → Action Assignment
unfolding own_assignment check_release_request release_terms commit_early_release audit_log notify
request_early_release id guardian reason = do
  row ← own_assignment id guardian
  check_release_request row.0 row.1
  now ← gets λ s. s.now
  result ← commit_early_release id reason (release_terms now row.1) row.0
  audit_log none "EARLY_RELEASE_REQUESTED" id
  when
      (or_else row.1.billing_early_release_requires_client_approval false
        && not (is_some (release_terms now row.1).resolution))
      (do
        notify
            (Notice.email_org_owners row.1.organization_id "ASSIGNMENT_EARLY_RELEASE_REQUESTED" id)
        notify (Notice.in_app_org_owners row.1.organization_id "Early release requested" id))
  pure result

-- `getAssignmentForClientAction`
unfoldable pub get_assignment_for_client_action : ℕ → AuthUser → Action (Assignment × Job)
unfolding any_assignment assert_org_member
get_assignment_for_client_action id actor = do
  row ← any_assignment id
  assert_org_member row.1.organization_id actor
  pure row

-- the columns that a resolution writes
abbrev pub resolve_release : EarlyReleaseResolution → ℕ → Assignment → Assignment
resolve_release r now a = record a {
  early_release_resolution = some r;
  early_release_resolved_at = some now;
  early_release_auto_approve_at = none;
}

unfoldable pub commit_approve_release : ℕ → EarlyReleaseResolution → Action Assignment
unfolding update_assignment
commit_approve_release id r = do now ← gets λ s. s.now; update_assignment id (resolve_release r now)

-- A release that is resolved already is answered with the row as it is.
unfoldable pub approve_release_of : ℕ → AuthUser → Assignment → Action Assignment
unfolding commit_approve_release audit_log notify
approve_release_of id actor a = do
  throw_if (not (a.status === early_release_requested)) not_awaiting_early_release
  branch (is_some a.early_release_resolution) (pure a) (do
    updated ← commit_approve_release id EarlyReleaseResolution.approved
    audit_log (some actor.sub) "EARLY_RELEASE_APPROVED" id
    notify (Notice.in_app_guardian a.guardian_id "Early release approved" id)
    pure updated)

unfoldable pub approve_early_release : ℕ → AuthUser → Action Assignment
unfolding get_assignment_for_client_action approve_release_of
approve_early_release id actor = do
  row ← get_assignment_for_client_action id actor
  approve_release_of id actor row.0

unfoldable pub commit_reject_release : ℕ → Option String → Assignment → Action Assignment
unfolding update_assignment
commit_reject_release id note a = atomic (do
  updated ← update_optimistic id a.version_number on_site
  now ← gets λ s. s.now
  update_assignment id λ r. record (resolve_release EarlyReleaseResolution.rejected now r) {
    early_release_reason = with_note " | rejected: " note a.early_release_reason;
  })

unfoldable pub reject_release_of : ℕ → AuthUser → Option String → Assignment → Action Assignment
unfolding commit_reject_release audit_log notify
reject_release_of id actor note a = do
  throw_if (not (a.status === early_release_requested)) not_awaiting_early_release
  result ← commit_reject_release id note a
  audit_log (some actor.sub) "EARLY_RELEASE_REJECTED" id
  notify (Notice.in_app_guardian a.guardian_id "Early release denied" id)
  pure result

unfoldable pub reject_early_release : ℕ → AuthUser → Option String → Action Assignment
unfolding get_assignment_for_client_action reject_release_of
reject_early_release id actor note = do
  row ← get_assignment_for_client_action id actor
  reject_release_of id actor note row.0

abbrev pub is_awaiting_release : Assignment → Bool
is_awaiting_release a =
    a.status === early_release_requested && not (is_some a.early_release_resolution)

abbrev pub awaits_release : Option Assignment → Bool
awaits_release none = false
awaits_release (some a) = is_awaiting_release a

unfoldable pub auto_approve_early_release : ℕ → Action (Unit {0})
unfolding find_assignment commit_approve_release audit_log notify
auto_approve_early_release id = do
  found ← find_assignment id
  when (awaits_release found) (do
    updated ← commit_approve_release id EarlyReleaseResolution.auto_approved
    audit_log none "EARLY_RELEASE_AUTO_APPROVED" id
    notify (Notice.in_app_guardian updated.guardian_id "Early release approved" id))

-- the candidates of `scanAndAutoApprove`
abbrev pub is_due : ℕ → Assignment → Bool
is_due now a =
    is_awaiting_release a
    && (elim a.early_release_auto_approve_at [ none ↦ false | some t ↦ leb t now ])

-- An error of one candidate is logged, and the scan goes on.
unfoldable pub approve_each : Table Assignment → Action (Unit {0})
approve_each [] s = (ok tt, s)
approve_each ((id, a) ∷ rest) s = approve_each rest (auto_approve_early_release id s).1

unfoldable pub scan_and_auto_approve : Action (Unit {0})
unfolding approve_each
scan_and_auto_approve s = approve_each (select_where (is_due s.now) s.assignments) s
