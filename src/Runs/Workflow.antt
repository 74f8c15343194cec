-- ===== src/Runs/Workflow.antt =====
-- Requests to the assignments service (src/assignments/assignments.service.ts).
use guardian_backend_service.Prelude.{
  ℕ, ◌≢◌, ◌≤◌, ◌≡◌, inl, inr, refl, true, Option, some, [], ◌∷◌, arith, nat_eq,
}
use guardian_backend_service.Prelude.Table.{find, modify, count_where}
use guardian_backend_service.Prelude.Effect.{ok, err, ◌>>=◌, modified_concurrently}
use guardian_backend_service.Data.{
  AssignmentStatus, assignment_eq, JobStatus, job_eq, PayPolicyModel, Assignment, Store, find_job,
  find_with_job, find_assignment, update_assignment, update_job, update_shift, audit_log, enqueue,
  atomic, transaction, on_tx,
}
use guardian_backend_service.Jobs.Progress.{
  count_staffed, count_pending_offers, compute_job_staffing_progress, build_staffing_progress,
}
use guardian_backend_service.Jobs.Staffing.{apply_accept_staffing_update, keep_filling}
use guardian_backend_service.Jobs.Lifecycle.{
  transition_job_status, transition_to_partially_assigned, write_status, record_status,
}
use guardian_backend_service.Prelude.Priority.{
  first_by_priority, sort_by_priority, insert_by_priority,
}
use guardian_backend_service.Payroll.PayPolicy.{pick_pay_policy, resolve_pay_policy}
use guardian_backend_service.Assignments.Advance.{Follows}
use guardian_backend_service.Assignments.Update.{
  update_optimistic, set_status, transition_offered_assignment,
}
use guardian_backend_service.Assignments.Transitions.{
  assert_assignment_transition_allowed, allowed_transitions,
}
use guardian_backend_service.Assignments.Reads.{Joined}
use guardian_backend_service.Assignments.Offers.{
  accept, accept_in_transaction, own_assignment, check_slots, commit_accept, after_accept,
  release_competing_offers,
}
use guardian_backend_service.Assignments.OnSite.{go_en_route, transition, check_transition}
use guardian_backend_service.Assignments.Requests.{
  Request, handle, Trace, start, handled, Trace-Follows,
}
use guardian_backend_service.Assignments.Safety.{
  final_status_stays, stale_commit_refused, no_lost_update,
}
use guardian_backend_service.Assignments.Slots.{accept_within_slots}
use guardian_backend_service.Jobs.Lifecycle.{transition_from_seeking_replacement}
use guardian_backend_service.Assignments.Replacement.{commit_handoff}
use guardian_backend_service.Assignments.Handoff.{IsAllOrNothing, commit_handoff-IsAllOrNothing}
use guardian_backend_service.Runs.Database.{night_job, offer_to, evening}
use guardian_backend_service.Billing.Service.{billing_service}

two_requests : Trace billing_service evening (
    handle billing_service
      (Request.set_en_route 1 7)
      (handle billing_service (Request.accept_offer 1 7) evening))
two_requests = handled (handled start (Request.accept_offer 1 7) tt) (Request.set_en_route 1 7) tt

abbrev accepted_store : Store
accepted_store =
    handle billing_service (Request.set_en_route 1 7)
      (handle billing_service (Request.accept_offer 1 7) evening)

Trace-Follows_example : Follows evening accepted_store
Trace-Follows_example = Trace-Follows billing_service two_requests

refused : Assignment
refused = record (offer_to 9) { status = AssignmentStatus.declined }

final_status_stays_example :
    (b : Assignment) × (find 3 accepted_store.assignments ≡ some b)
    × (b.status ≡ AssignmentStatus.declined)
unfolding find refused
final_status_stays_example =
    final_status_stays billing_service evening accepted_store two_requests 3 refused refl
      (inr (inl refl))

on_the_way : Option Assignment
on_the_way = find 1 accepted_store.assignments

underway : Assignment
underway = record (offer_to 7) {
  status = AssignmentStatus.en_route;
  version_number = 3;
  accepted_at = some 1000;
  pay_policy_model = some PayPolicyModel.actual_time;
  pay_minimum_hours = some 400;
  pay_policy_resolved_at = some 1000;
  hourly_pay_rate_at_commit = some 1500;
  pay_apply_on_early_release = some true;
}

underway_is_read : find 1 accepted_store.assignments ≡ some underway
unfolding handle accept accept_in_transaction own_assignment check_slots commit_accept after_accept
    release_competing_offers go_en_route transition check_transition
    assert_assignment_transition_allowed allowed_transitions update_optimistic
    transition_offered_assignment resolve_pay_policy pick_pay_policy first_by_priority
    sort_by_priority insert_by_priority apply_accept_staffing_update keep_filling
    compute_job_staffing_progress build_staffing_progress count_staffed count_pending_offers
    count_where transition_to_partially_assigned transition_job_status write_status record_status
    find_job find_with_job find_assignment update_assignment update_job update_shift audit_log
    enqueue atomic transaction on_tx find modify ◌>>=◌ underway
underway_is_read = refl

stale_commit_refused_example :
    update_optimistic 1 1 AssignmentStatus.declined accepted_store
    ≡ (err modified_concurrently, accepted_store)
unfolding find underway
stale_commit_refused_example =
    stale_commit_refused billing_service evening accepted_store two_requests 1 (offer_to 7) underway
      AssignmentStatus.declined refl underway_is_read (λ e. ground arith)

no_lost_update_example :
    update_optimistic 1 1 AssignmentStatus.declined
      (update_optimistic 1 1 AssignmentStatus.accepted evening).1
    ≡ (err modified_concurrently, (update_optimistic 1 1 AssignmentStatus.accepted evening).1)
unfolding update_optimistic find
no_lost_update_example =
    no_lost_update 1 1 AssignmentStatus.accepted AssignmentStatus.declined evening
      (update_optimistic 1 1 AssignmentStatus.accepted evening).1
      (set_status AssignmentStatus.accepted (offer_to 7)) refl

offer_row : Joined 1 evening (offer_to 7) night_job
unfolding find
offer_row = record { row = refl; job = refl }

evening_has_room : count_staffed 50 evening.assignments ≤ 2
unfolding count_staffed count_where
evening_has_room = omega arith

accept_within_slots_example : count_staffed 50 (accept 1 7 evening).1.assignments ≤ 2
accept_within_slots_example =
    accept_within_slots 1 7 evening (offer_to 7) night_job offer_row (inl λ e. ground arith)
      evening_has_room

-- guardian 8 relieves guardian 7
abbrev relief : Store
relief = record evening {
  assignments =
      (1, record (offer_to 7) { status = AssignmentStatus.awaiting_relief; version_number = 4 })
      ∷ (
        2,
        record (offer_to 8) {
          status = AssignmentStatus.en_route;
          version_number = 3;
          replaces_assignment_id = some 1;
        },
      )
      ∷ [];
  jobs = (50, record night_job { status = JobStatus.seeking_replacement }) ∷ [];
}

abbrev departing : Assignment
departing = record (offer_to 7) { status = AssignmentStatus.awaiting_relief; version_number = 4 }

abbrev arriving : Assignment
arriving = record (offer_to 8) {
  status = AssignmentStatus.en_route;
  version_number = 3;
  replaces_assignment_id = some 1;
}

handoff_succeeds :
    (commit_handoff 2 1 departing arriving relief).0
    ≡ ok (set_status AssignmentStatus.on_site arriving)
unfolding commit_handoff update_optimistic update_assignment transition_from_seeking_replacement
    transition_job_status write_status record_status find_job update_job update_shift find modify
    atomic transaction on_tx ◌>>=◌
handoff_succeeds = refl

two_is_not_one : ◌≢◌ {A = ℕ} 2 1
two_is_not_one e = ground arith

commit_handoff-IsAllOrNothing_example :
    IsAllOrNothing 2 1 50 two_is_not_one relief (commit_handoff 2 1 departing arriving relief)
commit_handoff-IsAllOrNothing_example =
    commit_handoff-IsAllOrNothing 2 1 50 two_is_not_one departing arriving relief refl
