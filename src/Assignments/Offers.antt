-- ===== src/Assignments/Offers.antt =====
-- The offer phase: `accept`, `decline` and `findForGuardian` of AssignmentsService
-- (src/assignments/assignments.service.ts).
use guardian_backend_service.Prelude.{
  ℕ, Bool, Option, none, [], ◌∷◌, ◌==◌, ◌===◌, ◌&&◌, ◌||◌, not, ltb, leb, includes,
}
use guardian_backend_service.Prelude.Table.{Table, find, find_where, select_where}
use guardian_backend_service.Prelude.Effect.{
  ◌>>=◌, ◌>>◌, pure, throw_if, some_or_throw, gets, when, assignment_not_found, offer_not_active,
  offer_expired, slots_filled, guardian_not_found, modified_concurrently, record_missing,
}
use guardian_backend_service.Data.{
  AssignmentStatus, assignment_eq, JobStatus, job_eq, Assignment, Job, Action, on_tx, on_pool,
  transaction, atomic, find_with_job, find_assignment, update_shift, audit_log, enqueue,
  OutboxPayload,
}
use guardian_backend_service.Guardians.ShiftState.{set_available, made_busy}
use guardian_backend_service.Payroll.PayPolicy.{resolve_pay_policy}
use guardian_backend_service.Queue.{cancel_offer_expiry}
use guardian_backend_service.Dispatching.{is_replacement_dispatch_paused}
use guardian_backend_service.Jobs.Progress.{count_staffed, active_staffed_statuses}
use guardian_backend_service.Jobs.Staffing.{StaffingAcceptResult, apply_accept_staffing_update}
use guardian_backend_service.Assignments.Update.{
  update_optimistic, transition_offered_assignment, set_accepted,
}

abbrev pub is_live_offer_of : ℕ → ℕ → Assignment → Bool
is_live_offer_of guardian now a =
    a.guardian_id == guardian && a.status === AssignmentStatus.offered && ltb now a.expires_at

abbrev pub is_active_for : ℕ → Assignment → Bool
is_active_for guardian a = a.guardian_id == guardian && includes active_staffed_statuses a.status

-- the live offers and the active assignment of a guardian; the order by `offerSentAt` is left out
unfoldable pub find_for_guardian : ℕ → Action (Table Assignment × Option (ℕ × Assignment))
unfolding select_where find_where
find_for_guardian guardian = gets λ s. (
  select_where (is_live_offer_of guardian s.now) s.assignments,
  find_where (is_active_for guardian) s.assignments,
)

-- `if (!assignment || assignment.guardianId !== guardianId) throw …`, with the job
unfoldable pub own_assignment : ℕ → ℕ → Action (Assignment × Job)
unfolding find_with_job
own_assignment id guardian = do
  row ← some_or_throw (← find_with_job id) assignment_not_found
  throw_if (not (row.0.guardian_id == guardian)) assignment_not_found
  pure row

-- A job that seeks a replacement has no slots to check.
unfoldable pub check_slots : ℕ → Job → Action (Unit {0})
check_slots id j = do
  staffed ← gets λ s. count_staffed id s.assignments
  throw_if
      (not (j.status === JobStatus.seeking_replacement) && leb j.requested_guardian_count staffed)
      slots_filled

-- the writes of an acceptance, from the pay policy on
unfoldable pub commit_accept : ℕ → ℕ → Assignment → Job → Action (Assignment × StaffingAcceptResult)
unfolding find_assignment update_shift
commit_accept id guardian a j = do
  terms ← some_or_throw (← gets λ s. find guardian s.guardians) guardian_not_found
  policy ← resolve_pay_policy j.job_type terms.employment_type j.scheduled_start
  now ← gets λ s. s.now
  updated_count ←
      transition_offered_assignment id a.version_number
        (set_accepted now policy terms.hourly_pay_rate)
  throw_if (updated_count == 0) modified_concurrently
  updated ← some_or_throw (← find_assignment id) record_missing
  update_shift guardian made_busy
  result ← apply_accept_staffing_update a.job_id j none
  pure (updated, result)

unfoldable pub accept_in_transaction : ℕ → ℕ → Action (Assignment × StaffingAcceptResult)
unfolding own_assignment check_slots
accept_in_transaction id guardian = do
  row ← own_assignment id guardian
  throw_if (not (row.0.status === AssignmentStatus.offered)) offer_not_active
  now ← gets λ s. s.now
  throw_if (ltb row.0.expires_at now) offer_expired
  check_slots row.0.job_id row.1
  commit_accept id guardian row.0 row.1

-- `releaseCompetingOffers` of src/assignments/competing-offer-release.util.ts
unfoldable pub release_competing_offers : Table Assignment → Action (Unit {0})
unfolding cancel_offer_expiry
release_competing_offers [] = pure tt
release_competing_offers ((id, a) ∷ rest) = do
  cancel_offer_expiry id
  set_available a.guardian_id
  release_competing_offers rest

-- what follows the transaction of an acceptance
unfoldable pub after_accept : ℕ → Assignment → StaffingAcceptResult → Action Assignment
unfolding audit_log enqueue release_competing_offers
after_accept id updated result = do
  release_competing_offers result.excess_offers
  when result.should_continue_dispatch (enqueue (OutboxPayload.dispatch_refill updated.job_id))
  audit_log none "OFFER_ACCEPTED" id
  pure updated

unfoldable pub accept : ℕ → ℕ → Action Assignment
accept id guardian = do
  done ← atomic (accept_in_transaction id guardian)
  after_accept id done.0 done.1

-- The guardian is released by a statement on `this.prisma`, inside the transaction.
unfoldable pub commit_decline : ℕ → ℕ → Assignment → Action (Unit {0})
commit_decline id guardian a = transaction (do
  updated ← on_tx (update_optimistic id a.version_number AssignmentStatus.declined)
  on_pool (set_available guardian))

unfoldable pub decline : ℕ → ℕ → Action (Unit {0})
unfolding own_assignment audit_log enqueue commit_decline
decline id guardian = do
  row ← own_assignment id guardian
  throw_if (not (row.0.status === AssignmentStatus.offered)) offer_not_active
  commit_decline id guardian row.0
  audit_log none "OFFER_DECLINED" id
  when
      (not (row.1.status === JobStatus.seeking_replacement)
        || not (is_replacement_dispatch_paused row.1))
      (enqueue (
        OutboxPayload.dispatch_replacement row.0.job_id
          (row.1.status === JobStatus.seeking_replacement)))
