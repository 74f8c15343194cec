-- ===== src/Dispatching/Failure.antt =====
-- What the failure of a dispatch leaves (`failJob` and `releaseInFlightOffersForJob` of
-- src/dispatching/dispatching.service.ts), and where a search for a substitute stops.
use guardian_backend_service.Prelude.{
  ℕ, ◌≡◌, refl, true, some, [], ◌∷◌, nat_eq, arith, Option-cases, inl, inr,
}
use guardian_backend_service.Prelude.Table.{
  Table, find, count_where, modify_where, select_where, insert, fresh_id,
}
use guardian_backend_service.Prelude.Table.Laws.{
  find-modify_where, find-modify_self, count_where-modify_where_zero,
}
use guardian_backend_service.Prelude.Effect.{ok, ◌>>=◌}
use guardian_backend_service.Data.{
  declined, assignment_eq, JobStatus, job_eq, Assignment, Job, DispatchFailureReason, Store, Action,
  atomic, update_job, write_dispatch_audit,
}
use guardian_backend_service.Jobs.Lifecycle.{record_status}
use guardian_backend_service.Assignments.Update.{update_optimistic, set_status}
use guardian_backend_service.Dispatching.Release.{withdraw, is_offer_of, release_in_flight_offers}
use guardian_backend_service.Dispatching.Failures.{commit_failure, fail_job}
use guardian_backend_service.Dispatching.Eligibility.{
  is_tried_on, pick_next_reachable_guardian, replacement_excluded_guardian_ids, is_eligible,
  list_eligible_guardian_ids, filter_reachable,
}
use guardian_backend_service.Dispatching.Rounds.{Round, offer_replacement, replacement_round}
use guardian_backend_service.Dispatching.Choice.{tried-guardian}
use guardian_backend_service.Dispatching.Frame.{release_in_flight-assignments}

no_offer_left :
    (job : ℕ) (t : Table Assignment)
    → count_where (is_offer_of job) (modify_where (is_offer_of job) withdraw t) ≡ 0
no_offer_left job t =
    count_where-modify_where_zero (is_offer_of job) withdraw t (λ a h. ground arith)

commit_failure-assignments :
    (id : ℕ) (j : Job) (reason : DispatchFailureReason) (s : Store)
    → (commit_failure id j reason s).1.assignments ≡ s.assignments
unfolding commit_failure ◌>>=◌ atomic update_job record_status
commit_failure-assignments id j reason s = ground arith

abbrev failed_for : DispatchFailureReason → Job → Job
failed_for reason r = record r { status = JobStatus.failed; dispatch_failure_reason = some reason }

-- the job with this id has failed for this reason
abbrev pub HasFailed : ℕ → DispatchFailureReason → Store → Type 0
HasFailed id reason s =
    (k : Job) × (find id s.jobs ≡ some k)
    × (k.status ≡ JobStatus.failed)
    × (k.dispatch_failure_reason ≡ some reason)

commit_failure-HasFailed :
    (id : ℕ) (j : Job) (reason : DispatchFailureReason) (s : Store)
    → (commit_failure id j reason s).0 ≡ ok tt
    → HasFailed id reason (commit_failure id j reason s).1
unfolding commit_failure ◌>>=◌ atomic update_job record_status
commit_failure-HasFailed id j reason s h = elim (Option-cases (find id s.jobs)) [
  | inl e ↦ ground arith
  | inr (k, e) ↦ (
    failed_for reason k,
    ground (arith, find-modify_self id (failed_for reason) s.jobs k e),
    refl,
    refl,
  )
]

-- what follows leaves the assignments as they are
then-assignments :
    (m : Action (Unit {0})) (k : Unit {0} → Action (Unit {0})) (s : Store)
    → ((t : Store) → (k tt t).1.assignments ≡ t.assignments)
    → ((m >>= k) s).1.assignments ≡ (m s).1.assignments
unfolding ◌>>=◌
then-assignments m k s h = ground (arith, h (m s).1)

after_release : ℕ → Job → DispatchFailureReason → Unit {0} → Action (Unit {0})
after_release id j reason _ =
    commit_failure id j reason >>= λ _. write_dispatch_audit id "job_failed"

after_release-assignments :
    (id : ℕ) (j : Job) (reason : DispatchFailureReason) (t : Store)
    → (after_release id j reason tt t).1.assignments ≡ t.assignments
unfolding after_release ◌>>=◌ write_dispatch_audit
after_release-assignments id j reason t = grind (arith, commit_failure-assignments)

-- `failJob` leaves no open offer of the job, whether or not it throws; when it does not, the job has
-- failed for the given reason.
pub fail_job-closes :
    (id : ℕ) (j : Job) (reason : DispatchFailureReason) (s : Store)
    → (count_where (is_offer_of id) (fail_job id j reason s).1.assignments ≡ 0)
      × ((fail_job id j reason s).0 ≡ ok tt → HasFailed id reason (fail_job id j reason s).1)
unfolding fail_job ◌>>=◌ write_dispatch_audit after_release
fail_job-closes id j reason s = (
  grind (
    arith,
    then-assignments (release_in_flight_offers id) (after_release id j reason) s
        (after_release-assignments id j reason),
    release_in_flight-assignments id s,
    no_offer_left id s.assignments,
  ),
  grind (arith, commit_failure-HasFailed id j reason),
)

-- An offer that is taken back keeps its version: a guardian who has read it before can still decline
-- it, and the commit moves the assignment from CANCELLED to DECLINED.
pub stale_decline_accepted :
    (job id : ℕ) (a : Assignment) (s : Store)
    → find id s.assignments ≡ some a
    → is_offer_of job a ≡ true
    → (find id (release_in_flight_offers job s).1.assignments ≡ some (withdraw a))
      × ((update_optimistic id a.version_number declined (release_in_flight_offers job s).1).0
          ≡ ok (set_status declined (withdraw a)))
unfolding update_optimistic
stale_decline_accepted job id a s row offered = ground (
  arith,
  release_in_flight-assignments job s,
  find-modify_where id (is_offer_of job) withdraw s.assignments,
)

-- A refused offer does not count among the exclusions of a replacement.
refused-excluded :
    (job : ℕ) (a : Assignment) (t : Table Assignment)
    → is_tried_on job a ≡ true
    → replacement_excluded_guardian_ids job (insert a t) ≡ replacement_excluded_guardian_ids job t
unfolding replacement_excluded_guardian_ids select_where
refused-excluded job a t tried = ground arith

find-inserted : (a : Assignment) (t : Table Assignment) → find (fresh_id t) (insert a t) ≡ some a
unfolding find
find-inserted a t = ground arith

-- the database with one more assignment
abbrev pub with_row : Assignment → Store → Store
with_row a s = record s { assignments = insert a s.assignments }

refused-pick :
    (district job : ℕ) (a : Assignment) (s : Store)
    → is_tried_on job a ≡ true
    → (pick_next_reachable_guardian district job (with_row a s)).chosen
      ≡ (pick_next_reachable_guardian district job s).chosen
unfolding pick_next_reachable_guardian list_eligible_guardian_ids filter_reachable is_eligible
refused-pick district job a s tried = rw (refused-excluded job a s.assignments tried) refl

-- A replacement that would be offered to a guardian stops once that guardian has refused it: when the
-- offer has been declined, has expired or was cancelled, and all else is as it was, the next round
-- chooses the same guardian, offers the job to nobody and writes nothing.
pub refused_candidate_blocks :
    (id : ℕ) (j : Job) (s : Store) (a : Assignment)
    → (pick_next_reachable_guardian j.district id s).chosen ≡ a.guardian_id ∷ []
    → is_tried_on id a ≡ true
    → replacement_round id j (with_row a s) ≡ (
      ok (Round.duplicate_candidate (pick_next_reachable_guardian j.district id (with_row a s))),
      with_row a s,
    )
unfolding replacement_round offer_replacement ◌>>=◌
refused_candidate_blocks id j s a first tried = grind (
  arith,
  tried-guardian id (insert a s.assignments) (fresh_id s.assignments) a
      (find-inserted a s.assignments) tried,
  refused-pick j.district id a s tried,
  first,
)
