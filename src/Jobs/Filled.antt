-- ===== src/Jobs/Filled.antt =====
-- When an acceptance takes the last slot of a job (`applyAcceptStaffingUpdate` of
-- src/jobs/job-staffing.service.ts).
use guardian_backend_service.Prelude.{
  ℕ, ◌-◌, ◌<◌, ◌≡◌, ◌≢◌, ◌⊎◌, inl, inr, refl, true, false, Option, none, some, String, arith, ltb,
  or_else,
}
use guardian_backend_service.Prelude.Table.{find}
use guardian_backend_service.Prelude.Table.Laws.{count_where-modify_where_zero}
use guardian_backend_service.Prelude.Effect.{Result, ok, err, ◌>>=◌, continue, pure, slots_filled}
use guardian_backend_service.Data.{assignment_eq, JobStatus, job_eq, Assignment, Job, Store}
use guardian_backend_service.Jobs.History.{transition_job_status-outcome}
use guardian_backend_service.Jobs.Lifecycle.{
  transition_to_assigned, transition_to_partially_assigned, from_assigned, from_partially_assigned,
}
use guardian_backend_service.Jobs.Progress.{
  JobStaffingProgress, count_staffed, count_pending_offers, is_pending_of,
  compute_job_staffing_progress, build_staffing_progress,
}
use guardian_backend_service.Jobs.Staffing.{
  StaffingAcceptResult, cancel_excess_offers, cancel, apply_accept_staffing_update, fill_job,
  keep_filling,
}

cancelled_is_not_pending :
    (job : ℕ) (a : Assignment) → is_pending_of job a ≡ true → is_pending_of job (cancel a) ≡ false
cancelled_is_not_pending job a h = ground arith

cancel_excess-pending :
    (id : ℕ) (s : Store) → count_pending_offers id (cancel_excess_offers id s).1.assignments ≡ 0
unfolding cancel_excess_offers count_pending_offers
cancel_excess-pending id s =
    count_where-modify_where_zero (is_pending_of id) cancel s.assignments
      (cancelled_is_not_pending id)

cancel_excess-jobs : (id : ℕ) (s : Store) → (cancel_excess_offers id s).1.jobs ≡ s.jobs
unfolding cancel_excess_offers
cancel_excess-jobs id s = refl

abbrev pub status_in : Option Job → Option JobStatus
status_in none = none
status_in (some j) = some j.status

assigned_after :
    (id : ℕ) (by : Option ℕ) (s : Store)
    → (transition_to_assigned id by s).0 ≡ ok tt
    → status_in (find id (transition_to_assigned id by s).1.jobs) ≡ some JobStatus.assigned
unfolding transition_to_assigned
assigned_after id by s h =
    let (j, row, from, after) =
      (transition_job_status-outcome id JobStatus.assigned from_assigned by none s).1 h in
    ground (arith, after)

partially_after :
    (id : ℕ) (by : Option ℕ) (reason : Option String) (s : Store)
    → (transition_to_partially_assigned id by reason s).0 ≡ ok tt
    → status_in (find id (transition_to_partially_assigned id by reason s).1.jobs)
      ≡ some JobStatus.partially_assigned
unfolding transition_to_partially_assigned
partially_after id by reason s h =
    let (j, row, from, after) =
      (transition_job_status-outcome id JobStatus.partially_assigned from_partially_assigned by
          (some (or_else reason "guardian_accepted_partial")) s).1
        h in
    ground (arith, after)

module _ (id : ℕ) (by : Option ℕ) where
  fill_job-filled :
      (p : JobStaffingProgress) (s : Store) (r : StaffingAcceptResult)
      → (fill_job id by p s).0 ≡ ok r
      → (count_pending_offers id (fill_job id by p s).1.assignments ≡ 0)
        × (status_in (find id (fill_job id by p s).1.jobs) ≡ some JobStatus.assigned)
        × (r.should_continue_dispatch ≡ false)
  unfolding fill_job ◌>>=◌
  fill_job-filled p s r h = by_status (transition_to_assigned id by s) (assigned_after id by s) h
    where
      Filled : Result StaffingAcceptResult × Store → Type 0
      Filled q =
          q.0 ≡ ok r
          → (count_pending_offers id q.1.assignments ≡ 0)
            × (status_in (find id q.1.jobs) ≡ some JobStatus.assigned)
            × (r.should_continue_dispatch ≡ false)

      by_status :
          (q : Result (Unit {0}) × Store)
          → (q.0 ≡ ok tt → status_in (find id q.1.jobs) ≡ some JobStatus.assigned)
          → Filled (
              continue
                (λ _. cancel_excess_offers id >>= λ excess. pure (record {
                  progress = p;
                  excess_offers = excess;
                  should_continue_dispatch = false;
                }))
                q)
      by_status (ok u, t) f e =
          grind (arith, f refl, cancel_excess-pending id t, cancel_excess-jobs id t)
      by_status (err x, t) f e = cc

  keep_filling-partial :
      (p : JobStaffingProgress) (s : Store) (r : StaffingAcceptResult)
      → (keep_filling id by p s).0 ≡ ok r
      → (status_in (find id (keep_filling id by p s).1.jobs) ≡ some JobStatus.partially_assigned)
        × (r.should_continue_dispatch ≡ ltb p.pending_offer_count p.remaining_guardian_slots)
  unfolding keep_filling ◌>>=◌
  keep_filling-partial p s r h = grind (arith, partially_after id by none s)

  abbrev progress_at : Job → Store → JobStaffingProgress
  progress_at j s = compute_job_staffing_progress id j.requested_guardian_count s.assignments

  three_ways :
      (j : Job) (s : Store)
      → j.status ≢ JobStatus.seeking_replacement
      → (apply_accept_staffing_update id j by s ≡ (err slots_filled, s))
        ⊎ ((count_staffed id s.assignments ≡ j.requested_guardian_count)
            × (apply_accept_staffing_update id j by s ≡ fill_job id by (progress_at j s) s))
        ⊎ ((count_staffed id s.assignments < j.requested_guardian_count)
            × (apply_accept_staffing_update id j by s ≡ keep_filling id by (progress_at j s) s))
  unfolding apply_accept_staffing_update ◌>>=◌ compute_job_staffing_progress build_staffing_progress
  three_ways j s h = ground arith

  progress-counts :
      (j : Job) (s : Store)
      → ((progress_at j s).pending_offer_count ≡ count_pending_offers id s.assignments)
        × ((progress_at j s).remaining_guardian_slots
            ≡ j.requested_guardian_count - count_staffed id s.assignments)
  unfolding compute_job_staffing_progress build_staffing_progress
  progress-counts j s = (refl, refl)

  -- Staffing after an acceptance, for a job that is not in replacement, when it succeeds: with all
  -- slots taken the job is ASSIGNED, no offer for it is open and dispatch ends; with slots left the
  -- job is PARTIALLY_ASSIGNED and dispatch goes on exactly if the open offers are fewer than they.
  pub apply_accept-settles :
      (j : Job) (s : Store) (r : StaffingAcceptResult)
      → j.status ≢ JobStatus.seeking_replacement
      → (apply_accept_staffing_update id j by s).0 ≡ ok r
      → ((count_staffed id s.assignments ≡ j.requested_guardian_count)
          × (count_pending_offers id (apply_accept_staffing_update id j by s).1.assignments ≡ 0)
          × (status_in (find id (apply_accept_staffing_update id j by s).1.jobs)
              ≡ some JobStatus.assigned)
          × (r.should_continue_dispatch ≡ false))
        ⊎ ((count_staffed id s.assignments < j.requested_guardian_count)
            × (status_in (find id (apply_accept_staffing_update id j by s).1.jobs)
                ≡ some JobStatus.partially_assigned)
            × (r.should_continue_dispatch
                ≡ ltb
                    (count_pending_offers id s.assignments)
                    (j.requested_guardian_count - count_staffed id s.assignments)))
  apply_accept-settles j s r h e = elim (three_ways j s h) [
    | inl refused ↦ absurd (ground (arith, refused))
    | inr (inl (full, runs)) ↦
        let (none_open, status, ends) = fill_job-filled (progress_at j s) s r (rw runs at e) in
        inl (full, rw runs none_open, rw runs status, ends)
    | inr (inr (short, runs)) ↦
        let (status, goes_on) = keep_filling-partial (progress_at j s) s r (rw runs at e) in
        inr (short, rw runs status, ground (arith, goes_on, progress-counts j s))
  ]
