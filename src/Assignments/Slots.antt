-- ===== src/Assignments/Slots.antt =====
-- An acceptance never fills more slots than the job has (`accept` of
-- src/assignments/assignments.service.ts with src/jobs/job-staffing.service.ts).
use guardian_backend_service.Prelude.{
  ℕ, ◌+◌, ◌≤◌, ◌<◌, ◌≡◌, ◌≢◌, ◌⊎◌, inl, inr, refl, true, Option, some, [], ◌∷◌, arith, ◌===◌, not,
  ltb, is_some,
}
use guardian_backend_service.Prelude.Table.{Table, find}
use guardian_backend_service.Prelude.Table.Laws.{
  count_where-modify, count_where-modify_where_same, bit,
}
use guardian_backend_service.Prelude.Effect.{
  Result, ok, ◌>>=◌, throw_if, gets, offer_not_active, offer_expired,
}
use guardian_backend_service.Prelude.Effect.Rules.{Run, Run-gets, Run-guard, Run-quiet}
use guardian_backend_service.Data.{
  AssignmentStatus, assignment_eq, JobStatus, job_eq, Assignment, Job, PayPolicy, Store, Action,
  atomic,
}
use guardian_backend_service.Payroll.PayPolicy.{resolve_pay_policy}
use guardian_backend_service.Jobs.Frame.{
  transition_job_status-frame, set_available-frame, keep_filling-frame,
}
use guardian_backend_service.Jobs.Lifecycle.{transition_to_assigned}
use guardian_backend_service.Jobs.Progress.{
  JobStaffingProgress, count_staffed, is_staffed_of, is_original_of, is_pending_of,
}
use guardian_backend_service.Jobs.Staffing.{
  StaffingAcceptResult, cancel_excess_offers, cancel, apply_accept_staffing_update, fill_job,
}
use guardian_backend_service.Assignments.Update.{transition_offered_assignment, set_accepted}
use guardian_backend_service.Assignments.Reads.{Joined, Run-own}
use guardian_backend_service.Assignments.Offers.{
  check_slots, commit_accept, accept_in_transaction, release_competing_offers, after_accept, accept,
}

at_most_trans : {a b c : ℕ} → a ≤ b → b ≤ c → a ≤ c
at_most_trans h g = omega arith

cancel_keeps_staffed :
    (k job : ℕ) (a : Assignment)
    → is_pending_of job a ≡ true
    → is_staffed_of k (cancel a) ≡ is_staffed_of k a
cancel_keeps_staffed k job a h = ground arith

module _ (k : ℕ) where
  staffed : Store → ℕ
  staffed s = count_staffed k s.assignments

  cancel_excess-staffed : (job : ℕ) (s : Store) → staffed (cancel_excess_offers job s).1 ≡ staffed s
  unfolding cancel_excess_offers count_staffed staffed
  cancel_excess-staffed job s =
      count_where-modify_where_same (is_staffed_of k) (is_pending_of job) cancel s.assignments
        (cancel_keeps_staffed k job)

  fill_job-staffed :
      (id : ℕ) (by : Option ℕ) (p : JobStaffingProgress) (s : Store)
      → staffed (fill_job id by p s).1 ≡ staffed s
  unfolding fill_job ◌>>=◌ transition_to_assigned staffed
  fill_job-staffed id by p s = grind (arith, transition_job_status-frame, cancel_excess-staffed)

  apply_accept-staffed :
      (id : ℕ) (j : Job) (by : Option ℕ) (s : Store)
      → staffed (apply_accept_staffing_update id j by s).1 ≡ staffed s
  unfolding apply_accept_staffing_update ◌>>=◌ staffed
  apply_accept-staffed id j by s = grind (arith, fill_job-staffed, keep_filling-frame)

  -- the slots that one acceptance may add
  abbrev added : Assignment → ℕ
  added a = bit (is_original_of k a)

  transition_offered-staffed :
      (id v now : ℕ) (policy : PayPolicy) (rate : Option ℕ) (s : Store) (a : Assignment)
      → find id s.assignments ≡ some a
      → staffed (transition_offered_assignment id v (set_accepted now policy rate) s).1
        ≤ staffed s + added a
  unfolding transition_offered_assignment count_staffed staffed
  transition_offered-staffed id v now policy rate s a row = ground (
    arith,
    count_where-modify (is_staffed_of k) id (set_accepted now policy rate) s.assignments a row,
  )

  resolve_pay_policy-quiet : (j e t : ℕ) (s : Store) → (resolve_pay_policy j e t s).1 ≡ s
  unfolding resolve_pay_policy ◌>>=◌
  resolve_pay_policy-quiet j e t s = ground arith

  commit_accept-staffed :
      (id guardian : ℕ) (a : Assignment) (j : Job) (s : Store)
      → find id s.assignments ≡ some a
      → staffed (commit_accept id guardian a j s).1 ≤ staffed s + added a
  unfolding commit_accept ◌>>=◌ staffed
  commit_accept-staffed id guardian a j s row =
      grind (arith, resolve_pay_policy-quiet, transition_offered-staffed, apply_accept-staffed)

release-frame :
    (t : Table Assignment) (s : Store)
    → (release_competing_offers t s).1.assignments ≡ s.assignments
unfolding release_competing_offers ◌>>=◌
release-frame [] s = refl
release-frame ((id, a) ∷ rest) s = grind (arith, set_available-frame, release-frame rest)

after_accept-frame :
    (id : ℕ) (a : Assignment) (r : StaffingAcceptResult) (s : Store)
    → (after_accept id a r s).1.assignments ≡ s.assignments
unfolding after_accept ◌>>=◌
after_accept-frame id a r s = grind (arith, release-frame)

check_slots-quiet :
    (id : ℕ) (j : Job) (s : Store)
    → ((check_slots id j s).1 ≡ s)
      × ((check_slots id j s).0 ≡ ok tt
          → (j.status ≡ JobStatus.seeking_replacement)
            ⊎ (count_staffed id s.assignments < j.requested_guardian_count))
unfolding check_slots ◌>>=◌
check_slots-quiet id j s = ground arith

-- what an acceptance leaves is what its transaction leaves, or the database as it was
accept-assignments :
    (id guardian : ℕ) (s : Store)
    → ((accept id guardian s).1.assignments ≡ s.assignments)
      ⊎ ((accept id guardian s).1.assignments ≡ (accept_in_transaction id guardian s).1.assignments)
unfolding accept atomic ◌>>=◌
accept-assignments id guardian s = grind (arith, after_accept-frame)

module _ (id guardian : ℕ) (s : Store) (a : Assignment) (j : Job) (joined : Joined id s a j) where
  -- an acceptance that the slots are checked for, or that takes none of them
  abbrev pub IsChecked : Type 0
  IsChecked = (j.status ≢ JobStatus.seeking_replacement) ⊎ (is_some a.replaces_assignment_id ≡ true)

  same_row : (b : Assignment) (k : Job) → Joined id s b k → b ≡ a
  same_row b k read = ground (arith, read.row, joined.row)

  same_job : (b : Assignment) (k : Job) → Joined id s b k → k ≡ j
  same_job b k read = ground (arith, same_row b k read, read.job, joined.job)

  room :
      (check_slots a.job_id j s).0 ≡ ok tt
      → IsChecked
      → count_staffed a.job_id s.assignments ≤ j.requested_guardian_count
      → count_staffed a.job_id s.assignments + added a.job_id a ≤ j.requested_guardian_count
  room passed checked within = ground (arith, (check_slots-quiet a.job_id j s).1 passed)

  abbrev Within : {A : Type 0} → Result A × Store → Type 0
  Within r = count_staffed a.job_id r.1.assignments ≤ j.requested_guardian_count

  module _ (checked : IsChecked)
      (within : count_staffed a.job_id s.assignments ≤ j.requested_guardian_count) where
    after_check :
        (check_slots a.job_id j s).0 ≡ ok tt → Run Within (commit_accept id guardian a j) s
    unfolding staffed
    after_check passed = record {
      at =
          at_most_trans (commit_accept-staffed a.job_id id guardian a j s joined.row)
            (room passed checked within);
    }

    abbrev rest_of : Assignment → Job → Action (Assignment × StaffingAcceptResult)
    rest_of b k = throw_if (not (b.status === AssignmentStatus.offered)) offer_not_active >>= λ _.
        gets (λ (t : Store). t.now) >>= λ now.
        throw_if (ltb b.expires_at now) offer_expired >>= λ _.
        check_slots b.job_id k >>= λ _. commit_accept id guardian b k

    after_read : Run Within (rest_of a j) s
    after_read = Run-guard _ _ _ s within λ _. Run-gets _ _ s (
        Run-guard _ _ _ s within λ _.
          Run-quiet _ _ s (check_slots-quiet a.job_id j s).0 (λ _. within)
            λ _ passed. after_check passed)

    after_any_read : (b : Assignment) (k : Job) → Joined id s b k → Run Within (rest_of b k) s
    after_any_read b k read = rw (same_row b k read, same_job b k read) after_read

    in_transaction : Within (accept_in_transaction id guardian s)
    unfolding accept_in_transaction
    in_transaction =
        (Run-own id guardian (λ row. rest_of row.0 row.1) s within
          λ b k owned. after_any_read b k owned.joined).at

    -- The rows of a job that fill a slot are no more than its slots after an acceptance, if they
    -- were no more before it, and if the job is not in replacement or the offer is one for a
    -- replacement.
    pub accept_within_slots :
        count_staffed a.job_id (accept id guardian s).1.assignments ≤ j.requested_guardian_count
    accept_within_slots = by_rows (accept-assignments id guardian s)
      where
        by_rows :
            ((accept id guardian s).1.assignments ≡ s.assignments)
              ⊎ ((accept id guardian s).1.assignments
                  ≡ (accept_in_transaction id guardian s).1.assignments)
            → count_staffed a.job_id (accept id guardian s).1.assignments
              ≤ j.requested_guardian_count
        by_rows (inl e) = rw e within
        by_rows (inr e) = rw e in_transaction
