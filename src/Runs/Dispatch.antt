-- ===== src/Runs/Dispatch.antt =====
-- Runs of a dispatch on the small database.
use guardian_backend_service.Prelude.{
  ℕ, ◌≤◌, ◌<◌, false, any_of, ◌≡◌, ◌≢◌, refl, max, true, some, [], ◌∷◌, arith, ◌||◌, includes,
  nat_eq, ◌/◌,
}
use guardian_backend_service.Prelude.Table.{find, modify, count_where}
use guardian_backend_service.Prelude.Effect.{ok, err, certification_required, ◌>>=◌}
use guardian_backend_service.Jobs.Progress.{
  count_staffed, count_pending_offers, compute_job_staffing_progress,
}
use guardian_backend_service.Data.{
  AssignmentStatus, assignment_eq, declined, job_eq, Assignment, Certification, Guardian, Store,
  dispatch_timeout,
}
use guardian_backend_service.Guardians.ShiftState.{assert_dispatch_eligible}
use guardian_backend_service.Assignments.Update.{update_optimistic, set_status}
use guardian_backend_service.Dispatching.Eligibility.{
  is_tried_on, is_active_original_on, pick_parallel_reachable_guardians,
  pick_next_reachable_guardian, is_eligible,
}
use guardian_backend_service.Dispatching.Release.{withdraw, is_offer_of, release_in_flight_offers}
use guardian_backend_service.Dispatching.Failures.{fail_job}
use guardian_backend_service.Dispatching.Rounds.{
  Round, parallel_round, process_dispatch, replacement_round,
}
use guardian_backend_service.Dispatching.Frame.{slots_taken}
use guardian_backend_service.Dispatching.Slots.{process_dispatch_within_slots}
use guardian_backend_service.Dispatching.Choice.{is_candidate, parallel_pick_is_fresh}
use guardian_backend_service.Dispatching.Failure.{
  HasFailed, fail_job-closes, stale_decline_accepted, with_row, refused_candidate_blocks,
}
use guardian_backend_service.Dispatching.Certificates.{expires_today, shift_or_dispatch}
use guardian_backend_service.Runs.Database.{night_job, offer_to, on_call, guard_terms, evening}

-- three guardians are on call and reachable; the first has an offer, the last declined one
abbrev staffed_evening : Store
staffed_evening = record evening {
  assignments =
      (1, offer_to 7) ∷ (3, record (offer_to 9) { status = AssignmentStatus.declined }) ∷ [];
  shift_states = (7, on_call) ∷ (8, on_call) ∷ (9, on_call) ∷ [];
  guardians = (7, guard_terms) ∷ (8, guard_terms) ∷ (9, guard_terms) ∷ [];
  present = 9 ∷ 8 ∷ 7 ∷ [];
}

-- of the three, one is asked: one has an offer, and one has declined
round_offers_one : slots_taken 50 (parallel_round 50 night_job staffed_evening).1 ≡ 2
unfolding parallel_round count_staffed count_pending_offers count_where ◌>>=◌ find modify
    compute_job_staffing_progress pick_parallel_reachable_guardians
round_offers_one = refl

process_dispatch_within_slots_example :
    slots_taken 50 (process_dispatch 50 staffed_evening).1
    ≤ max night_job.requested_guardian_count (slots_taken 50 staffed_evening)
unfolding find
process_dispatch_within_slots_example =
    process_dispatch_within_slots 50 night_job staffed_evening refl (ground arith)

parallel_pick_is_fresh_example :
    (is_candidate staffed_evening 12 8 ≡ true)
    × (includes staffed_evening.present 8 ≡ true)
    × ((id : ℕ) (a : Assignment)
        → find id staffed_evening.assignments ≡ some a
        → (is_tried_on 50 a || is_active_original_on 50 a) ≡ true
        → a.guardian_id ≢ 8)
unfolding pick_parallel_reachable_guardians find
parallel_pick_is_fresh_example = parallel_pick_is_fresh 12 50 3 staffed_evening 8 refl

fail_job-closes_example :
    (count_where
        (is_offer_of 50)
        (fail_job 50 night_job dispatch_timeout staffed_evening).1.assignments
      ≡ 0)
    × ((fail_job 50 night_job dispatch_timeout staffed_evening).0 ≡ ok tt
        → HasFailed 50 dispatch_timeout (fail_job 50 night_job dispatch_timeout staffed_evening).1)
fail_job-closes_example = fail_job-closes 50 night_job dispatch_timeout staffed_evening

stale_decline_accepted_example :
    (find 1 (release_in_flight_offers 50 staffed_evening).1.assignments
      ≡ some (withdraw (offer_to 7)))
    × ((update_optimistic 1 1 declined (release_in_flight_offers 50 staffed_evening).1).0
        ≡ ok (set_status declined (withdraw (offer_to 7))))
unfolding find
stale_decline_accepted_example = stale_decline_accepted 50 1 (offer_to 7) staffed_evening refl refl

-- a guardian of the job is to be replaced; the best candidate will decline the offer of it
abbrev leaving_evening : Store
leaving_evening = record staffed_evening {
  assignments = (1, record (offer_to 7) { status = AssignmentStatus.awaiting_relief }) ∷ [];
  guardians =
      (9, record guard_terms { reliability_score = 9900 })
      ∷ (8, guard_terms)
      ∷ (7, guard_terms)
      ∷ [];
}

abbrev refusal : Assignment
refusal = record (offer_to 9) {
  status = AssignmentStatus.declined;
  replaces_assignment_id = some 1;
}

refused_candidate_blocks_example :
    replacement_round 50 night_job (with_row refusal leaving_evening) ≡ (
      ok (
          Round.duplicate_candidate
            (pick_next_reachable_guardian 12 50 (with_row refusal leaving_evening))),
      with_row refusal leaving_evening,
    )
unfolding pick_next_reachable_guardian find
refused_candidate_blocks_example =
    refused_candidate_blocks 50 night_job leaving_evening refusal refl refl

-- The certificate ended an hour before, on the same day.
abbrev lapsed_certificate : Certification
lapsed_certificate = record { is_verified = true; expiry_date = some 196400000 }

abbrev lapsed : Guardian
lapsed = record guard_terms { certifications = lapsed_certificate ∷ [] }

abbrev late : Store
late = record staffed_evening { now = 200000000; guardians = (8, lapsed) ∷ [] }

shift_or_dispatch_example :
    (assert_dispatch_eligible 8 late ≡ (ok tt, late) → is_eligible late 12 (8, lapsed) ≡ true)
    × (is_eligible late 12 (8, lapsed) ≡ true
        → any_of (expires_today 200000000) (lapsed_certificate ∷ []) ≡ false
        → assert_dispatch_eligible 8 late ≡ (ok tt, late))
    × ((c : Certification) (d : ℕ)
        → lapsed.is_active ≡ true
        → lapsed.is_verified ≡ true
        → lapsed_certificate ∷ [] ≡ c ∷ []
        → c.is_verified ≡ true
        → c.expiry_date ≡ some d
        → d / 86400000 ≡ 200000000 / 86400000
        → d < 200000000
        → (is_eligible late 12 (8, lapsed) ≡ true)
          × (assert_dispatch_eligible 8 late ≡ (err certification_required, late)))
unfolding find
shift_or_dispatch_example = shift_or_dispatch 12 8 lapsed late refl refl refl
