-- ===== src/Dispatching/Frame.antt =====
-- The parts of a dispatch that offer nothing (src/dispatching/dispatching.service.ts): they leave the
-- assignments alone, or withdraw offers.
use guardian_backend_service.Prelude.{ℕ, ◌+◌, ◌≤◌, ◌≡◌, refl, String, [], ◌∷◌, arith, Bool, false}
use guardian_backend_service.Prelude.Table.{Table, count_where, modify_where}
use guardian_backend_service.Prelude.Effect.{ok, ◌>>=◌}
use guardian_backend_service.Data.{
  Assignment, Job, Store, update_job, atomic, DispatchFailureReason, audit_log,
  write_dispatch_audit, notify, enqueue_at, find_job, assignment_eq,
}
use guardian_backend_service.Queue.{schedule_offer_expiry, cancel_offer_expiry}
use guardian_backend_service.Jobs.Lifecycle.{transition_to_assigned, record_status}
use guardian_backend_service.Jobs.Frame.{
  SameAssignments, transition_job_status-frame, set_available-frame,
}
use guardian_backend_service.Jobs.Progress.{
  count_staffed, count_pending_offers, is_staffed_of, is_pending_of,
}
use guardian_backend_service.Dispatching.Eligibility.{Pick}
use guardian_backend_service.Dispatching.Offers.{finalize_offer, finalize_each}
use guardian_backend_service.Dispatching.Release.{
  withdraw, is_offer_of, withdraw_where, cancel_expiries, free_guardians, release_in_flight_offers,
}
use guardian_backend_service.Dispatching.Failures.{
  ensure_dispatch_schedule, commit_failure, fail_job, fail_if_dispatch_timed_out,
  fail_if_dispatch_pool_exhausted, fail_if_unreachable_grace_exceeded, evaluate_terminal_failures,
  update_unreachable_state, retry_dispatch, handle_dispatch_failure,
}
use guardian_backend_service.Dispatching.Rounds.{
  report_anomaly, report_no_candidates, report_duplicate, settle_full_job,
}

-- the slots that are filled or on offer
abbrev pub slots_taken : ℕ → Store → ℕ
slots_taken job s = count_staffed job s.assignments + count_pending_offers job s.assignments

pub ensure_dispatch_schedule-frame :
    (id : ℕ) (j : Job) (s : Store) → SameAssignments s (ensure_dispatch_schedule id j s).1
unfolding ensure_dispatch_schedule ◌>>=◌ update_job
ensure_dispatch_schedule-frame id j s = ground arith

pub settle_full_job-frame :
    (id : ℕ) (j : Job) (s : Store) → SameAssignments s (settle_full_job id j s).1
unfolding settle_full_job ◌>>=◌ transition_to_assigned atomic
settle_full_job-frame id j s = grind (arith, transition_job_status-frame)

finalize_offer-frame :
    (id : ℕ) (a : ℕ × Assignment) (s : Store) → SameAssignments s (finalize_offer id a s).1
unfolding finalize_offer ◌>>=◌ schedule_offer_expiry audit_log write_dispatch_audit notify
finalize_offer-frame id (k, a) s = ground arith

pub finalize_each-frame :
    (id : ℕ) (t : Table Assignment) (s : Store) → SameAssignments s (finalize_each id t s).1
unfolding finalize_each ◌>>=◌
finalize_each-frame id [] s = refl
finalize_each-frame id (a ∷ rest) s =
    grind (arith, finalize_offer-frame id a s, finalize_each-frame id rest)

report_anomaly-frame :
    (id : ℕ) (pick : Pick) (action metric : String) (s : Store)
    → SameAssignments s (report_anomaly id pick action metric s).1
unfolding report_anomaly ◌>>=◌ audit_log write_dispatch_audit update_unreachable_state update_job
report_anomaly-frame id pick action metric s = ground arith

pub report_no_candidates-frame :
    (id : ℕ) (pick : Pick) (s : Store) → SameAssignments s (report_no_candidates id pick s).1
unfolding report_no_candidates
report_no_candidates-frame id pick s = report_anomaly-frame id pick _ _ s

pub report_duplicate-frame :
    (id : ℕ) (pick : Pick) (s : Store) → SameAssignments s (report_duplicate id pick s).1
unfolding report_duplicate
report_duplicate-frame id pick s = report_anomaly-frame id pick _ _ s

pub cancel_expiries-frame :
    (t : Table Assignment) (s : Store) → SameAssignments s (cancel_expiries t s).1
unfolding cancel_expiries ◌>>=◌ cancel_offer_expiry
cancel_expiries-frame [] s = refl
cancel_expiries-frame ((id, a) ∷ rest) s = grind (arith, cancel_expiries-frame rest)

pub free_guardians-frame :
    (t : Table Assignment) (s : Store) → SameAssignments s (free_guardians t s).1
unfolding free_guardians ◌>>=◌
free_guardians-frame [] s = refl
free_guardians-frame ((id, a) ∷ rest) s =
    grind (arith, set_available-frame, free_guardians-frame rest)

cancel_expiries-ok : (t : Table Assignment) (s : Store) → (cancel_expiries t s).0 ≡ ok tt
unfolding cancel_expiries ◌>>=◌ cancel_offer_expiry
cancel_expiries-ok [] s = refl
cancel_expiries-ok ((id, a) ∷ rest) s = grind (arith, cancel_expiries-ok rest)

-- What is left of the assignments, whether or not a guardian's shift is missing.
pub release_in_flight-assignments :
    (job : ℕ) (s : Store)
    → (release_in_flight_offers job s).1.assignments
      ≡ modify_where (is_offer_of job) withdraw s.assignments
unfolding release_in_flight_offers withdraw_where ◌>>=◌
release_in_flight-assignments job s =
    grind (arith, cancel_expiries-frame, cancel_expiries-ok, free_guardians-frame)

withdraw_fewer :
    (p : ℕ → Assignment → Bool) (job : ℕ) (t : Table Assignment)
    → ((a : Assignment) → p job (withdraw a) ≡ false)
    → count_where (p job) (modify_where (is_offer_of job) withdraw t) ≤ count_where (p job) t
unfolding count_where modify_where
withdraw_fewer p job [] h = ground arith
withdraw_fewer p job ((id, a) ∷ t) h = ground (arith, h a, withdraw_fewer p job t h)

pub release_in_flight-slots :
    (job : ℕ) (s : Store) → slots_taken job (release_in_flight_offers job s).1 ≤ slots_taken job s
unfolding count_staffed count_pending_offers
release_in_flight-slots job s = ground (
  arith,
  release_in_flight-assignments job s,
  withdraw_fewer is_staffed_of job s.assignments (λ a. ground arith),
  withdraw_fewer is_pending_of job s.assignments (λ a. ground arith),
)

pub fail_job-slots :
    (id : ℕ) (j : Job) (reason : DispatchFailureReason) (s : Store)
    → slots_taken id (fail_job id j reason s).1 ≤ slots_taken id s
unfolding fail_job commit_failure ◌>>=◌ atomic update_job record_status write_dispatch_audit
fail_job-slots id j reason s = grind (arith, release_in_flight-slots id)

pub evaluate_terminal_failures-slots :
    (id : ℕ) (j : Job) (s : Store)
    → slots_taken id (evaluate_terminal_failures id j s).1 ≤ slots_taken id s
unfolding evaluate_terminal_failures fail_if_dispatch_timed_out fail_if_dispatch_pool_exhausted
    fail_if_unreachable_grace_exceeded ◌>>=◌
evaluate_terminal_failures-slots id j s = grind (arith, fail_job-slots id j)

pub handle_dispatch_failure-slots :
    (id : ℕ) (s : Store) → slots_taken id (handle_dispatch_failure id s).1 ≤ slots_taken id s
unfolding handle_dispatch_failure retry_dispatch ◌>>=◌ find_job enqueue_at
handle_dispatch_failure-slots id s = grind (arith, evaluate_terminal_failures-slots id)
