-- ===== src/Dispatching/Slots.antt =====
-- A round of dispatch never offers more slots than are open (`processParallelDispatch` of
-- src/dispatching/dispatching.service.ts with src/jobs/job-staffing.util.ts).
use guardian_backend_service.Prelude.{
  ℕ, zero, suc, ◌+◌, ◌≤◌, ◌≡◌, max, none, some, ◌≢◌, List, [], ◌∷◌, arith, length, take,
}
use guardian_backend_service.Prelude.Table.{count_where, find}
use guardian_backend_service.Prelude.Effect.{◌>>=◌}
use guardian_backend_service.Data.{Job, JobStatus, job_eq, Store, update_job, atomic, find_job}
use guardian_backend_service.Jobs.Progress.{
  count_staffed, count_pending_offers, compute_job_staffing_progress, build_staffing_progress,
}
use guardian_backend_service.Dispatching.Eligibility.{pick_parallel_reachable_guardians}
use guardian_backend_service.Dispatching.Offers.{insert_assignment, create_offer}
use guardian_backend_service.Dispatching.Rounds.{
  Round, create_offers, offer_to_each, parallel_round, finish_parallel, process_parallel_dispatch,
  dispatch_originals, process_job, process_dispatch,
}
use guardian_backend_service.Dispatching.Frame.{
  slots_taken, ensure_dispatch_schedule-frame, settle_full_job-frame, finalize_each-frame,
  report_no_candidates-frame, report_duplicate-frame, fail_job-slots,
  evaluate_terminal_failures-slots, handle_dispatch_failure-slots,
}

take_at_most : (n : ℕ) (xs : List ℕ) → length (take n xs) ≤ n
take_at_most zero xs = ground arith
take_at_most (suc n) [] = ground arith
take_at_most (suc n) (x ∷ xs) = ground (arith, take_at_most n xs)

module _ (job : ℕ) where
  create_offer-slots :
      (g : ℕ) (s : Store) → slots_taken job (create_offer job g none s).1 ≡ suc (slots_taken job s)
  unfolding create_offer ◌>>=◌ insert_assignment update_job count_staffed count_pending_offers
      count_where
  create_offer-slots g s = ground arith

  create_offers-slots :
      (gs : List ℕ) (s : Store)
      → slots_taken job (create_offers job gs s).1 ≤ slots_taken job s + length gs
  unfolding create_offers ◌>>=◌
  create_offers-slots [] s = ground arith
  create_offers-slots (g ∷ gs) s = grind (arith, create_offer-slots g s, create_offers-slots gs)

  parallel_round-slots :
      (j : Job) (s : Store)
      → slots_taken job (parallel_round job j s).1
        ≤ max j.requested_guardian_count (slots_taken job s)
  unfolding parallel_round offer_to_each ◌>>=◌ pick_parallel_reachable_guardians
      compute_job_staffing_progress build_staffing_progress
  parallel_round-slots j s = grind (arith, create_offers-slots, take_at_most)

  finish_parallel-slots :
      (round : Round) (s : Store)
      → slots_taken job (finish_parallel job round s).1 ≤ slots_taken job s
  unfolding finish_parallel ◌>>=◌
  finish_parallel-slots Round.nothing_to_do s = ground arith
  finish_parallel-slots (Round.no_candidates pick) s =
      grind (arith, report_no_candidates-frame, handle_dispatch_failure-slots)
  finish_parallel-slots (Round.duplicate_candidate pick) s =
      grind (arith, report_duplicate-frame, handle_dispatch_failure-slots)
  finish_parallel-slots (Round.offered created) s = grind (arith, finalize_each-frame)

  process_parallel-slots :
      (j : Job) (s : Store)
      → slots_taken job (process_parallel_dispatch job j s).1
        ≤ max j.requested_guardian_count (slots_taken job s)
  unfolding process_parallel_dispatch ◌>>=◌ atomic
  process_parallel-slots j s = grind (arith, parallel_round-slots, finish_parallel-slots)

  dispatch_originals-slots :
      (j : Job) (s : Store)
      → slots_taken job (dispatch_originals job j s).1
        ≤ max j.requested_guardian_count (slots_taken job s)
  unfolding dispatch_originals ◌>>=◌
  dispatch_originals-slots j s = grind (
    arith, ensure_dispatch_schedule-frame, evaluate_terminal_failures-slots, fail_job-slots,
    process_parallel-slots,
  )

  process_job-slots :
      (j : Job) (s : Store)
      → j.status ≢ JobStatus.seeking_replacement
      → slots_taken job (process_job job j s).1 ≤ max j.requested_guardian_count (slots_taken job s)
  unfolding process_job ◌>>=◌
  process_job-slots j s h = grind (arith, settle_full_job-frame, dispatch_originals-slots)

-- `processDispatch` of a job that is not in replacement never makes more slots filled or on offer
-- than the job asks for, or than there were before it.
pub process_dispatch_within_slots :
    (job : ℕ) (j : Job) (s : Store)
    → find job s.jobs ≡ some j
    → j.status ≢ JobStatus.seeking_replacement
    → slots_taken job (process_dispatch job s).1
      ≤ max j.requested_guardian_count (slots_taken job s)
unfolding process_dispatch ◌>>=◌ find_job
process_dispatch_within_slots job j s row h = grind (arith, process_job-slots job)
