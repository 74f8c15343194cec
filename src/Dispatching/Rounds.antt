-- ===== src/Dispatching/Rounds.antt =====
-- A round of dispatch: `processDispatch` and `processParallelDispatch` of DispatchingService
-- (src/dispatching/dispatching.service.ts).
use guardian_backend_service.Prelude.{
  ℕ, ◌+◌, ◌-◌, min, Bool, none, List, [], ◌∷◌, ◌==◌, ◌===◌, ◌&&◌, ◌||◌, not, leb, includes, nat_eq,
  String, length,
}
use guardian_backend_service.Prelude.Table.{Table}
use guardian_backend_service.Prelude.Effect.{◌>>=◌, ◌>>◌, pure, gets, branch, when}
use guardian_backend_service.Data.{
  JobStatus, job_eq, Assignment, Job, dispatch_max_offers_exceeded, Action, atomic, find_job,
  audit_log, write_dispatch_audit,
}
use guardian_backend_service.Jobs.Lifecycle.{transition_to_assigned, dispatch_window_ms}
use guardian_backend_service.Jobs.Staffing.{progress_of}
use guardian_backend_service.Dispatching.{is_replacement_dispatch_paused}
use guardian_backend_service.Dispatching.Eligibility.{
  Pick, pick_next_reachable_guardian, pick_parallel_reachable_guardians, tried_guardian_ids,
}
use guardian_backend_service.Dispatching.Offers.{create_offer, finalize_each}
use guardian_backend_service.Dispatching.Failures.{
  ensure_dispatch_schedule, evaluate_terminal_failures, fail_job, update_unreachable_state,
  handle_dispatch_failure, handle_replacement_dispatch_failure,
  evaluate_replacement_dispatch_limits, for_job, or_now,
}

-- how the transaction of a round ends
pub data Round : Type 0 where
  nothing_to_do : Round
  no_candidates duplicate_candidate : Pick → Round
  offered : Table Assignment → Round

unfoldable pub create_offers : ℕ → List ℕ → Action (Table Assignment)
unfolding create_offer
create_offers job [] = pure []
create_offers job (g ∷ gs) = do
  created ← create_offer job g none
  rest ← create_offers job gs
  pure (created ∷ rest)

-- URGENT_PARALLEL_OFFERS, unless the environment gives another
abbrev pub urgent_parallel_offers : ℕ
urgent_parallel_offers = 3

-- MAX_OFFERS_PER_JOB, unless the environment gives another
abbrev pub max_offers_per_job : ℕ
max_offers_per_job = 20

unfoldable pub offer_to_each : ℕ → Pick → Action Round
unfolding create_offers
offer_to_each id pick =
    branch (length pick.chosen == 0) (pure (Round.no_candidates pick))
      (do created ← create_offers id pick.chosen; pure (Round.offered created))

-- the transaction of `processParallelDispatch`
unfoldable pub parallel_round : ℕ → Job → Action Round
unfolding offer_to_each
parallel_round id j = do
  p ← progress_of id j.requested_guardian_count
  branch p.is_fully_staffed (pure Round.nothing_to_do) (
      branch (p.remaining_guardian_slots - p.pending_offer_count == 0) (pure Round.nothing_to_do)
        (do
          pick ← gets (
              pick_parallel_reachable_guardians j.district id
                (min urgent_parallel_offers (p.remaining_guardian_slots - p.pending_offer_count)))
          offer_to_each id pick))

-- the log entries of an anomaly, and the mark that nobody is reachable
unfoldable pub report_anomaly : ℕ → Pick → String → String → Action (Unit {0})
unfolding audit_log write_dispatch_audit
report_anomaly id pick action metric = do
  audit_log none action id
  write_dispatch_audit id metric
  update_unreachable_state id (length pick.eligible_ids) (length pick.reachable_ids)

unfoldable pub report_no_candidates : ℕ → Pick → Action (Unit {0})
unfolding report_anomaly
report_no_candidates id pick =
    report_anomaly id pick "DISPATCH_NO_CANDIDATES_AFTER_EXCLUSION"
      "dispatch.no_candidates_after_exclusion"

unfoldable pub report_duplicate : ℕ → Pick → Action (Unit {0})
unfolding report_anomaly
report_duplicate id pick =
    report_anomaly id pick "DISPATCH_DUPLICATE_CANDIDATE_SELECTED"
      "dispatch.duplicate_candidate_selected"

unfoldable pub finish_parallel : ℕ → Round → Action (Unit {0})
unfolding finalize_each
finish_parallel id Round.nothing_to_do = pure tt
finish_parallel id (Round.no_candidates pick) = do
  report_no_candidates id pick
  handle_dispatch_failure id
finish_parallel id (Round.duplicate_candidate pick) = do
  report_duplicate id pick
  handle_dispatch_failure id
finish_parallel id (Round.offered created) = finalize_each id created

unfoldable pub process_parallel_dispatch : ℕ → Job → Action (Unit {0})
process_parallel_dispatch id j = do round ← atomic (parallel_round id j); finish_parallel id round

-- `wasGuardianPreviouslyTried` first, then the offer
unfoldable pub offer_replacement : ℕ → Job → Pick → List ℕ → Action Round
unfolding create_offer tried_guardian_ids
offer_replacement id j pick [] = pure (Round.no_candidates pick)
offer_replacement id j pick (g ∷ gs) = do
  tried ← gets λ s. tried_guardian_ids id s.assignments
  branch (includes tried g) (pure (Round.duplicate_candidate pick)) (do
    created ← create_offer id g j.replacement_departing_assignment_id
    pure (Round.offered (created ∷ [])))

unfoldable pub replacement_round : ℕ → Job → Action Round
unfolding offer_replacement
replacement_round id j = do
  pick ← gets (pick_next_reachable_guardian j.district id)
  offer_replacement id j pick pick.chosen

unfoldable pub finish_replacement : ℕ → Round → Action (Unit {0})
unfolding finalize_each
finish_replacement id Round.nothing_to_do = pure tt
finish_replacement id (Round.no_candidates pick) = do
  report_no_candidates id pick
  handle_replacement_dispatch_failure id
finish_replacement id (Round.duplicate_candidate pick) = do
  report_duplicate id pick
  handle_replacement_dispatch_failure id
finish_replacement id (Round.offered created) = finalize_each id created

unfoldable pub process_replacement_dispatch : ℕ → Job → Action (Unit {0})
process_replacement_dispatch id j = branch (is_replacement_dispatch_paused j) (pure tt) (do
  limited ← evaluate_replacement_dispatch_limits id j
  branch limited (pure tt)
      (do round ← atomic (replacement_round id j); finish_replacement id round))

abbrev pub is_over : JobStatus → Bool
is_over status =
    status === JobStatus.cancelled
    || status === JobStatus.completed
    || status === JobStatus.awaiting_confirmation
    || status === JobStatus.failed

abbrev pub takes_offers : JobStatus → Bool
takes_offers status =
    status === JobStatus.pending
    || status === JobStatus.dispatching
    || status === JobStatus.partially_assigned
    || status === JobStatus.assigned
    || status === JobStatus.in_progress

-- the job as it is used from here on: with a deadline
abbrev pub with_deadline : ℕ → Job → Job
with_deadline now j = record j {
  dispatch_deadline_at = or_now j.dispatch_deadline_at (now + dispatch_window_ms);
}

unfoldable pub dispatch_originals : ℕ → Job → Action (Unit {0})
unfolding ensure_dispatch_schedule process_parallel_dispatch
dispatch_originals id j = do
  ensure_dispatch_schedule id j
  now ← gets λ s. s.now
  failed ← evaluate_terminal_failures id (with_deadline now j)
  branch failed (pure tt) (
      branch (leb max_offers_per_job j.offers_sent_count)
        (fail_job id (with_deadline now j) dispatch_max_offers_exceeded)
        (process_parallel_dispatch id (with_deadline now j)))

unfoldable pub dispatch_substitute : ℕ → Job → Action (Unit {0})
unfolding ensure_dispatch_schedule process_replacement_dispatch
dispatch_substitute id j = do
  ensure_dispatch_schedule id j
  now ← gets λ s. s.now
  process_replacement_dispatch id (with_deadline now j)

unfoldable pub settle_full_job : ℕ → Job → Action (Unit {0})
settle_full_job id j =
    when (not (j.status === JobStatus.assigned) && not (j.status === JobStatus.in_progress))
      (atomic (transition_to_assigned id none))

unfoldable pub process_job : ℕ → Job → Action (Unit {0})
unfolding settle_full_job
process_job id j = branch (is_over j.status) (pure tt) (
    branch (j.status === JobStatus.seeking_replacement) (dispatch_substitute id j) (do
      p ← progress_of id j.requested_guardian_count
      branch p.is_fully_staffed (settle_full_job id j)
          (branch (not (takes_offers j.status)) (pure tt) (dispatch_originals id j))))

unfoldable pub process_dispatch : ℕ → Action (Unit {0})
unfolding find_job process_job
process_dispatch id = do row ← find_job id; for_job row (process_job id)
