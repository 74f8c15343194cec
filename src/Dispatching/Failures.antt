-- ===== src/Dispatching/Failures.antt =====
-- How a dispatch fails or pauses: the checks and handlers of failure of DispatchingService
-- (src/dispatching/dispatching.service.ts). A job that is passed on is the row that the caller read.
use guardian_backend_service.Prelude.{
  ℕ, ◌+◌, ◌*◌, ◌^◌, min, Bool, true, false, Option, none, some, [], ◌==◌, ◌===◌, ◌&&◌, ◌||◌, not,
  leb, ltb, includes, nat_eq, any_of, is_some, or_else, String, length, if◌then◌else◌,
}
use guardian_backend_service.Prelude.Table.{Table, modify, count_where}
use guardian_backend_service.Prelude.Effect.{ok, ◌>>=◌, ◌>>◌, pure, gets, branch, when}
use guardian_backend_service.Data.{
  JobStatus, job_eq, Assignment, Job, DispatchFailureReason, dispatch_timeout,
  dispatch_pool_exhausted, dispatch_unreachable_pool, replacement_dispatch_exhausted,
  replacement_dispatch_timeout, Notice, Store, Action, atomic, find_job, update_job, audit_log,
  enqueue_at, write_dispatch_audit, notify, OutboxPayload,
}
use guardian_backend_service.Jobs.Lifecycle.{dispatch_window_ms, record_status}
use guardian_backend_service.Dispatching.{is_replacement_dispatch_paused}
use guardian_backend_service.Dispatching.Eligibility.{
  count_eligible_guardians, list_eligible_guardian_ids, tried_guardian_ids, has_active_offer,
}
use guardian_backend_service.Dispatching.Release.{release_in_flight_offers}

-- a column that is null takes the value, another keeps its own
abbrev pub or_now : Option ℕ → ℕ → Option ℕ
or_now o t = some (or_else o t)

-- The two columns are written only where they are null; if neither is, nothing is.
unfoldable pub ensure_dispatch_schedule : ℕ → Job → Action (Unit {0})
unfolding update_job
ensure_dispatch_schedule id j = do
  now ← gets λ s. s.now
  when (not (is_some j.dispatch_deadline_at) || not (is_some j.dispatch_started_at)) (
      update_job id λ r. record r {
        dispatch_deadline_at =
            if is_some j.dispatch_deadline_at
            then r.dispatch_deadline_at
            else some (now + dispatch_window_ms);
        dispatch_started_at =
            if is_some j.dispatch_started_at then r.dispatch_started_at else some now;
      })

abbrev pub is_searching : JobStatus → Bool
is_searching status =
    status === JobStatus.pending
    || status === JobStatus.dispatching
    || status === JobStatus.partially_assigned

abbrev pub is_dispatch_timed_out : ℕ → Option ℕ → Bool
is_dispatch_timed_out now none = false
is_dispatch_timed_out now (some deadline) = leb deadline now

abbrev pub reason_text : DispatchFailureReason → String
reason_text dispatch_timeout = "dispatch_timeout"
reason_text dispatch_pool_exhausted = "dispatch_pool_exhausted"
reason_text DispatchFailureReason.dispatch_no_eligible_guardians = "dispatch_no_eligible_guardians"
reason_text dispatch_unreachable_pool = "dispatch_unreachable_pool"
reason_text DispatchFailureReason.dispatch_max_offers_exceeded = "dispatch_max_offers_exceeded"
reason_text replacement_dispatch_exhausted = "replacement_dispatch_exhausted"
reason_text replacement_dispatch_timeout = "replacement_dispatch_timeout"

-- the transaction of `failJob`
unfoldable pub commit_failure : ℕ → Job → DispatchFailureReason → Action (Unit {0})
unfolding update_job record_status
commit_failure id j reason = atomic (do
  update_job id λ r. record r { status = JobStatus.failed; dispatch_failure_reason = some reason }
  record_status (record {
    job_id = id;
    old_status = some j.status;
    new_status = JobStatus.failed;
    changed_by = none;
    reason = some (reason_text reason);
  }))

unfoldable pub fail_job : ℕ → Job → DispatchFailureReason → Action (Unit {0})
unfolding release_in_flight_offers commit_failure write_dispatch_audit
fail_job id j reason = do
  release_in_flight_offers id
  commit_failure id j reason
  write_dispatch_audit id "job_failed"

abbrev pub fail_with : ℕ → Job → DispatchFailureReason → Action Bool
fail_with id j reason = fail_job id j reason >>= λ _. pure true

unfoldable pub fail_if_dispatch_timed_out : ℕ → Job → Action Bool
fail_if_dispatch_timed_out id j = do
  now ← gets λ s. s.now
  branch (not (is_searching j.status)) (pure false) (
      branch (not (is_dispatch_timed_out now j.dispatch_deadline_at)) (pure false)
        (fail_with id j dispatch_timeout))

-- Every guardian who is eligible has been tried.
unfoldable pub is_pool_exhausted : ℕ → Job → Store → Bool
unfolding has_active_offer count_eligible_guardians list_eligible_guardian_ids tried_guardian_ids
is_pool_exhausted id j s =
    let count = count_eligible_guardians j.district s in
    let rows = list_eligible_guardian_ids j.district count [] s in
    not (has_active_offer id s.assignments)
    && not (count == 0)
    && not (length rows == 0)
    && not (any_of (λ g. not (includes (tried_guardian_ids id s.assignments) g)) rows)

unfoldable pub fail_if_dispatch_pool_exhausted : ℕ → Job → Action Bool
fail_if_dispatch_pool_exhausted id j = branch (not (is_searching j.status)) (pure false) (do
  exhausted ← gets (is_pool_exhausted id j)
  branch (not exhausted) (pure false) (fail_with id j dispatch_pool_exhausted))

-- DISPATCH_UNREACHABLE_GRACE_MS, unless the environment gives another
abbrev pub dispatch_unreachable_grace_ms : ℕ
dispatch_unreachable_grace_ms = 120000

abbrev pub is_grace_over : ℕ → Option ℕ → Bool
is_grace_over now none = false
is_grace_over now (some t) = leb (t + dispatch_unreachable_grace_ms) now

unfoldable pub fail_if_unreachable_grace_exceeded : ℕ → Job → Action Bool
fail_if_unreachable_grace_exceeded id j = do
  now ← gets λ s. s.now
  branch (not (is_searching j.status)) (pure false) (
      branch (not (is_grace_over now j.unreachable_since)) (pure false)
        (fail_with id j dispatch_unreachable_pool))

unfoldable pub evaluate_terminal_failures : ℕ → Job → Action Bool
evaluate_terminal_failures id j = do
  timed_out ← fail_if_dispatch_timed_out id j
  branch timed_out (pure true) (do
    exhausted ← fail_if_dispatch_pool_exhausted id j
    branch exhausted (pure true) (fail_if_unreachable_grace_exceeded id j))

-- `updateMany` on one id, which does not throw where there is no row
unfoldable pub update_jobs : ℕ → (Job → Job) → Action (Unit {0})
update_jobs id f s = (ok tt, record s { jobs = modify id f s.jobs })

-- The first write has `unreachableSince: null` in its condition.
unfoldable pub update_unreachable_state : ℕ → ℕ → ℕ → Action (Unit {0})
unfolding update_job update_jobs
update_unreachable_state id eligible reachable = do
  now ← gets λ s. s.now
  branch (ltb 0 eligible && reachable == 0)
      (update_jobs id λ r. record r { unreachable_since = or_now r.unreachable_since now })
      (when (ltb 0 reachable) (update_job id λ r. record r { unreachable_since = none }))

-- `Math.min(baseMs * 2 ** offersSentCount, maxMs)`
abbrev pub retry_delay : ℕ → ℕ → ℕ → ℕ
retry_delay base limit offers = min (base * 2 ^ offers) limit

unfoldable pub retry_dispatch : ℕ → Job → Action (Unit {0})
unfolding enqueue_at
retry_dispatch id j = do
  failed ← evaluate_terminal_failures id j
  now ← gets λ s. s.now
  branch failed (pure tt) (
      enqueue_at (now + retry_delay 2000 30000 j.offers_sent_count) (OutboxPayload.dispatch_job id))

abbrev pub for_job : Option Job → (Job → Action (Unit {0})) → Action (Unit {0})
for_job none k = pure tt
for_job (some j) k = k j

unfoldable pub handle_dispatch_failure : ℕ → Action (Unit {0})
unfolding find_job retry_dispatch
handle_dispatch_failure id = do row ← find_job id; for_job row (retry_dispatch id)

unfoldable pub pause_replacement_dispatch : ℕ → DispatchFailureReason → Action (Unit {0})
unfolding find_job update_job audit_log notify
pause_replacement_dispatch id reason = do
  row ← find_job id
  for_job row λ j. branch (is_replacement_dispatch_paused j) (pure tt) (do
    update_job id λ r. record r { dispatch_failure_reason = some reason }
    audit_log none "REPLACEMENT_DISPATCH_PAUSED" id
    notify (Notice.email_ops_admins "ASSIGNMENT_REPLACEMENT_DISPATCH_PAUSED" id)
    notify (Notice.in_app_ops_admins "Replacement dispatch paused" id))

unfoldable pub count_replacement_offers : ℕ → Table Assignment → ℕ
unfolding count_where
count_replacement_offers job t =
    count_where (λ a. a.job_id == job && is_some a.replaces_assignment_id) t

-- MAX_REPLACEMENT_OFFERS_PER_JOB, unless the environment gives another
abbrev pub max_replacement_offers_per_job : ℕ
max_replacement_offers_per_job = 10

abbrev pub pause_with : ℕ → DispatchFailureReason → Action Bool
pause_with id reason = pause_replacement_dispatch id reason >>= λ _. pure true

unfoldable pub evaluate_replacement_dispatch_limits : ℕ → Job → Action Bool
unfolding count_replacement_offers
evaluate_replacement_dispatch_limits id j =
    branch (not (j.status === JobStatus.seeking_replacement)) (pure false) (
      branch (is_replacement_dispatch_paused j) (pure true) (do
        now ← gets λ s. s.now
        offers ← gets λ s. count_replacement_offers id s.assignments
        branch (is_dispatch_timed_out now j.dispatch_deadline_at)
            (pause_with id replacement_dispatch_timeout)
            (branch (leb max_replacement_offers_per_job offers)
              (pause_with id replacement_dispatch_exhausted) (pure false))))

unfoldable pub retry_replacement : ℕ → Job → Action (Unit {0})
unfolding audit_log enqueue_at
retry_replacement id j = branch (is_replacement_dispatch_paused j) (pure tt) (do
  limited ← evaluate_replacement_dispatch_limits id j
  branch limited (pure tt) (do
    audit_log none "REPLACEMENT_DISPATCH_SOFT_FAIL" id
    now ← gets λ s. s.now
    enqueue_at (now + retry_delay 5000 60000 j.offers_sent_count)
        (OutboxPayload.dispatch_replacement id true)))

unfoldable pub handle_replacement_dispatch_failure : ℕ → Action (Unit {0})
unfolding find_job retry_replacement
handle_replacement_dispatch_failure id = do row ← find_job id; for_job row (retry_replacement id)
