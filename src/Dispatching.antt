-- ===== src/Dispatching.antt =====
-- DispatchingService (src/dispatching/dispatching.service.ts). Here stands what the handlers of an
-- assignment call; the children model who is offered a job (Eligibility), an offer (Offers), what is
-- taken back (Release), how a job fails (Failures), a round of dispatch (Rounds) and the requests.
pub mod Eligibility
pub mod Offers
pub mod Release
pub mod Failures
pub mod Rounds
pub mod Requests
pub mod Frame
pub mod Slots
pub mod Choice
pub mod Failure
pub mod Certificates
use guardian_backend_service.Prelude.{ℕ, Bool, true, false, Option, none, some, ◌===◌, ◌&&◌, not}
use guardian_backend_service.Prelude.Effect.{
  ◌>>=◌, ◌>>◌, throw_if, some_or_throw, job_not_found, not_seeking_replacement,
}
use guardian_backend_service.Data.{
  JobStatus, job_eq, Job, DispatchFailureReason, replacement_dispatch_exhausted,
  replacement_dispatch_timeout, Action, find_job, enqueue, audit_log, OutboxPayload,
}

-- REPLACEMENT_DISPATCH_PAUSE_REASONS
abbrev pub is_pause_reason : Option DispatchFailureReason → Bool
is_pause_reason (some replacement_dispatch_exhausted) = true
is_pause_reason (some replacement_dispatch_timeout) = true
is_pause_reason _ = false

unfoldable pub is_replacement_dispatch_paused : Job → Bool
is_replacement_dispatch_paused j =
    j.status === JobStatus.seeking_replacement && is_pause_reason j.dispatch_failure_reason

unfoldable pub request_replacement_dispatch : ℕ → Action (Unit {0})
unfolding find_job enqueue audit_log
request_replacement_dispatch id = do
  job ← some_or_throw (← find_job id) job_not_found
  throw_if (not (job.status === JobStatus.seeking_replacement)) not_seeking_replacement
  enqueue (OutboxPayload.dispatch_replacement id true)
  audit_log none "REPLACEMENT_DISPATCH_REQUESTED" id
