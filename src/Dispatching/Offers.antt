-- ===== src/Dispatching/Offers.antt =====
-- An offer: `createOfferInTransaction` and `finalizeOffer` of DispatchingService
-- (src/dispatching/dispatching.service.ts).
use guardian_backend_service.Prelude.{ℕ, ◌+◌, Option, none, [], ◌∷◌}
use guardian_backend_service.Prelude.Table.{Table, fresh_id}
use guardian_backend_service.Prelude.Effect.{ok, ◌>>=◌, ◌>>◌, pure, gets}
use guardian_backend_service.Queue.{schedule_offer_expiry}
use guardian_backend_service.Data.{
  AssignmentStatus, Assignment, Job, Notice, Action, update_job, audit_log, write_dispatch_audit,
  notify,
}

-- OFFER_TTL_MS, unless the environment gives another
abbrev pub offer_ttl_ms : ℕ
offer_ttl_ms = 90000

abbrev pub new_offer : ℕ → ℕ → ℕ → Option ℕ → Assignment
new_offer job guardian expires_at replaces = record {
  job_id = job;
  guardian_id = guardian;
  status = AssignmentStatus.offered;
  version_number = 1;
  expires_at = expires_at;
  accepted_at = none;
  arrived_at = none;
  completed_at = none;
  no_show_reason = none;
  no_show_reason_code = none;
  no_show_trigger_type = none;
  no_show_reported_by_user_id = none;
  no_show_reported_by_role = none;
  no_show_at = none;
  early_release_requested_at = none;
  early_release_reason = none;
  early_release_resolved_at = none;
  early_release_resolution = none;
  early_release_auto_approve_at = none;
  replacement_requested_at = none;
  replacement_reason = none;
  replacement_resolved_at = none;
  replacement_resolution = none;
  replacement_resolved_by_user_id = none;
  replaces_assignment_id = replaces;
  pay_policy_model = none;
  pay_minimum_hours = none;
  pay_policy_resolved_at = none;
  hourly_pay_rate_at_commit = none;
  pay_apply_on_early_release = none;
}

-- `jobAssignment.create`, with its id
unfoldable pub insert_assignment : Assignment → Action (ℕ × Assignment)
unfolding fresh_id
insert_assignment a s =
    let id = fresh_id s.assignments in
    (ok (id, a), record s { assignments = (id, a) ∷ s.assignments })

-- the columns of the job that an offer counts
abbrev pub count_offer : Job → Job
count_offer j = record j {
  offers_sent_count = j.offers_sent_count + 1;
  dispatch_attempts = j.dispatch_attempts + 1;
  unreachable_since = none;
}

-- the round of an assignment is left out
unfoldable pub create_offer : ℕ → ℕ → Option ℕ → Action (ℕ × Assignment)
unfolding insert_assignment update_job
create_offer job guardian replaces = do
  now ← gets λ s. s.now
  created ← insert_assignment (new_offer job guardian (now + offer_ttl_ms) replaces)
  update_job job count_offer
  pure created

unfoldable pub finalize_offer : ℕ → ℕ × Assignment → Action (Unit {0})
unfolding schedule_offer_expiry audit_log write_dispatch_audit notify
finalize_offer job (id, a) = do
  schedule_offer_expiry id
  audit_log none "GUARDIAN_OFFERED" id
  write_dispatch_audit job "offer_sent"
  notify (Notice.email_guardian a.guardian_id "DISPATCH_OFFER_RECEIVED" id)
  notify (Notice.in_app_guardian a.guardian_id "New job offer" id)

unfoldable pub finalize_each : ℕ → Table Assignment → Action (Unit {0})
unfolding finalize_offer
finalize_each job [] = pure tt
finalize_each job (a ∷ rest) = do finalize_offer job a; finalize_each job rest
