-- ===== src/Assignments/NoShow.antt =====
-- No-shows: `noShow`, `autoNoShow` and `applyNoShow` of AssignmentsService
-- (src/assignments/assignments.service.ts), and the scan of
-- src/assignments/no-show-automation.service.ts.
use guardian_backend_service.Prelude.{
  ℕ, ◌+◌, ◌/◌, Bool, false, Option, none, some, List, [], ◌∷◌, ◌==◌, ◌===◌, ◌&&◌, ◌||◌, not,
  is_some, includes, leb, first_of_two, if◌then◌else◌, String,
}
use guardian_backend_service.Prelude.Table.{Table, find, select_where}
use guardian_backend_service.Prelude.Effect.{
  ok, ◌>>=◌, ◌>>◌, pure, throw_if, gets, branch, cannot_no_show,
}
use guardian_backend_service.Data.{
  AssignmentStatus, assignment_eq, offered, accepted, en_route, no_show, NoShowReasonCode,
  client_unreachable, client_cancelled_at_door, access_blocked, client_not_present, safety_risk,
  other, NoShowTriggerType, manual, system, RoleCode, Assignment, Job, Store, Action, on_tx,
  on_pool, transaction, update_assignment, audit_log,
}
use guardian_backend_service.Guardians.ShiftState.{set_available}
use guardian_backend_service.Jobs.Staffing.{apply_unfilled_slot_redispatch}
use guardian_backend_service.Assignments.Update.{update_optimistic}
use guardian_backend_service.Assignments.Replacement.{any_assignment}

abbrev pub no_show_allowed_from_statuses : List AssignmentStatus
no_show_allowed_from_statuses = offered ∷ accepted ∷ en_route ∷ []

pub record NoShowInput : Type 0 where
  pub reason_code : NoShowReasonCode
  pub reason_note : Option String
  pub trigger_type : NoShowTriggerType
  pub actor_user_id : Option ℕ
  pub actor_role : Option RoleCode

abbrev pub reason_text : NoShowReasonCode → String
reason_text client_unreachable = "CLIENT_UNREACHABLE"
reason_text client_cancelled_at_door = "CLIENT_CANCELLED_AT_DOOR"
reason_text access_blocked = "ACCESS_BLOCKED"
reason_text client_not_present = "CLIENT_NOT_PRESENT"
reason_text safety_risk = "SAFETY_RISK"
reason_text other = "OTHER"

-- the columns of a no-show: what is undefined in the input is left as it is
abbrev pub report : NoShowInput → ℕ → Assignment → Assignment
report input now a = record a {
  no_show_reason = first_of_two input.reason_note a.no_show_reason;
  no_show_reason_code = some input.reason_code;
  no_show_trigger_type = some input.trigger_type;
  no_show_reported_by_user_id = first_of_two input.actor_user_id a.no_show_reported_by_user_id;
  no_show_reported_by_role = first_of_two input.actor_role a.no_show_reported_by_role;
  no_show_at = some now;
}

-- `guardianPerformanceDaily.upsert` for a day and a guardian
unfoldable pub bump_no_show : ℕ → ℕ → List (ℕ × ℕ × ℕ) → List (ℕ × ℕ × ℕ)
bump_no_show day g [] = (day, g, 1) ∷ []
bump_no_show day g ((d, h, n) ∷ rest) =
    if d == day && h == g then (d, h, n + 1) ∷ rest else (d, h, n) ∷ bump_no_show day g rest

-- the day, in UTC, of a time in milliseconds
abbrev pub day_of : ℕ → ℕ
day_of now = now / 86400000

unfoldable pub count_no_show : ℕ → Action (Unit {0})
unfolding bump_no_show
count_no_show g s =
    (ok tt, record s { no_show_counts = bump_no_show (day_of s.now) g s.no_show_counts })

-- the statements on `tx` before the guardian is released
unfoldable pub write_no_show : ℕ → NoShowInput → Assignment → Action (Unit {0})
unfolding update_assignment count_no_show
write_no_show id input a = do
  updated ← update_optimistic id a.version_number no_show
  now ← gets λ s. s.now
  reported ← update_assignment id (report input now)
  count_no_show a.guardian_id

-- The guardian is released by a statement on `this.prisma`, inside the transaction.
unfoldable pub commit_no_show : ℕ → NoShowInput → Assignment → Job → Action (Unit {0})
commit_no_show id input a j = transaction (do
  on_tx (write_no_show id input a)
  on_pool (set_available a.guardian_id)
  on_tx (
      apply_unfilled_slot_redispatch a.job_id j input.actor_user_id
        (some (reason_text input.reason_code))))

unfoldable pub apply_no_show : ℕ → NoShowInput → Action (Unit {0})
unfolding any_assignment commit_no_show audit_log
apply_no_show id input = do
  row ← any_assignment id
  branch (row.0.status === no_show) (pure tt) (do
    throw_if (not (includes no_show_allowed_from_statuses row.0.status)) cannot_no_show
    commit_no_show id input row.0 row.1
    audit_log none "ASSIGNMENT_NO_SHOW" id)

unfoldable pub report_no_show :
    ℕ → NoShowReasonCode → Option String → ℕ → RoleCode → Action (Unit {0})
unfolding apply_no_show
report_no_show id code note actor role = apply_no_show id (record {
  reason_code = code;
  reason_note = note;
  trigger_type = manual;
  actor_user_id = some actor;
  actor_role = some role;
})

unfoldable pub auto_no_show : ℕ → NoShowReasonCode → String → Action (Unit {0})
unfolding apply_no_show
auto_no_show id code note = apply_no_show id (record {
  reason_code = code;
  reason_note = some note;
  trigger_type = system;
  actor_user_id = none;
  actor_role = none;
})

abbrev pub accepted_no_show_after_ms : ℕ
accepted_no_show_after_ms = 1200000

abbrev pub en_route_no_show_grace_after_start_ms : ℕ
en_route_no_show_grace_after_start_ms = 900000

-- `t <= now - k`, written so that no subtraction stops at 0
abbrev pub is_older : ℕ → ℕ → ℕ → Bool
is_older now k t = leb (t + k) now

abbrev pub started_before : ℕ → Option Job → Bool
started_before now none = false
started_before now (some j) = is_older now en_route_no_show_grace_after_start_ms j.scheduled_start

-- the candidates of `scanAndMarkNoShows`
unfoldable pub is_candidate : Store → Assignment → Bool
is_candidate s a =
    a.status === accepted
      && (elim a.accepted_at [ none ↦ false | some t ↦ is_older s.now accepted_no_show_after_ms t ])
    || a.status === en_route
      && not (is_some a.arrived_at)
      && started_before s.now (find a.job_id s.jobs)

-- An error of one candidate is logged, and the scan goes on.
unfoldable pub mark_each : Table Assignment → Action (Unit {0})
mark_each [] s = (ok tt, s)
mark_each ((id, a) ∷ rest) s =
    mark_each rest
      (if a.status === accepted
        then auto_no_show id client_unreachable
            "Auto no-show: accepted assignment exceeded 20m without en-route update" s
        else if a.status === en_route
        then auto_no_show id client_not_present
            "Auto no-show: en-route assignment exceeded ETA + 15m without on-site update" s
        else (ok tt, s)).1

unfoldable pub scan_and_mark_no_shows : Action (Unit {0})
unfolding mark_each is_candidate
scan_and_mark_no_shows s = mark_each (select_where (is_candidate s) s.assignments) s
