-- ===== src/Jobs/Progress.antt =====
-- Staffing counts (src/jobs/job-staffing.util.ts). Only original assignments count: a substitute
-- has `replaces_assignment_id`.
use guardian_backend_service.Prelude.{
  ℕ, ◌-◌, Bool, List, [], ◌∷◌, ◌==◌, ◌===◌, includes, not, is_some, ◌&&◌,
}
use guardian_backend_service.Prelude.Table.{Table, count_where}
use guardian_backend_service.Data.{AssignmentStatus, assignment_eq, Assignment}

abbrev pub staffed_statuses : List AssignmentStatus
staffed_statuses =
    AssignmentStatus.accepted ∷ AssignmentStatus.en_route ∷ AssignmentStatus.on_site
    ∷ AssignmentStatus.early_release_requested ∷ AssignmentStatus.replacement_requested
    ∷ AssignmentStatus.awaiting_relief ∷ AssignmentStatus.completed ∷ []

abbrev pub active_staffed_statuses : List AssignmentStatus
active_staffed_statuses =
    AssignmentStatus.accepted ∷ AssignmentStatus.en_route ∷ AssignmentStatus.on_site
    ∷ AssignmentStatus.early_release_requested ∷ AssignmentStatus.replacement_requested
    ∷ AssignmentStatus.awaiting_relief ∷ []

-- `{ jobId, replacesAssignmentId: null }`
abbrev pub is_original_of : ℕ → Assignment → Bool
is_original_of job a = a.job_id == job && not (is_some a.replaces_assignment_id)

abbrev pub is_staffed_of : ℕ → Assignment → Bool
is_staffed_of job a = is_original_of job a && includes staffed_statuses a.status

abbrev pub is_active_of : ℕ → Assignment → Bool
is_active_of job a = is_original_of job a && includes active_staffed_statuses a.status

abbrev pub is_pending_of : ℕ → Assignment → Bool
is_pending_of job a = is_original_of job a && a.status === AssignmentStatus.offered

unfoldable pub count_staffed : ℕ → Table Assignment → ℕ
count_staffed job t = count_where (is_staffed_of job) t

unfoldable pub count_active_staffed : ℕ → Table Assignment → ℕ
count_active_staffed job t = count_where (is_active_of job) t

unfoldable pub count_pending_offers : ℕ → Table Assignment → ℕ
count_pending_offers job t = count_where (is_pending_of job) t

pub record JobStaffingProgress : Type 0 where
  pub requested_guardian_count : ℕ
  pub accepted_guardian_count : ℕ
  pub remaining_guardian_slots : ℕ
  pub pending_offer_count : ℕ
  pub is_fully_staffed : Bool

-- `Math.max(0, requested - accepted)` is the subtraction that stops at 0
unfoldable pub build_staffing_progress : ℕ → ℕ → ℕ → JobStaffingProgress
build_staffing_progress requested accepted pending = record {
  requested_guardian_count = requested;
  accepted_guardian_count = accepted;
  remaining_guardian_slots = requested - accepted;
  pending_offer_count = pending;
  is_fully_staffed = (requested - accepted) == 0;
}

unfoldable pub compute_job_staffing_progress : ℕ → ℕ → Table Assignment → JobStaffingProgress
unfolding build_staffing_progress
compute_job_staffing_progress job requested t =
    build_staffing_progress requested (count_staffed job t) (count_pending_offers job t)
