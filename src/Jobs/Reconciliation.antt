-- ===== src/Jobs/Reconciliation.antt =====
-- JobStatusReconciliationService (src/jobs/job-status-reconciliation.service.ts), which runs every
-- minute: it fails the dispatches that are over time or have no one left, and looks for jobs whose
-- assignments do not fit their status. `running` is false at the start of a run: a run is whole here.
use guardian_backend_service.Prelude.{
  ℕ, Bool, false, List, [], ◌∷◌, ◌==◌, ◌===◌, ◌&&◌, ◌||◌, not, includes, any_of, select,
}
use guardian_backend_service.Prelude.Table.{Table, select_where}
use guardian_backend_service.Prelude.Effect.{◌>>=◌, ◌>>◌, pure, gets}
use guardian_backend_service.Data.{
  AssignmentStatus, assignment_eq, JobStatus, job_eq, Assignment, Job, Store, Action,
}
use guardian_backend_service.Jobs.Progress.{active_staffed_statuses}
use guardian_backend_service.Dispatching.Failures.{is_searching, is_dispatch_timed_out}
use guardian_backend_service.Dispatching.Requests.{
  fail_dispatch_due_to_timeout, fail_dispatch_pool_exhausted_if_applicable,
}

abbrev pub is_overdue : ℕ → Job → Bool
is_overdue now j = is_searching j.status && is_dispatch_timed_out now j.dispatch_deadline_at

unfoldable pub fail_each : (ℕ → Action Bool) → Table Job → Action (Unit {0})
fail_each fail [] = pure tt
fail_each fail ((id, j) ∷ rest) = do failed ← fail id; fail_each fail rest

unfoldable pub fail_overdue_dispatch_jobs : Action (Unit {0})
unfolding fail_each
fail_overdue_dispatch_jobs = do
  overdue ← gets λ s. select_where (is_overdue s.now) s.jobs
  fail_each fail_dispatch_due_to_timeout overdue

abbrev pub is_waiting : Job → Bool
is_waiting j = j.status === JobStatus.pending || j.status === JobStatus.dispatching

unfoldable pub fail_pool_exhausted_dispatch_jobs : Action (Unit {0})
unfolding fail_each
fail_pool_exhausted_dispatch_jobs = do
  active ← gets λ s. select_where is_waiting s.jobs
  fail_each fail_dispatch_pool_exhausted_if_applicable active

abbrev pub watched_statuses : List JobStatus
watched_statuses =
    JobStatus.assigned ∷ JobStatus.partially_assigned ∷ JobStatus.in_progress
    ∷ JobStatus.seeking_replacement ∷ JobStatus.completed ∷ JobStatus.dispatching ∷ []

abbrev pub replacement_pipeline : List AssignmentStatus
replacement_pipeline =
    AssignmentStatus.offered ∷ AssignmentStatus.accepted ∷ AssignmentStatus.en_route ∷ []

-- some assignment of the job has one of the statuses
abbrev pub has_any : List AssignmentStatus → ℕ → Table Assignment → Bool
has_any statuses job t = any_of (λ row. row.1.job_id == job && includes statuses row.1.status) t

abbrev pub is_invalid : ℕ → Job → Table Assignment → Bool
is_invalid id j t = elim j.status [
  | JobStatus.assigned ↦ not (has_any active_staffed_statuses id t)
  | JobStatus.partially_assigned ↦ not (has_any active_staffed_statuses id t)
  | JobStatus.in_progress ↦ not (has_any active_staffed_statuses id t)
  | JobStatus.completed ↦ has_any active_staffed_statuses id t
  | JobStatus.awaiting_confirmation ↦ has_any active_staffed_statuses id t
  | JobStatus.dispatching ↦ has_any (AssignmentStatus.on_site ∷ []) id t
  | JobStatus.seeking_replacement ↦
      not (has_any (AssignmentStatus.awaiting_relief ∷ []) id t)
      && not (has_any (AssignmentStatus.on_site ∷ []) id t)
      && not (has_any replacement_pipeline id t)
  | _ ↦ false
]

abbrev pub is_invalid_row : Table Assignment → ℕ × Job → Bool
is_invalid_row t (id, j) = includes watched_statuses j.status && is_invalid id j t

-- the jobs that the warning counts
unfoldable pub invalid_jobs : Store → Table Job
invalid_jobs s = select (is_invalid_row s.assignments) s.jobs

unfoldable pub scan_for_drift : Action (Table Job)
unfolding fail_overdue_dispatch_jobs fail_pool_exhausted_dispatch_jobs invalid_jobs
scan_for_drift = do fail_overdue_dispatch_jobs; fail_pool_exhausted_dispatch_jobs; gets invalid_jobs
