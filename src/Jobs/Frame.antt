-- ===== src/Jobs/Frame.antt =====
-- The handlers of a job leave the assignments alone; those of a guardian's shift leave the
-- assignments and the jobs alone.
use guardian_backend_service.Prelude.{ℕ, ◌≡◌, Option, List, String, arith}
use guardian_backend_service.Prelude.Effect.{◌>>=◌}
use guardian_backend_service.Data.{atomic, JobStatus, Job, Store}
use guardian_backend_service.Jobs.Lifecycle.{
  transition_job_status, redispatch_after_no_show, transition_to_assigned,
  transition_to_partially_assigned, complete_from_assignment,
}
use guardian_backend_service.Jobs.Progress.{JobStaffingProgress}
use guardian_backend_service.Jobs.Staffing.{apply_unfilled_slot_redispatch, refill, keep_filling}
use guardian_backend_service.Guardians.ShiftState.{set_available}
use guardian_backend_service.Dispatching.{request_replacement_dispatch}

-- the assignments are as they were
abbrev pub SameAssignments : Store → Store → Type 0
SameAssignments s t = t.assignments ≡ s.assignments

pub transition_job_status-frame :
    (id : ℕ) (target : JobStatus) (allowed : List JobStatus) (by : Option ℕ)
    (reason : Option String) (s : Store)
    → SameAssignments s (transition_job_status id target allowed by reason s).1
unfolding ◌>>=◌ transition_job_status
transition_job_status-frame id target allowed by reason s = ground arith

pub redispatch_after_no_show-frame :
    (id : ℕ) (by : Option ℕ) (reason : Option String) (s : Store)
    → SameAssignments s (redispatch_after_no_show id by reason s).1
unfolding ◌>>=◌ redispatch_after_no_show
redispatch_after_no_show-frame id by reason s = grind (arith, transition_job_status-frame)

pub apply_unfilled_slot_redispatch-frame :
    (id : ℕ) (j : Job) (by : Option ℕ) (reason : Option String) (s : Store)
    → SameAssignments s (apply_unfilled_slot_redispatch id j by reason s).1
unfolding ◌>>=◌ apply_unfilled_slot_redispatch refill transition_to_assigned
    transition_to_partially_assigned
apply_unfilled_slot_redispatch-frame id j by reason s =
    grind (arith, transition_job_status-frame, redispatch_after_no_show-frame)

pub set_available-frame : (g : ℕ) (s : Store) → SameAssignments s (set_available g s).1
unfolding ◌>>=◌ set_available
set_available-frame g s = ground arith

pub set_available-jobs : (g : ℕ) (s : Store) → (set_available g s).1.jobs ≡ s.jobs
unfolding ◌>>=◌ set_available
set_available-jobs g s = ground arith

pub request_replacement_dispatch-frame :
    (id : ℕ) (s : Store) → SameAssignments s (request_replacement_dispatch id s).1
unfolding ◌>>=◌ request_replacement_dispatch
request_replacement_dispatch-frame id s = ground arith

pub complete_from_assignment-frame :
    (id : ℕ) (by : Option ℕ) (s : Store) → SameAssignments s (complete_from_assignment id by s).1
unfolding ◌>>=◌ atomic complete_from_assignment
complete_from_assignment-frame id by s = grind (arith, transition_job_status-frame)

pub keep_filling-frame :
    (id : ℕ) (by : Option ℕ) (p : JobStaffingProgress) (s : Store)
    → SameAssignments s (keep_filling id by p s).1
unfolding ◌>>=◌ keep_filling transition_to_partially_assigned
keep_filling-frame id by p s = grind (arith, transition_job_status-frame)
