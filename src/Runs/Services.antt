-- ===== src/Runs/Services.antt =====
-- Calls of the services for jobs, shifts and pay policies.
use guardian_backend_service.Prelude.{
  ltb, ◌-◌, ◌<◌, ◌≡◌, ◌⊎◌, refl, true, false, none, some, [], arith, ◌&&◌, includes, nat_eq,
}
use guardian_backend_service.Prelude.Table.{find, modify, count_where}
use guardian_backend_service.Prelude.Effect.{ok, err, ◌>>=◌, Error, job_transition_refused}
use guardian_backend_service.Data.{assignment_eq, JobStatus, job_eq, Job, find_job, update_job}
use guardian_backend_service.Jobs.Progress.{
  count_staffed, count_pending_offers, compute_job_staffing_progress, build_staffing_progress,
}
use guardian_backend_service.Jobs.Staffing.{apply_accept_staffing_update, keep_filling}
use guardian_backend_service.Jobs.Lifecycle.{
  transition_job_status, transition_to_partially_assigned, write_status, record_status,
  from_partially_assigned, from_in_progress,
}
use guardian_backend_service.Jobs.History.{
  IsRecorded, transition_job_status-outcome, transition_job_status-IsRecorded,
}
use guardian_backend_service.Guardians.Consistency.{
  ShiftRequest, run_shift, AllConsistent, run_shift-Consistent,
}
use guardian_backend_service.Prelude.Priority.{
  first_by_priority, sort_by_priority, insert_by_priority,
}
use guardian_backend_service.Payroll.PayPolicy.{is_valid_at, fits_job, pick_pay_policy, priority_of}
use guardian_backend_service.Prelude.Priority.Choice.{IsBest}
use guardian_backend_service.Payroll.Choice.{pick_pay_policy-IsBest}
use guardian_backend_service.Jobs.Staffing.{StaffingAcceptResult}
use guardian_backend_service.Jobs.Filled.{status_in, apply_accept-settles}
use guardian_backend_service.Runs.Database.{night_job, policy, evening}

refused_change :
    transition_job_status 50 JobStatus.in_progress from_in_progress none none evening
    ≡ (err job_transition_refused, evening)
unfolding transition_job_status write_status find_job find ◌>>=◌
refused_change = refl

transition_job_status-outcome_example :
    let r =
      transition_job_status 50 JobStatus.partially_assigned from_partially_assigned none none
        evening in
    ((e : Error) → r.0 ≡ err e → r.1 ≡ evening)
    × (r.0 ≡ ok tt
        → (j : Job) × (find 50 evening.jobs ≡ some j)
          × ((j.status ≡ JobStatus.partially_assigned)
              ⊎ (includes from_partially_assigned j.status ≡ true))
          × (find 50 r.1.jobs ≡ some (record j { status = JobStatus.partially_assigned })))
transition_job_status-outcome_example =
    transition_job_status-outcome 50 JobStatus.partially_assigned from_partially_assigned none none
      evening

evening-IsRecorded : IsRecorded evening
unfolding find
evening-IsRecorded k j row = ground arith

transition_job_status-IsRecorded_example :
    IsRecorded
      (transition_job_status 50 JobStatus.partially_assigned from_partially_assigned none none
        evening).1
transition_job_status-IsRecorded_example =
    transition_job_status-IsRecorded 50 JobStatus.partially_assigned from_partially_assigned none
      none evening evening-IsRecorded

-- the policy of priority 5 has expired
chosen_policy : pick_pay_policy 3 1 5000 evening.pay_policies ≡ some (policy 3 8000)
unfolding pick_pay_policy first_by_priority sort_by_priority insert_by_priority
chosen_policy = refl

pick_pay_policy-IsBest_example :
    IsBest priority_of
      (λ p. is_valid_at 5000 p && fits_job 3 1 p)
      (pick_pay_policy 3 1 5000 evening.pay_policies)
      evening.pay_policies
pick_pay_policy-IsBest_example = pick_pay_policy-IsBest 3 1 5000 evening.pay_policies

evening-AllConsistent : AllConsistent evening
unfolding find
evening-AllConsistent g w row = ground arith

run_shift-Consistent_example : AllConsistent (run_shift (ShiftRequest.login 7) evening)
run_shift-Consistent_example =
    run_shift-Consistent (ShiftRequest.login 7) evening evening-AllConsistent

staffing_result : StaffingAcceptResult
staffing_result = record {
  progress = compute_job_staffing_progress 50 2 evening.assignments;
  excess_offers = [];
  should_continue_dispatch = false;
}

staffing_succeeds : (apply_accept_staffing_update 50 night_job none evening).0 ≡ ok staffing_result
unfolding apply_accept_staffing_update keep_filling compute_job_staffing_progress
    build_staffing_progress count_staffed count_pending_offers count_where
    transition_to_partially_assigned transition_job_status write_status record_status find_job
    update_job find modify ◌>>=◌ staffing_result
staffing_succeeds = refl

apply_accept-settles_example :
    ((count_staffed 50 evening.assignments ≡ 2)
      × (count_pending_offers 50
            (apply_accept_staffing_update 50 night_job none evening).1.assignments
          ≡ 0)
      × (status_in (find 50 (apply_accept_staffing_update 50 night_job none evening).1.jobs)
          ≡ some JobStatus.assigned)
      × (staffing_result.should_continue_dispatch ≡ false))
    ⊎ ((count_staffed 50 evening.assignments < 2)
        × (status_in (find 50 (apply_accept_staffing_update 50 night_job none evening).1.jobs)
            ≡ some JobStatus.partially_assigned)
        × (staffing_result.should_continue_dispatch
            ≡ ltb
                (count_pending_offers 50 evening.assignments)
                (2 - count_staffed 50 evening.assignments)))
apply_accept-settles_example =
    apply_accept-settles 50 none night_job evening staffing_result (λ e. ground arith)
      staffing_succeeds
