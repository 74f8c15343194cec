-- ===== src/Payroll/Choice.antt =====
-- Which pay policy `resolvePayPolicy` of src/guardian-payroll/guardian-pay-policy.service.ts chooses.
use guardian_backend_service.Prelude.{ℕ, List, ◌&&◌}
use guardian_backend_service.Prelude.Priority.Choice.{IsBest, first_by_priority-IsBest}
use guardian_backend_service.Data.{PayPolicy}
use guardian_backend_service.Payroll.PayPolicy.{is_valid_at, fits_job, priority_of, pick_pay_policy}

-- `resolvePayPolicy` chooses a policy that is valid then and fits the job and the terms of employment,
-- of the highest priority of all that do; it finds none only where there is none.
pub pick_pay_policy-IsBest :
    (job_type employment_type t : ℕ) (ps : List PayPolicy)
    → IsBest priority_of
        (λ p. is_valid_at t p && fits_job job_type employment_type p)
        (pick_pay_policy job_type employment_type t ps)
        ps
unfolding pick_pay_policy
pick_pay_policy-IsBest job_type employment_type t ps =
    first_by_priority-IsBest priority_of (is_valid_at t) (fits_job job_type employment_type) ps
