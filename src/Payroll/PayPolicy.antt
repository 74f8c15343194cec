-- ===== src/Payroll/PayPolicy.antt =====
-- GuardianPayPolicyService (src/guardian-payroll/guardian-pay-policy.service.ts): the valid pay
-- policy of highest priority that matches.
use guardian_backend_service.Prelude.{ℕ, Bool, true, Option, none, some, List, ◌==◌, ◌&&◌, leb}
use guardian_backend_service.Prelude.Priority.{first_by_priority}
use guardian_backend_service.Prelude.Effect.{◌>>=◌, some_or_throw, gets, no_pay_policy}
use guardian_backend_service.Data.{PayPolicy, Action}

-- `validFrom <= at`, and `validUntil` null or `>= at`
abbrev pub is_valid_at : ℕ → PayPolicy → Bool
is_valid_at t p = leb p.valid_from t && (elim p.valid_until [ none ↦ true | some u ↦ leb t u ])

abbrev pub matches : Option ℕ → ℕ → Bool
matches none v = true
matches (some u) v = u == v

abbrev pub fits_job : ℕ → ℕ → PayPolicy → Bool
fits_job job_type employment_type p =
    matches p.job_type job_type && matches p.employment_type employment_type

abbrev pub priority_of : PayPolicy → ℕ
priority_of p = p.priority

unfoldable pub pick_pay_policy : ℕ → ℕ → ℕ → List PayPolicy → Option PayPolicy
unfolding first_by_priority
pick_pay_policy job_type employment_type t ps =
    first_by_priority priority_of (is_valid_at t) (fits_job job_type employment_type) ps

unfoldable pub resolve_pay_policy : ℕ → ℕ → ℕ → Action PayPolicy
resolve_pay_policy job_type employment_type t = do
  some_or_throw (← gets λ s. pick_pay_policy job_type employment_type t s.pay_policies)
      no_pay_policy
