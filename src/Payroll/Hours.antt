-- ===== src/Payroll/Hours.antt =====
-- The hours that a guardian is paid for (src/guardian-payroll/guardian-payroll-calculation.util.ts).
use guardian_backend_service.Prelude.{ℕ, min, max, Bool, ◌&&◌, not, String, if◌then◌else◌}
use guardian_backend_service.Data.{PayPolicyModel}
use guardian_backend_service.Billing.Calculation.{time_between, hours_ms}

unfoldable pub effective_pay_model_for_earning : PayPolicyModel → Bool → Bool → PayPolicyModel
effective_pay_model_for_earning model early_release_approved apply_on_early_release =
    if early_release_approved && not apply_on_early_release
    then PayPolicyModel.actual_time
    else model

abbrev pub pay_model_text : PayPolicyModel → String
pay_model_text PayPolicyModel.actual_time = "ACTUAL_TIME"
pay_model_text PayPolicyModel.minimum_guaranteed = "MINIMUM_GUARANTEED"

-- the minimum that is waived
abbrev pub pay_basis_text : PayPolicyModel → PayPolicyModel → String
pay_basis_text PayPolicyModel.minimum_guaranteed PayPolicyModel.actual_time =
    "MINIMUM_GUARANTEED_EARLY_RELEASE_ACTUAL"
pay_basis_text model effective = pay_model_text effective

pub record PayableDuration : Type 0 where
  pub scheduled_ms : ℕ
  pub actual_ms : ℕ
  pub payable_ms : ℕ
  pub pay_basis : String
  pub minimum_hours : ℕ

abbrev pub payable_by : PayPolicyModel → ℕ → ℕ → ℕ
payable_by PayPolicyModel.actual_time minimum capped = capped
payable_by PayPolicyModel.minimum_guaranteed minimum capped = max minimum capped

-- what is paid by: the policy, or its snapshot on the assignment
pub record PayTerms : Type 0 where
  pub model : PayPolicyModel
  pub minimum_hours : ℕ
  pub apply_on_early_release : Bool

unfoldable pub compute_payable_duration : PayTerms → ℕ → ℕ → ℕ → ℕ → Bool → PayableDuration
unfolding effective_pay_model_for_earning
compute_payable_duration terms start end arrived completed early_release_approved =
    let scheduled = time_between start end in
    let actual = time_between arrived completed in
    let effective =
      effective_pay_model_for_earning terms.model early_release_approved
        terms.apply_on_early_release in
    record {
      scheduled_ms = scheduled;
      actual_ms = actual;
      payable_ms = payable_by effective (hours_ms terms.minimum_hours) (min scheduled actual);
      pay_basis = pay_basis_text terms.model effective;
      minimum_hours = terms.minimum_hours;
    }
