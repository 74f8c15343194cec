-- ===== src/Prelude/Effect.antt =====
-- A request handler as a function of the state that it runs on: it throws an error or returns a
-- value, and leaves a state. What was written before a throw stays written; only a transaction
-- takes it back (Data/Session).
pub mod Rules
use mathlib.Core.Bool.{Bool, true, false}
use mathlib.Core.Option.{Option, none, some}

-- What a handler of the source throws. `record_missing` is the error of the database itself.
pub data Error : Type 0 where
  assignment_not_found offer_not_active offer_expired slots_filled guardian_not_found : Error
  no_pay_policy modified_concurrently job_not_found job_transition_refused : Error
  unexpected_status transition_refused shift_state_not_found record_missing : Error
  guardian_not_active guardian_not_verified certification_required no_org_access replacement_pending
        not_on_site :
      Error
  replacement_workflow early_release_not_allowed not_awaiting_early_release : Error
  replacement_in_progress job_not_in_progress not_awaiting_replacement : Error
  departing_not_awaiting_relief substitute_status missing_departing : Error
  original_not_ready remain_on_site cannot_complete cannot_no_show : Error
  job_not_completable not_seeking_replacement no_departing : Error
  job_not_dispatchable draft_invoice_failed otp_already_sent too_many_attempts otp_not_delivered :
      Error
  otp_invalid otp_attempts_exceeded : Error
  invoice_not_found invoice_disputed invoice_paid invoice_not_disputable invoice_not_disputed :
      Error
  void_reason_required same_replacement_invoice replacement_not_found replacement_of_other_org :
      Error
  no_completed_assignment no_billing_policy no_service invoice_needs_times no_applicable_rate :
      Error
  payment_not_found invoice_not_issued organization_not_found org_pending_verification
        location_setup_required :
      Error
  earnings_not_payable payout_amount_zero payout_not_found : Error
  job_not_cancellable job_not_confirmable guardian_scope_mismatch booking_too_short : Error

pub data Result {ℓ} (A : Type ℓ) : Type ℓ where
  ok : A → Result A
  err : Error → Result A

abbrev pub St {ℓ} : Type ℓ → Type ℓ → Type ℓ
St S A = S → Result A × S

module _ {S : Type 0} where
  unfoldable pub pure : {A : Type 0} → A → St S A
  pure a s = (ok a, s)

  -- `if (test) throw e`
  unfoldable pub throw_if : Bool → Error → St S (Unit {0})
  throw_if true e s = (err e, s)
  throw_if false e s = (ok tt, s)

  -- `if (!x) throw e`, with `x` from then on
  unfoldable pub some_or_throw : {A : Type 0} → Option A → Error → St S A
  some_or_throw none e s = (err e, s)
  some_or_throw (some a) e s = (ok a, s)

  unfoldable pub gets : {A : Type 0} → (S → A) → St S A
  gets f s = (ok (f s), s)

  -- `if (test) { … }`
  unfoldable pub when : Bool → St S (Unit {0}) → St S (Unit {0})
  when true m s = m s
  when false m s = (ok tt, s)

  -- `if (test) { return … } …`
  unfoldable pub branch : {A : Type 0} → Bool → St S A → St S A → St S A
  branch true m k s = m s
  branch false m k s = k s

  -- `try { check } catch { throw e }`
  unfoldable pub or_throw : Result (Unit {0}) → Error → St S (Unit {0})
  or_throw (ok a) e s = (ok tt, s)
  or_throw (err e') e s = (err e, s)

  -- a check that throws its own error
  unfoldable pub lift_result : Result (Unit {0}) → St S (Unit {0})
  lift_result r s = (r, s)

-- what follows a step: nothing, once it has thrown
abbrev pub continue : {S A B : Type 0} → (A → St S B) → Result A × S → Result B × S
continue f (ok a, s) = f a s
continue f (err e, s) = (err e, s)

-- Opening the bind opens the steps above too.
infixl 5 ◌>>=◌ ◌>>◌
unfoldable pub ◌>>=◌ : {S A B : Type 0} → St S A → (A → St S B) → St S B
unfolding pure throw_if some_or_throw gets when branch or_throw lift_result
◌>>=◌ m f s = continue f (m s)

abbrev pub ◌>>◌ : {S B : Type 0} → St S (Unit {0}) → St S B → St S B
m >> k = m >>= λ _. k
