-- ===== src/Guardians/ShiftState.antt =====
-- ShiftStateService (src/guardians/shift-state.service.ts) and the profile check of
-- GuardianEligibilityService (src/guardians/guardian-eligibility.service.ts).
use guardian_backend_service.Prelude.{
  ℕ, Bool, true, false, Option, none, some, ◌===◌, ◌&&◌, not, any_of, ltb, if◌then◌else◌, ◌∷◌,
}
use guardian_backend_service.Prelude.Table.{find, modify}
use guardian_backend_service.Prelude.Effect.{
  Result, ok, ◌>>=◌, ◌>>◌, pure, throw_if, some_or_throw, gets, branch, guardian_not_active,
  guardian_not_verified, certification_required, guardian_not_found, shift_state_not_found,
}
use guardian_backend_service.Data.{
  shift_eq, available, busy, off_duty, Certification, Guardian, ShiftState, Store, Action,
  update_shift,
}

-- `hasValidCert`: verified, with no expiry date or one that is not past
abbrev pub is_valid_cert : ℕ → Certification → Bool
is_valid_cert now c =
    c.is_verified && (elim c.expiry_date [ none ↦ true | some d ↦ not (ltb d now) ])

unfoldable pub assert_profile_eligible : ℕ → Guardian → Action (Unit {0})
assert_profile_eligible now g = do
  throw_if (not g.is_active) guardian_not_active
  throw_if (not g.is_verified) guardian_not_verified
  throw_if (not (any_of (is_valid_cert now) g.certifications)) certification_required

unfoldable pub assert_dispatch_eligible : ℕ → Action (Unit {0})
unfolding assert_profile_eligible
assert_dispatch_eligible id = do
  guardian ← some_or_throw (← gets λ s. find id s.guardians) guardian_not_found
  now ← gets λ s. s.now
  assert_profile_eligible now guardian

abbrev pub started : ℕ → Option ℕ → ShiftState
started now ends_at = record {
  shift_status = available;
  available_for_jobs = true;
  shift_started_at = some now;
  shift_ends_at = ends_at;
}

-- the columns that `startShift` updates: an end that is not given is left as it is
abbrev pub restart : ℕ → Option ℕ → ShiftState → ShiftState
restart now none w = record (started now w.shift_ends_at) { shift_status = available }
restart now (some e) w = started now (some e)

unfoldable pub upsert_shift : ℕ → Option ℕ → Action (Unit {0})
upsert_shift id ends_at s = elim (find id s.shift_states) [
  | none ↦ (ok tt, record s { shift_states = (id, started s.now ends_at) ∷ s.shift_states })
  | some w ↦ (ok tt, record s { shift_states = modify id (restart s.now ends_at) s.shift_states })
]

unfoldable pub start_shift : ℕ → Option ℕ → Action (Unit {0})
unfolding upsert_shift
start_shift id ends_at = do assert_dispatch_eligible id; upsert_shift id ends_at

-- The error of `startShift` is logged and dropped.
abbrev pub ignore_error : Result (Unit {0}) × Store → Result (Unit {0}) × Store
ignore_error (r, s) = (ok tt, s)

unfoldable pub auto_start_on_login : ℕ → Action (Unit {0})
auto_start_on_login id s = elim (find id s.shift_states) [
  | none ↦ ignore_error (start_shift id none s)
  | some w ↦
      if not (w.shift_status === off_duty) then (ok tt, s) else ignore_error (start_shift id none s)
]

abbrev pub ended : ShiftState → ShiftState
ended w = record w {
  shift_status = off_duty;
  available_for_jobs = false;
  shift_started_at = none;
  shift_ends_at = none;
}

unfoldable pub end_shift : ℕ → Action (Unit {0})
unfolding update_shift
end_shift id = update_shift id ended

abbrev pub made_busy : ShiftState → ShiftState
made_busy w = record w { shift_status = busy; available_for_jobs = false }

unfoldable pub set_busy : ℕ → Action (Unit {0})
unfolding update_shift
set_busy id = update_shift id made_busy

abbrev pub made_available : ShiftState → ShiftState
made_available w = record w { shift_status = available; available_for_jobs = true }

unfoldable pub set_available : ℕ → Action (Unit {0})
unfolding update_shift
set_available id = do
  state ← some_or_throw (← gets λ s. find id s.shift_states) shift_state_not_found
  branch (state.shift_status === off_duty) (pure tt) (update_shift id made_available)
