-- ===== src/Billing/Night.antt =====
-- Which shifts `isNightShift` of src/common/config/booking-policy.config.ts calls night shifts.
use guardian_backend_service.Prelude.{
  ℕ, zero, suc, ◌+◌, ◌-◌, ◌*◌, ◌/◌, ◌%◌, ◌≤◌, ◌<◌, ◌≡◌, ◌↔◌, refl, true, arith, Bool-cases, inl,
  inr, sym,
}
use guardian_backend_service.Billing.Booking.{
  hour_ms, utc_hour, is_night_hour, is_night_from, is_night_shift,
}

-- after some full hours from the start, and before the end, it is night
abbrev pub IsNightAtStep : ℕ → ℕ → Type 0
IsNightAtStep start end =
    (k : ℕ) × (start + k * hour_ms < end) × (is_night_hour (start + k * hour_ms) ≡ true)

shift_hour : (c k : ℕ) → c + hour_ms + k * hour_ms ≡ c + suc k * hour_ms
shift_hour c k = omega arith

night_from_sound : (fuel c e : ℕ) → is_night_from fuel c e ≡ true → IsNightAtStep c e
unfolding is_night_from
night_from_sound zero c e h = absurd (ground arith)
night_from_sound (suc fuel) c e h = elim (Bool-cases (is_night_hour c)) [
  | inl n ↦ (0, ground arith, ground arith)
  | inr n ↦
      let (k, within, night) = night_from_sound fuel (c + hour_ms) e (ground arith) in
      (suc k, ground (arith, shift_hour c k), rw (sym (shift_hour c k)) night)
]

night_from_complete :
    (fuel c e k : ℕ)
    → k < fuel
    → c + k * hour_ms < e
    → is_night_hour (c + k * hour_ms) ≡ true
    → is_night_from fuel c e ≡ true
unfolding is_night_from
night_from_complete zero c e k h within night = absurd (omega arith)
night_from_complete (suc fuel) c e zero h within night = ground arith
night_from_complete (suc fuel) c e (suc k) h within night = ground (
  arith,
  night_from_complete fuel (c + hour_ms) e k (omega arith) (omega arith)
      (rw (shift_hour c k) night),
)

-- The loop of `isNightShift` has enough steps, and finds a shift to be at night exactly if it is night
-- at its start or some full hours later, before its end.
pub is_night_shift_iff :
    (start end : ℕ) → (is_night_shift start end ≡ true) ↔ IsNightAtStep start end
unfolding is_night_shift
is_night_shift_iff start end = (
  night_from_sound (suc ((end - start) / hour_ms)) start end,
  λ (k, within, night).
      night_from_complete (suc ((end - start) / hour_ms)) start end k (omega arith) within night,
)

full_hours :
    (start t k : ℕ)
    → start % hour_ms ≡ 0
    → start ≤ t
    → k ≡ (t - start) / hour_ms
    → utc_hour (start + k * hour_ms) ≡ utc_hour t
full_hours start t k aligned h e = omega arith

-- A shift that begins at a full hour is at night exactly if it is night at some time in it.
pub aligned_shift_iff :
    (start end : ℕ)
    → start % hour_ms ≡ 0
    → (is_night_shift start end ≡ true)
      ↔ ((t : ℕ) × (start ≤ t) × (t < end) × (is_night_hour t ≡ true))
aligned_shift_iff start end aligned = (
  λ h.
      let (k, within, night) = (is_night_shift_iff start end).0 h in
      (start + k * hour_ms, omega arith, within, night),
  λ (t, from, to, night).
      let k = (t - start) / hour_ms in
      (is_night_shift_iff start end).1
        (k, omega arith, ground (arith, full_hours start t k aligned from refl)),
)
