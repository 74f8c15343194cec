-- ===== src/Billing/Booking.antt =====
-- The booking policy (src/common/config/booking-policy.config.ts): the surcharge for a night shift and
-- the split of the revenue.
use guardian_backend_service.Prelude.{
  ℕ, zero, suc, ◌+◌, ◌-◌, ◌*◌, ◌/◌, ◌%◌, Bool, false, ◌&&◌, ◌||◌, leb, ltb, if◌then◌else◌,
}
use guardian_backend_service.Data.Money.{BookingPolicy}

abbrev pub hour_ms : ℕ
hour_ms = 3600000

-- `getUTCHours`
abbrev pub utc_hour : ℕ → ℕ
utc_hour t = t / hour_ms % 24

abbrev pub is_night_hour : ℕ → Bool
is_night_hour t = leb 22 (utc_hour t) || ltb (utc_hour t) 6

-- the loop of `isNightShift`, which steps the cursor by an hour
unfoldable pub is_night_from : ℕ → ℕ → ℕ → Bool
is_night_from zero cursor end = false
is_night_from (suc fuel) cursor end =
    ltb cursor end && (is_night_hour cursor || is_night_from fuel (cursor + hour_ms) end)

unfoldable pub is_night_shift : ℕ → ℕ → Bool
unfolding is_night_from
is_night_shift start end = is_night_from (suc ((end - start) / hour_ms)) start end

-- the multiplier in ten-thousandths
unfoldable pub compute_surcharge_multiplier : ℕ → ℕ → BookingPolicy → Bool → ℕ
unfolding is_night_shift
compute_surcharge_multiplier start end p is_public_holiday =
    10000
    + (if is_night_shift start end then p.night_surcharge_min_pct else 0)
    + (if is_public_holiday then p.holiday_surcharge_min_pct else 0)

-- the four shares, in ten-thousandths of the unit of the gross amount
pub record RevenueSplit : Type 0 where
  pub guardian : ℕ
  pub platform : ℕ
  pub gateway : ℕ
  pub reserve : ℕ

unfoldable pub compute_revenue_split : ℕ → BookingPolicy → RevenueSplit
compute_revenue_split gross p = record {
  guardian = gross * p.guardian_share_pct;
  platform = gross * p.platform_share_pct;
  gateway = gross * p.gateway_share_pct;
  reserve = gross * p.reserve_share_pct;
}
