-- ===== src/Auth/Otp.antt =====
-- OtpService (src/auth/otp.service.ts): a code is sent to a phone number, and verified once. The
-- table holds the sessions, the newest first. A phone number stands for its normal form, which is
-- only compared; a code and its hash are numbers.
use guardian_backend_service.Prelude.{
  ℕ, ◌+◌, Bool, true, false, Option, none, some, ◌∷◌, ◌==◌, ◌&&◌, leb, ltb, not, is_some,
}
use guardian_backend_service.Prelude.Table.{Table, find_where, modify}
use guardian_backend_service.Prelude.Effect.{
  St, ok, ◌>>=◌, ◌>>◌, pure, throw_if, some_or_throw, gets, branch, otp_already_sent,
  too_many_attempts, otp_not_delivered, otp_invalid, otp_attempts_exceeded,
}

pub record OtpSession : Type 0 where
  pub phone_number : ℕ
  pub otp_hash : ℕ
  pub created_at : ℕ
  pub expires_at : ℕ
  pub attempts : ℕ
  pub verified_at : Option ℕ

abbrev pub otp_ttl_ms : ℕ
otp_ttl_ms = 300000

abbrev pub otp_cooldown_ms : ℕ
otp_cooldown_ms = 60000

abbrev pub lockout_ms : ℕ
lockout_ms = 900000

abbrev pub max_attempts : ℕ
max_attempts = 5

-- `Date.now() - recent.createdAt < OTP_COOLDOWN_MS`, without the difference
abbrev pub is_cooling_down : ℕ → Option (ℕ × OtpSession) → Bool
is_cooling_down now none = false
is_cooling_down now (some (id, o)) = ltb now (o.created_at + otp_cooldown_ms)

abbrev pub is_locked : ℕ → Option (ℕ × OtpSession) → Bool
is_locked now none = false
is_locked now (some (id, o)) =
    leb max_attempts o.attempts
    && not (is_some o.verified_at)
    && ltb now (o.created_at + lockout_ms)

abbrev pub new_session : ℕ → ℕ → ℕ → OtpSession
new_session now phone hash = record {
  phone_number = phone;
  otp_hash = hash;
  created_at = now;
  expires_at = now + otp_ttl_ms;
  attempts = 0;
  verified_at = none;
}

unfoldable pub create_session : ℕ → OtpSession → St (Table OtpSession) (Unit {0})
create_session id o t = (ok tt, (id, o) ∷ t)

unfoldable pub update_session : ℕ → (OtpSession → OtpSession) → St (Table OtpSession) (Unit {0})
unfolding modify
update_session id f t = (ok tt, modify id f t)

-- `id` is the one that the database makes, `hash` the hash of the code that is drawn, and
-- `delivered` tells whether the message service took the message.
unfoldable pub request_otp : ℕ → ℕ → ℕ → ℕ → Bool → St (Table OtpSession) ℕ
unfolding create_session find_where
request_otp now phone id hash delivered = do
  recent ← gets (find_where λ o. o.phone_number == phone)
  throw_if (is_cooling_down now recent) otp_already_sent
  throw_if (is_locked now recent) too_many_attempts
  create_session id (new_session now phone hash)
  throw_if (not delivered) otp_not_delivered
  pure id

abbrev pub is_open_for : ℕ → ℕ → OtpSession → Bool
is_open_for now phone o =
    o.phone_number == phone && not (is_some o.verified_at) && ltb now o.expires_at

abbrev pub count_attempt : OtpSession → OtpSession
count_attempt o = record o { attempts = o.attempts + 1 }

abbrev pub mark_verified : ℕ → OtpSession → OtpSession
mark_verified now o = record o { verified_at = some now }

-- `compare` is bcrypt's: whether the hash is one of the code.
unfoldable pub verify_otp : (ℕ → ℕ → Bool) → ℕ → ℕ → ℕ → St (Table OtpSession) ℕ
unfolding update_session find_where
verify_otp compare now phone code = do
  otp ← some_or_throw (← gets (find_where (is_open_for now phone))) otp_invalid
  throw_if (leb max_attempts otp.1.attempts) otp_attempts_exceeded
  branch (not (compare code otp.1.otp_hash))
      (do update_session otp.0 count_attempt; throw_if true otp_invalid; pure phone)
      (do update_session otp.0 (mark_verified now); pure phone)
