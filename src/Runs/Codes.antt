-- ===== src/Runs/Codes.antt =====
-- One-time codes (src/auth/otp.service.ts).
use guardian_backend_service.Prelude.{ℕ, ◌≡◌, ◌<◌, inl, refl, Bool, none, some, [], ◌∷◌, ◌==◌}
use guardian_backend_service.Prelude.Table.{Table, find, find_where, modify}
use guardian_backend_service.Prelude.Table.Laws.{HasKeys}
use guardian_backend_service.Prelude.Effect.{ok, ◌>>=◌}
use guardian_backend_service.Auth.Otp.{
  OtpSession, new_session, request_otp, create_session, verify_otp, update_session, mark_verified,
  max_attempts,
}
use guardian_backend_service.Auth.Sessions.{Visits, tried, closed_session_stays, verify_otp-accepts}

-- a hash that is the code itself
abbrev is_hash_of : ℕ → ℕ → Bool
is_hash_of code hash = code == hash

abbrev sessions : Table OtpSession
sessions = (1, new_session 1000 788 4321) ∷ []

sessions-HasKeys : HasKeys sessions
unfolding find
sessions-HasKeys = (refl, tt)

requested_session : (request_otp 1000 788 1 4321 Bool.true []) ≡ (ok 1, sessions)
unfolding request_otp create_session find_where ◌>>=◌
requested_session = refl

right_code : (verify_otp is_hash_of 2000 788 4321 sessions).0 ≡ ok 788
unfolding verify_otp update_session find_where modify ◌>>=◌
right_code = refl

verify_otp-accepts_example :
    (id : ℕ) × (o : OtpSession) × (find id sessions ≡ some o)
    × (o.phone_number ≡ 788)
    × (o.verified_at ≡ none)
    × (2000 < o.expires_at)
    × (o.attempts < max_attempts)
    × (is_hash_of 4321 o.otp_hash ≡ Bool.true)
    × (find id (verify_otp is_hash_of 2000 788 4321 sessions).1 ≡ some (mark_verified 2000 o))
verify_otp-accepts_example =
    verify_otp-accepts is_hash_of 2000 788 4321 sessions sessions-HasKeys right_code

abbrev used : OtpSession
used = mark_verified 2000 (new_session 1000 788 4321)

abbrev used_sessions : Table OtpSession
used_sessions = (1, used) ∷ []

used_sessions-HasKeys : HasKeys used_sessions
unfolding find
used_sessions-HasKeys = (refl, tt)

closed_session_stays_example :
    find 1 (verify_otp is_hash_of 2500 788 4321 used_sessions).1 ≡ some used
unfolding find
closed_session_stays_example =
    closed_session_stays 1 used (tried Visits.none_yet is_hash_of 2500 788 4321)
      used_sessions-HasKeys refl (inl refl)
