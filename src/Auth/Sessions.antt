-- ===== src/Auth/Sessions.antt =====
-- What becomes of the session of a one-time code (src/auth/otp.service.ts).
use guardian_backend_service.Prelude.{
  ℕ, ◌≤◌, ◌<◌, ◌≡◌, ◌≢◌, ◌⊎◌, inl, inr, refl, Bool, true, Option, none, some, ◌∷◌, arith, leb,
  is_some, Bool-cases,
}
use guardian_backend_service.Prelude.Table.{Table, find, find_where, modify}
use guardian_backend_service.Prelude.Table.Laws.{
  find-modify_ne, find-modify_self, HasKeys, modify-HasKeys, find_where-find,
}
use guardian_backend_service.Prelude.Effect.{ok, ◌>>=◌}
use guardian_backend_service.Auth.Otp.{
  OtpSession, new_session, create_session, update_session, request_otp, is_open_for, count_attempt,
  mark_verified, verify_otp, max_attempts,
}

-- verified, or out of attempts
abbrev pub IsClosed : OtpSession → Type 0
IsClosed o = (is_some o.verified_at ≡ true) ⊎ (max_attempts ≤ o.attempts)

module _ (compare : ℕ → ℕ → Bool) (now phone code : ℕ) (t : Table OtpSession) where
  -- a session that a verification writes is open, with attempts left
  IsWritten : Table OtpSession → Type 0
  IsWritten u =
      (id : ℕ) × (o : OtpSession) × (f : OtpSession → OtpSession) × (find_where
          (is_open_for now phone) t
        ≡ some (id, o))
      × (o.attempts < max_attempts)
      × (u ≡ modify id f t)

  verify-ways :
      ((verify_otp compare now phone code t).1 ≡ t)
      ⊎ IsWritten (verify_otp compare now phone code t).1
  unfolding verify_otp ◌>>=◌ IsWritten update_session
  verify-ways = by_row (find_where (is_open_for now phone) t) refl
    where
      by_row :
          (r : Option (ℕ × OtpSession))
          → find_where (is_open_for now phone) t ≡ r
          → ((verify_otp compare now phone code t).1 ≡ t)
            ⊎ IsWritten (verify_otp compare now phone code t).1
      by_row none e = inl (ground arith)
      by_row (some (id, o)) e = elim (Bool-cases (leb max_attempts o.attempts)) [
        | inl spent ↦ inl (ground arith)
        | inr left ↦ elim (Bool-cases (compare code o.otp_hash)) [
          | inl same ↦ inr (id, o, mark_verified now, e, ground arith, ground arith)
          | inr wrong ↦ inr (id, o, count_attempt, e, ground arith, ground arith)
        ]
      ]

  verify-closed :
      (k : ℕ) (o : OtpSession)
      → HasKeys t
      → find k t ≡ some o
      → IsClosed o
      → find k (verify_otp compare now phone code t).1 ≡ some o
  unfolding IsWritten
  verify-closed k o keyed row closed = elim verify-ways [
    | inl same ↦ rw same row
    | inr (id, q, f, found, left, written) ↦
        let (there, passes) = find_where-find (is_open_for now phone) t id q keyed found in
        let other : k ≢ id = λ e. ground arith in
        ground (arith, written, find-modify_ne k id f t other)
  ]

  verify-HasKeys : HasKeys t → HasKeys (verify_otp compare now phone code t).1
  unfolding IsWritten
  verify-HasKeys keyed = elim verify-ways [
    | inl same ↦ rw same keyed
    | inr (id, q, f, found, left, written) ↦ rw written (modify-HasKeys id f t keyed)
  ]

  -- A code is accepted only against a session of that phone number that is unverified, has not
  -- expired, has attempts left and has the hash of the code; the session is verified from then on.
  -- Ids are unique.
  pub verify_otp-accepts :
      HasKeys t
      → (verify_otp compare now phone code t).0 ≡ ok phone
      → (id : ℕ) × (o : OtpSession) × (find id t ≡ some o)
        × (o.phone_number ≡ phone)
        × (o.verified_at ≡ none)
        × (now < o.expires_at)
        × (o.attempts < max_attempts)
        × (compare code o.otp_hash ≡ true)
        × (find id (verify_otp compare now phone code t).1 ≡ some (mark_verified now o))
  unfolding verify_otp ◌>>=◌ update_session
  verify_otp-accepts keyed h = by_row (find_where (is_open_for now phone) t) refl
    where
      by_row :
          (r : Option (ℕ × OtpSession))
          → find_where (is_open_for now phone) t ≡ r
          → (id : ℕ) × (o : OtpSession) × (find id t ≡ some o)
            × (o.phone_number ≡ phone)
            × (o.verified_at ≡ none)
            × (now < o.expires_at)
            × (o.attempts < max_attempts)
            × (compare code o.otp_hash ≡ true)
            × (find id (verify_otp compare now phone code t).1 ≡ some (mark_verified now o))
      by_row none e = absurd (ground arith)
      by_row (some (id, o)) e =
          let (there, passes) = find_where-find (is_open_for now phone) t id o keyed e in
          (
            id,
            o,
            there,
            ground arith,
            ground arith,
            ground arith,
            ground arith,
            ground arith,
            ground (arith, find-modify_self id (mark_verified now) t o there),
          )

module _ (now phone id hash : ℕ) (delivered : Bool) (t : Table OtpSession) where
  request-ways :
      ((request_otp now phone id hash delivered t).1 ≡ t)
      ⊎ ((request_otp now phone id hash delivered t).1 ≡ (id, new_session now phone hash) ∷ t)
  unfolding request_otp ◌>>=◌ create_session
  request-ways = ground arith

  request-closed :
      (k : ℕ) (o : OtpSession)
      → find id t ≡ none
      → find k t ≡ some o
      → find k (request_otp now phone id hash delivered t).1 ≡ some o
  unfolding find
  request-closed k o fresh row = ground (arith, request-ways)

  request-HasKeys :
      find id t ≡ none → HasKeys t → HasKeys (request_otp now phone id hash delivered t).1
  request-HasKeys fresh keyed = elim request-ways [
    | inl same ↦ rw same keyed
    | inr made ↦ rw made (fresh, keyed)
  ]

-- a history of requests to the service; a new session has a new id
pub data Visits (s : Table OtpSession) : Table OtpSession → Type 0 where
  none_yet : Visits s s
  requested :
      {t : Table OtpSession}
      → Visits s t
      → (now phone id hash : ℕ) (delivered : Bool) → find id t ≡ none
      → Visits s (request_otp now phone id hash delivered t).1
  tried :
      {t : Table OtpSession}
      → Visits s t
      → (compare : ℕ → ℕ → Bool) (now phone code : ℕ)
      → Visits s (verify_otp compare now phone code t).1

Visits-HasKeys : {s t : Table OtpSession} → Visits s t → HasKeys s → HasKeys t
Visits-HasKeys none_yet keyed = keyed
Visits-HasKeys (requested {t = t} v now phone id hash delivered fresh) keyed =
    request-HasKeys now phone id hash delivered t fresh (Visits-HasKeys v keyed)
Visits-HasKeys (tried {t = t} v compare now phone code) keyed =
    verify-HasKeys compare now phone code t (Visits-HasKeys v keyed)

-- A session that is verified, or that has had five wrong codes, keeps its row whatever codes are
-- asked for and tried. Ids are unique.
pub closed_session_stays :
    {s t : Table OtpSession} (k : ℕ) (o : OtpSession)
    → Visits s t
    → HasKeys s
    → find k s ≡ some o
    → IsClosed o
    → find k t ≡ some o
closed_session_stays k o none_yet keyed row closed = row
closed_session_stays k o (requested {t = t} v now phone id hash delivered fresh) keyed row closed =
    request-closed now phone id hash delivered t k o fresh
      (closed_session_stays k o v keyed row closed)
closed_session_stays k o (tried {t = t} v compare now phone code) keyed row closed =
    verify-closed compare now phone code t k o (Visits-HasKeys v keyed)
      (closed_session_stays k o v keyed row closed) closed
