-- ===== src/Dispatching/Certificates.antt =====
-- The two checks of certificates: at the start of a shift (src/guardians/guardian-eligibility.service.ts)
-- and at a dispatch (src/guardians/guardian-dispatch-eligibility.service.ts).
use guardian_backend_service.Prelude.{
  ℕ, ◌≡◌, ◌↔◌, ◌<◌, Bool, true, false, none, some, List, [], ◌∷◌, arith, any_of, ◌==◌, ◌/◌, nat_eq,
  ◌&&◌, includes, Option-cases, inl, inr,
}
use guardian_backend_service.Prelude.Table.{find}
use guardian_backend_service.Prelude.Effect.{ok, err, certification_required, ◌>>=◌}
use guardian_backend_service.Data.{Certification, Guardian, Store, shift_eq}
use guardian_backend_service.Guardians.ShiftState.{
  is_valid_cert, assert_profile_eligible, assert_dispatch_eligible,
}
use guardian_backend_service.Dispatching.Eligibility.{is_current_cert, is_free, is_eligible}

-- the certificate expires on the present day
abbrev pub expires_today : ℕ → Certification → Bool
expires_today now c = elim c.expiry_date [ none ↦ false | some d ↦ d / 86400000 == now / 86400000 ]

valid-current :
    (now : ℕ) (c : Certification) → is_valid_cert now c ≡ true → is_current_cert now c ≡ true
valid-current now c h = elim (Option-cases c.expiry_date) [
  | inl e ↦ ground arith
  | inr (d, e) ↦ ground arith
]

current-valid :
    (now : ℕ) (c : Certification)
    → is_current_cert now c ≡ true
    → expires_today now c ≡ false
    → is_valid_cert now c ≡ true
current-valid now c h other_day = elim (Option-cases c.expiry_date) [
  | inl e ↦ ground arith
  | inr (d, e) ↦ ground arith
]

any-valid-current :
    (now : ℕ) (cs : List Certification)
    → any_of (is_valid_cert now) cs ≡ true
    → any_of (is_current_cert now) cs ≡ true
any-valid-current now [] h = h
any-valid-current now (c ∷ cs) h = ground (arith, valid-current now c, any-valid-current now cs)

any-current-valid :
    (now : ℕ) (cs : List Certification)
    → any_of (is_current_cert now) cs ≡ true
    → any_of (expires_today now) cs ≡ false
    → any_of (is_valid_cert now) cs ≡ true
any-current-valid now [] h other_day = h
any-current-valid now (c ∷ cs) h other_day =
    ground (arith, current-valid now c, any-current-valid now cs)

-- of the conditions on a dispatch, those that the start of a shift checks too
profile-eligible :
    (district id : ℕ) (g : Guardian) (s : Store)
    → is_free (find id s.shift_states) ≡ true
    → includes g.districts district ≡ true
    → is_eligible s district (id, g)
      ≡ (g.is_active && g.is_verified && any_of (is_current_cert s.now) g.certifications)
unfolding is_eligible
profile-eligible district id g s free near = ground arith

-- the three checks of the start of a shift
abbrev passes_profile : ℕ → Guardian → Bool
passes_profile now g = g.is_active && g.is_verified && any_of (is_valid_cert now) g.certifications

profile-passes :
    (id : ℕ) (g : Guardian) (s : Store)
    → find id s.guardians ≡ some g
    → (assert_dispatch_eligible id s ≡ (ok tt, s)) ↔ (passes_profile s.now g ≡ true)
unfolding assert_dispatch_eligible assert_profile_eligible ◌>>=◌
profile-passes id g s row = (λ h. ground arith, λ h. ground arith)

profile-fails :
    (id : ℕ) (g : Guardian) (s : Store)
    → find id s.guardians ≡ some g
    → g.is_active ≡ true
    → g.is_verified ≡ true
    → any_of (is_valid_cert s.now) g.certifications ≡ false
    → assert_dispatch_eligible id s ≡ (err certification_required, s)
unfolding assert_dispatch_eligible assert_profile_eligible ◌>>=◌
profile-fails id g s row active verified none_valid = ground arith

past-today :
    (now d : ℕ) (c : Certification)
    → c.is_verified ≡ true
    → c.expiry_date ≡ some d
    → d / 86400000 ≡ now / 86400000
    → d < now
    → (is_current_cert now c ≡ true) × (is_valid_cert now c ≡ false)
past-today now d c verified expiry today past = (ground arith, ground arith)

-- The checks of a guardian at the start of a shift and at a dispatch, for one who is free and works in
-- the district: who passes the former passes the latter; who passes the latter passes the former, if
-- none of the guardian's certificates expires today; and an active and verified guardian whose only
-- certificate has expired earlier today passes the dispatch and is refused the shift.
pub shift_or_dispatch :
    (district id : ℕ) (g : Guardian) (s : Store)
    → find id s.guardians ≡ some g
    → is_free (find id s.shift_states) ≡ true
    → includes g.districts district ≡ true
    → (assert_dispatch_eligible id s ≡ (ok tt, s) → is_eligible s district (id, g) ≡ true)
      × (is_eligible s district (id, g) ≡ true
          → any_of (expires_today s.now) g.certifications ≡ false
          → assert_dispatch_eligible id s ≡ (ok tt, s))
      × ((c : Certification) (d : ℕ)
          → g.is_active ≡ true
          → g.is_verified ≡ true
          → g.certifications ≡ c ∷ []
          → c.is_verified ≡ true
          → c.expiry_date ≡ some d
          → d / 86400000 ≡ s.now / 86400000
          → d < s.now
          → (is_eligible s district (id, g) ≡ true)
            × (assert_dispatch_eligible id s ≡ (err certification_required, s)))
shift_or_dispatch district id g s row free near =
    let eligible = profile-eligible district id g s free near in
    let passes = profile-passes id g s row in
    let certs = g.certifications in
    (
      λ h. ground (arith, eligible, passes.0 h, any-valid-current s.now certs),
      λ h other_day.
          passes.1 (ground (arith, eligible, h, any-current-valid s.now certs, other_day)),
      λ c d active verified only cert expiry today past.
          let (current, invalid) = past-today s.now d c cert expiry today past in
          (
            ground (arith, eligible, active, verified, only, current),
            profile-fails id g s row active verified (rw only (ground (arith, invalid))),
          ),
    )
