-- ===== src/Policies/Setup.antt =====
-- PrimaryLocationSetupPolicy (src/common/policies/primary-location-setup.policy.ts): which organizations
-- may book.
use guardian_backend_service.Prelude.{ℕ, Bool, false, Option, none, some, ◌&&◌, not}
use guardian_backend_service.Prelude.Table.{find}
use guardian_backend_service.Prelude.Effect.{
  ◌>>=◌, ◌>>◌, gets, throw_if, some_or_throw, organization_not_found, org_pending_verification,
  location_setup_required,
}
use guardian_backend_service.Data.{Action, Store}
use guardian_backend_service.Data.Money.{Organization}

abbrev pub is_pinned : Option Bool → Bool
is_pinned none = false
is_pinned (some pinned) = pinned

unfoldable pub assert_can_book_jobs : ℕ → Action (Unit {0})
assert_can_book_jobs id = do
  org ← some_or_throw (← gets λ s. find id s.ledger.organizations) organization_not_found
  throw_if (not org.is_verified) org_pending_verification
  throw_if (not (is_pinned org.primary_location_pinned)) location_setup_required

-- `assertOrgVerifiedForMutations` of src/common/policies/organization-verification.policy.ts
unfoldable pub assert_org_verified_for_mutations : ℕ → Action (Unit {0})
assert_org_verified_for_mutations id = do
  org ← some_or_throw (← gets λ s. find id s.ledger.organizations) organization_not_found
  throw_if (not org.is_verified) org_pending_verification

pub record BookingEligibility : Type 0 where
  pub can_book_jobs : Bool
  pub needs_site_setup : Bool

abbrev pub eligibility_of : Option Organization → BookingEligibility
eligibility_of none = record { can_book_jobs = false; needs_site_setup = false }
eligibility_of (some org) = record {
  can_book_jobs = org.is_verified && is_pinned org.primary_location_pinned;
  needs_site_setup = org.is_verified && not (is_pinned org.primary_location_pinned);
}

unfoldable pub get_booking_eligibility : ℕ → Store → BookingEligibility
get_booking_eligibility id s = eligibility_of (find id s.ledger.organizations)
