-- ===== src/Policies.antt =====
-- ResourceOwnerPolicy (src/common/policies/resource-owner.policy.ts): who may act for an
-- organization.
pub mod Setup
use guardian_backend_service.Prelude.{
  ℕ, Bool, List, ◌==◌, ◌&&◌, ◌||◌, not, includes, any_of, first_of_two, is_the, nat_eq, is_some,
  true, false, Option, none, some,
}
use guardian_backend_service.Prelude.Effect.{
  ◌>>=◌, ◌>>◌, pure, branch, throw_if, some_or_throw, gets, no_org_access, job_not_found,
  guardian_scope_mismatch,
}
use guardian_backend_service.Data.{
  role_eq, super_admin, ops_admin, AuthUser, Assignment, Job, Action, find_job,
}
use guardian_backend_service.Prelude.Table.{Table, find_where}

abbrev pub is_ops : AuthUser → Bool
is_ops actor = includes actor.roles super_admin || includes actor.roles ops_admin

-- the row of organization_users
abbrev pub is_member : ℕ → ℕ → List (ℕ × ℕ) → Bool
is_member org user members = any_of (λ m. m.0 == org && m.1 == user) members

abbrev pub claims_org : ℕ → AuthUser → Bool
claims_org org actor =
    is_the (first_of_two actor.active_org_id actor.org_id) org
    || includes actor.organization_ids org

unfoldable pub has_org_access : ℕ → AuthUser → List (ℕ × ℕ) → Bool
has_org_access org actor members =
    is_ops actor || (claims_org org actor && is_member org actor.sub members)

unfoldable pub assert_org_member : ℕ → AuthUser → Action (Unit {0})
unfolding has_org_access
assert_org_member org actor = do
  members ← gets λ s. s.members
  throw_if (not (has_org_access org actor members)) no_org_access

abbrev pub works_on : ℕ → Option ℕ → Table Assignment → Bool
works_on job none t = false
works_on job (some guardian) t =
    is_some (find_where (λ a. a.job_id == job && a.guardian_id == guardian) t)

unfoldable pub assert_job_access : ℕ → AuthUser → Action Job
unfolding find_job assert_org_member
assert_job_access id actor = do
  job ← some_or_throw (← find_job id) job_not_found
  rows ← gets λ s. s.assignments
  branch (is_ops actor || works_on id actor.guardian_id rows) (pure job)
      (do assert_org_member job.organization_id actor; pure job)

unfoldable pub assert_guardian_self : ℕ → AuthUser → Action (Unit {0})
assert_guardian_self guardian actor =
    throw_if (not (is_ops actor) && not (is_the actor.guardian_id guardian)) guardian_scope_mismatch
