-- ===== src/Assignments/Handlers.antt =====
-- Every handler but a no-show moves assignments along the table of allowed transitions only:
-- early release and replacement.
pub mod Release
pub mod OnSite
pub mod Offers
pub mod NoShow
use guardian_backend_service.Prelude.{ℕ, Option, String, Bool, true, false}
use guardian_backend_service.Prelude.Effect.{◌>>=◌}
use guardian_backend_service.Prelude.Effect.Rules.{
  Run, Run-guard, Run-check, Run-branch, Run-gets, Run-some, Run-pure,
}
use guardian_backend_service.Data.{
  on_site, en_route, replacement_requested, early_release_requested, AuthUser, Store, assignment_eq,
}
use guardian_backend_service.Policies.{assert_org_member}
use guardian_backend_service.Assignments.Advance.{Follows, Follows-refl}
use guardian_backend_service.Assignments.Commits.{
  FollowsFrom, Keeps, Run-step, Run-Keeps, follow_rules,
}
use guardian_backend_service.Assignments.Reads.{Run-own, Run-any, same_status}
use guardian_backend_service.Assignments.Follow.{
  commit_request_replacement-Run, commit_deny_replacement-Run, commit_approve_replacement-Run,
  commit_early_release-Run, commit_reject_release-Run, commit_approve_release-Keeps,
}
use guardian_backend_service.Assignments.Replacement.{
  request_replacement, deny_replacement, approve_replacement,
}
use guardian_backend_service.Assignments.EarlyRelease.{
  request_early_release, check_release_request, approve_early_release, reject_early_release,
  auto_approve_early_release, release_terms,
}

pub request_replacement-Follows :
    (id guardian : ℕ) (reason : String) (s : Store)
    → Follows s (request_replacement id guardian reason s).1
unfolding request_replacement
request_replacement-Follows id guardian reason s = run.at
  where
    run : Run (FollowsFrom s) (request_replacement id guardian reason) s
    run = Run-own id guardian _ s (Follows-refl s) λ a j o. Run-guard _ _ _ s (Follows-refl s) λ on.
        Run-guard _ _ _ s (Follows-refl s) λ _. Run-guard _ _ _ s (Follows-refl s) λ _.
          Run-check _ _ _ s (Follows-refl s) λ _.
            Run-step s _ _ s
              (commit_request_replacement-Run id s a o.joined.row reason
                (same_status a.status on_site on))
              (λ r. search follow_rules depth 10)

pub deny_replacement-Follows :
    (id actor : ℕ) (remark : Option String) (s : Store)
    → Follows s (deny_replacement id actor remark s).1
unfolding deny_replacement
deny_replacement-Follows id actor remark s = run.at
  where
    run : Run (FollowsFrom s) (deny_replacement id actor remark) s
    run = Run-any id _ s (Follows-refl s) λ a j o. Run-guard _ _ _ s (Follows-refl s) λ on.
        Run-step s _ _ s
          (commit_deny_replacement-Run id s a o.row actor remark
            (same_status a.status replacement_requested on))
          (λ r. search follow_rules depth 10)

pub approve_replacement-Follows :
    (id actor : ℕ) (s : Store) → Follows s (approve_replacement id actor s).1
unfolding approve_replacement
approve_replacement-Follows id actor s = run.at
  where
    run : Run (FollowsFrom s) (approve_replacement id actor) s
    run = Run-any id _ s (Follows-refl s) λ a j o. Run-guard _ _ _ s (Follows-refl s) λ on.
        Run-guard _ _ _ s (Follows-refl s) λ _.
          Run-step s _ _ s
            (commit_approve_replacement-Run id s a o.row actor
              (same_status a.status replacement_requested on))
            (λ r. search follow_rules depth 10)
