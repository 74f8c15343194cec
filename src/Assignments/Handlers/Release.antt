-- ===== src/Assignments/Handlers/Release.antt =====
-- The handlers of early release move assignments along the table of allowed transitions only.
use guardian_backend_service.Prelude.{ℕ, ◌≡◌, Option, some, String, arith}
use guardian_backend_service.Prelude.Table.{find}
use guardian_backend_service.Prelude.Effect.{ok, ◌>>=◌}
use guardian_backend_service.Prelude.Effect.Rules.{
  Run, Run-gets, Run-guard, Run-quiet, Run-bind, Run-pure,
}
use guardian_backend_service.Data.{
  on_site, early_release_requested, AuthUser, Assignment, Job, Store, Action,
}
use guardian_backend_service.Policies.{assert_org_member}
use guardian_backend_service.Assignments.Advance.{Follows, Follows-refl}
use guardian_backend_service.Assignments.Commits.{
  FollowsFrom, Keeps, Run-step, Run-Keeps, follow_rules,
}
use guardian_backend_service.Assignments.Reads.{Run-own, Run-any, Joined, same_status}
use guardian_backend_service.Assignments.Follow.{
  commit_early_release-Run, commit_reject_release-Run, commit_approve_release-Keeps,
}
use guardian_backend_service.Assignments.EarlyRelease.{
  request_early_release, check_release_request, approve_early_release, reject_early_release,
  auto_approve_early_release, release_terms, approve_release_of, reject_release_of,
  get_assignment_for_client_action,
}

check_release_request-quiet :
    (a : Assignment) (j : Job) (s : Store)
    → ((check_release_request a j s).1 ≡ s)
      × ((check_release_request a j s).0 ≡ ok tt → a.status ≡ on_site)
unfolding check_release_request ◌>>=◌
check_release_request-quiet a j s = ground arith

pub request_early_release-Follows :
    (id guardian : ℕ) (reason : String) (s : Store)
    → Follows s (request_early_release id guardian reason s).1
unfolding request_early_release
request_early_release-Follows id guardian reason s = run.at
  where
    run : Run (FollowsFrom s) (request_early_release id guardian reason) s
    run = Run-own id guardian _ s (Follows-refl s) λ a j o.
        Run-quiet _ _ s (check_release_request-quiet a j s).0 (λ e. Follows-refl s)
          λ u checked. Run-gets _ _ s (
            Run-step s _ _ s
              (commit_early_release-Run id s a o.joined.row reason (release_terms s.now j)
                ((check_release_request-quiet a j s).1 checked))
              (λ r. search follow_rules depth 10))

assert_org_member-quiet :
    (org : ℕ) (actor : AuthUser) (s : Store) → (assert_org_member org actor s).1 ≡ s
unfolding assert_org_member ◌>>=◌
assert_org_member-quiet org actor s = ground arith

module _ (id : ℕ) (actor : AuthUser) (s : Store) where
  -- what the caller may act on is a row of the database
  client-Run :
      (k : Assignment × Job → Action Assignment)
      → ((a : Assignment) (j : Job) → Joined id s a j → Run (FollowsFrom s) (k (a, j)) s)
      → Run (FollowsFrom s) (get_assignment_for_client_action id actor >>= k) s
  unfolding get_assignment_for_client_action
  client-Run k h = Run-bind _ k s (
      Run-any id _ s (Follows-refl s) λ a j o.
        Run-quiet _ _ s (assert_org_member-quiet j.organization_id actor s) (λ e. Follows-refl s)
          λ u _. Run-pure _ s (h a j o).at)

  approve_release_of-Run : (a : Assignment) → Run (FollowsFrom s) (approve_release_of id actor a) s
  unfolding approve_release_of
  approve_release_of-Run a =
      Run-Keeps _ s (search (follow_rules, commit_approve_release-Keeps) depth 10)

  pub approve_early_release-Follows : Follows s (approve_early_release id actor s).1
  unfolding approve_early_release
  approve_early_release-Follows = run.at
    where
      run : Run (FollowsFrom s) (approve_early_release id actor) s
      run = client-Run _ λ a j o. approve_release_of-Run a

  reject_release_of-Run :
      (remark : Option String) (a : Assignment)
      → find id s.assignments ≡ some a
      → Run (FollowsFrom s) (reject_release_of id actor remark a) s
  unfolding reject_release_of
  reject_release_of-Run remark a row = Run-guard _ _ _ s (Follows-refl s) λ on.
      Run-step s _ _ s
        (commit_reject_release-Run id s a row remark
          (same_status a.status early_release_requested on))
        (λ r. search follow_rules depth 10)

  pub reject_early_release-Follows :
      (remark : Option String) → Follows s (reject_early_release id actor remark s).1
  unfolding reject_early_release
  reject_early_release-Follows remark = run.at
    where
      run : Run (FollowsFrom s) (reject_early_release id actor remark) s
      run = client-Run _ λ a j o. reject_release_of-Run remark a o.row

pub auto_approve-Keeps : (id : ℕ) → Keeps (auto_approve_early_release id)
unfolding auto_approve_early_release
auto_approve-Keeps id = search (follow_rules, commit_approve_release-Keeps) depth 10
