-- ===== src/Assignments/Follow.antt =====
-- The commits of the handlers follow the table of allowed transitions, from the row that was read.
use guardian_backend_service.Prelude.{ℕ, ◌≡◌, Option, some, String}
use guardian_backend_service.Prelude.Table.{find}
use guardian_backend_service.Prelude.Effect.Rules.{Run}
use guardian_backend_service.Data.{
  assignment_eq, en_route, on_site, replacement_requested, early_release_requested, Assignment,
  Store, EarlyReleaseResolution,
}
use guardian_backend_service.Jobs.Lifecycle.{
  transition_to_seeking_replacement, transition_to_in_progress,
}
use guardian_backend_service.Assignments.Transitions.{allowed_transitions}
use guardian_backend_service.Assignments.Commits.{
  FollowsFrom, Keeps, Run-atomic, Run-step, Run-update_optimistic, follow_rules,
}
use guardian_backend_service.Assignments.OnSite.{commit_on_site}
use guardian_backend_service.Assignments.Replacement.{
  commit_request_replacement, commit_deny_replacement, commit_approve_replacement,
}
use guardian_backend_service.Assignments.EarlyRelease.{
  ReleaseTerms, commit_early_release, commit_reject_release, commit_approve_release,
}

module _ (id : ℕ) (s : Store) (a : Assignment) (row : find id s.assignments ≡ some a) where
  pub commit_request_replacement-Run :
      (reason : String)
      → a.status ≡ on_site
      → Run (FollowsFrom s) (commit_request_replacement id reason a) s
  unfolding commit_request_replacement allowed_transitions
  commit_request_replacement-Run reason e = Run-atomic _ s (
      Run-step s _ _ s (Run-update_optimistic id _ _ s a row (rw e))
        (λ updated. search follow_rules))

  pub commit_deny_replacement-Run :
      (actor : ℕ) (note : Option String)
      → a.status ≡ replacement_requested
      → Run (FollowsFrom s) (commit_deny_replacement id actor note a) s
  unfolding commit_deny_replacement allowed_transitions
  commit_deny_replacement-Run actor _ e = Run-atomic _ s (
      Run-step s _ _ s (Run-update_optimistic id _ _ s a row (rw e))
        (λ updated. search follow_rules))

  pub commit_approve_replacement-Run :
      (actor : ℕ)
      → a.status ≡ replacement_requested
      → Run (FollowsFrom s) (commit_approve_replacement id actor a) s
  unfolding commit_approve_replacement allowed_transitions transition_to_seeking_replacement
  commit_approve_replacement-Run actor e = Run-atomic _ s (
      Run-step s _ _ s (Run-update_optimistic id _ _ s a row (rw e))
        (λ updated. search follow_rules depth 8))

  pub commit_early_release-Run :
      (reason : String) (terms : ReleaseTerms)
      → a.status ≡ on_site
      → Run (FollowsFrom s) (commit_early_release id reason terms a) s
  unfolding commit_early_release allowed_transitions
  commit_early_release-Run reason terms e = Run-atomic _ s (
      Run-step s _ _ s (Run-update_optimistic id _ _ s a row (rw e))
        (λ updated. search follow_rules))

  pub commit_reject_release-Run :
      (note : Option String)
      → a.status ≡ early_release_requested
      → Run (FollowsFrom s) (commit_reject_release id note a) s
  unfolding commit_reject_release allowed_transitions
  commit_reject_release-Run _ e = Run-atomic _ s (
      Run-step s _ _ s (Run-update_optimistic id _ _ s a row (rw e))
        (λ updated. search follow_rules))

  pub commit_on_site-Run : a.status ≡ en_route → Run (FollowsFrom s) (commit_on_site id a) s
  unfolding commit_on_site allowed_transitions transition_to_in_progress
  commit_on_site-Run e = Run-atomic _ s (
      Run-step s _ _ s (Run-update_optimistic id _ _ s a row (rw e))
        (λ updated. search follow_rules depth 8))

pub commit_approve_release-Keeps :
    (id : ℕ) (r : EarlyReleaseResolution) → Keeps (commit_approve_release id r)
unfolding commit_approve_release
commit_approve_release-Keeps id r = search follow_rules
