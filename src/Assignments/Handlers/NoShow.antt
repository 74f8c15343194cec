-- ===== src/Assignments/Handlers/NoShow.antt =====
-- A no-show of an assignment that is not a mere offer moves along the table of allowed
-- transitions.
use guardian_backend_service.Prelude.{
  ℕ, ◌≡◌, ◌≢◌, ◌⊎◌, inl, inr, refl, false, some, arith, includes, not,
}
use guardian_backend_service.Prelude.Table.{find}
use guardian_backend_service.Prelude.Effect.{◌>>=◌}
use guardian_backend_service.Prelude.Effect.Rules.{Run, Run-guard, Run-branch, Run-pure}
use guardian_backend_service.Data.{
  AssignmentStatus, assignment_eq, offered, no_show, Assignment, Job, Store, transaction,
}
use guardian_backend_service.Jobs.Frame.{set_available-frame, apply_unfilled_slot_redispatch-frame}
use guardian_backend_service.Assignments.Transitions.{allowed_transitions}
use guardian_backend_service.Assignments.Advance.{Allowed, Follows, Follows-refl, Follows-same}
use guardian_backend_service.Assignments.Commits.{
  FollowsFrom, Keeps, frame-Keeps, Run-step, Run-update_optimistic, follow_rules,
}
use guardian_backend_service.Assignments.Reads.{Run-any}
use guardian_backend_service.Assignments.NoShow.{
  NoShowInput, no_show_allowed_from_statuses, count_no_show, write_no_show, commit_no_show,
  apply_no_show,
}

Keeps-count_no_show : (g : ℕ) → Keeps (count_no_show g)
unfolding count_no_show
Keeps-count_no_show g = frame-Keeps _ (λ s. refl)

write_no_show-Run :
    (id : ℕ) (input : NoShowInput) (a : Assignment) (s : Store)
    → find id s.assignments ≡ some a
    → Allowed a.status no_show
    → Run (FollowsFrom s) (write_no_show id input a) s
unfolding write_no_show
write_no_show-Run id input a s row allowed =
    Run-step s _ _ s (Run-update_optimistic id a.version_number no_show s a row allowed)
      (λ updated. search (follow_rules, Keeps-count_no_show) depth 8)

commit_no_show-assignments :
    (id : ℕ) (input : NoShowInput) (a : Assignment) (j : Job) (s : Store)
    → ((commit_no_show id input a j s).1.assignments ≡ s.assignments)
      ⊎ ((commit_no_show id input a j s).1.assignments ≡ (write_no_show id input a s).1.assignments)
unfolding commit_no_show transaction ◌>>=◌
commit_no_show-assignments id input a j s =
    grind (arith, set_available-frame, apply_unfilled_slot_redispatch-frame)

commit_no_show-Run :
    (id : ℕ) (input : NoShowInput) (a : Assignment) (j : Job) (s : Store)
    → find id s.assignments ≡ some a
    → Allowed a.status no_show
    → Run (FollowsFrom s) (commit_no_show id input a j) s
commit_no_show-Run id input a j s row allowed = elim (commit_no_show-assignments id input a j s) [
  | inl same ↦ record { at = Follows-same s (commit_no_show id input a j s).1 same }
  | inr written ↦ record {
    at = λ k. rw written ((write_no_show-Run id input a s row allowed).at k);
  }
]

-- the statuses that a no-show is accepted from, but for an offer
no_show_step :
    (a : AssignmentStatus)
    → not (includes no_show_allowed_from_statuses a) ≡ false
    → a ≢ offered
    → Allowed a no_show
unfolding allowed_transitions
no_show_step a h n = ground arith

-- the assignment that a no-show names is not a mere offer
abbrev pub IsCommitted : ℕ → Store → Type 0
IsCommitted id s = (a : Assignment) → find id s.assignments ≡ some a → a.status ≢ offered

pub apply_no_show-Follows :
    (id : ℕ) (input : NoShowInput) (s : Store)
    → IsCommitted id s
    → Follows s (apply_no_show id input s).1
unfolding apply_no_show
apply_no_show-Follows id input s committed = run.at
  where
    run : Run (FollowsFrom s) (apply_no_show id input) s
    run = Run-any id _ s (Follows-refl s) λ a j o.
        Run-branch _ _ _ s (λ _. Run-pure _ s (Follows-refl s))
          (λ _. Run-guard _ _ _ s (Follows-refl s) λ listed.
            Run-step s _ _ s
              (commit_no_show-Run id input a j s o.row
                (no_show_step a.status listed (committed a o.row)))
              (λ r. search follow_rules depth 8))
