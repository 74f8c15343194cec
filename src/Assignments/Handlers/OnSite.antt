-- ===== src/Assignments/Handlers/OnSite.antt =====
-- The handlers on the way, on site and at the end move assignments along the table of allowed
-- transitions only.
use guardian_backend_service.Prelude.{
  ℕ, ◌≡◌, ◌≢◌, refl, false, Option, some, String, arith, Bool-cases, inl, inr, includes, not, ◌∙◌,
}
use guardian_backend_service.Prelude.Table.{find}
use guardian_backend_service.Prelude.Effect.{Result, ok, err}
use guardian_backend_service.Prelude.Effect.Rules.{
  Run, Run-gets, Run-guard, Run-check, Run-branch, Run-lift, Run-known, Run-pure, Run-some,
}
use guardian_backend_service.Data.{
  AssignmentStatus, assignment_eq, on_site, en_route, accepted, awaiting_relief, Assignment, Job,
  Store, update_assignment,
}
use guardian_backend_service.Jobs.Frame.{complete_from_assignment-frame}
use guardian_backend_service.Jobs.Lifecycle.{
  transition_from_seeking_replacement, complete_from_assignment,
}
use guardian_backend_service.Assignments.Transitions.{
  allowed_transitions, assert_assignment_transition_allowed,
}
use guardian_backend_service.Assignments.Update.{update_optimistic}
use guardian_backend_service.Assignments.Advance.{Allowed, Follows, Follows-refl}
use guardian_backend_service.Assignments.Commits.{
  FollowsFrom, Keeps, frame-Keeps, Run-step, Run-after, Run-atomic, update_optimistic-other,
  update_assignment-other, Run-Keeps, Run-from, Run-update_optimistic, follow_rules,
}
use guardian_backend_service.Assignments.Reads.{Run-own, Run-find, same_status}
use guardian_backend_service.Assignments.Follow.{commit_on_site-Run}
use guardian_backend_service.Assignments.OnSite.{
  check_transition, transition, go_en_route, arrive_on_site,
}
use guardian_backend_service.Assignments.Replacement.{
  commit_handoff, execute_replacement_handoff, is_ready_for_handoff,
}
use guardian_backend_service.Assignments.Completion.{Billing, complete, finish_assignment}

-- What `check_transition` has found when it returns: the row, its status, and that the step is in
-- the table.
record Checked (id : ℕ) (from to : AssignmentStatus) (s : Store) (a : Assignment) : Type 0 where
  row : find id s.assignments ≡ some a
  at_from : a.status ≡ from
  in_table : Allowed from to

abbrev Checks : (Assignment → Type 0) → Store → Result Assignment × Store → Type 0
Checks Q s (ok a, t) = (t ≡ s) × Q a
Checks Q s (err e, t) = t ≡ s

in_table_of :
    (from to : AssignmentStatus)
    → assert_assignment_transition_allowed from to ≡ ok tt
    → Allowed from to
unfolding assert_assignment_transition_allowed
in_table_of from to h = elim (Bool-cases (includes (allowed_transitions from) to)) [
  | inl inside ↦ inside
  | inr outside ↦ cc (rw outside at h)
]

check_transition-Checks :
    (id guardian : ℕ) (from to : AssignmentStatus) (s : Store)
    → Checks (Checked id from to s) s (check_transition id guardian from to s)
unfolding check_transition
check_transition-Checks id guardian from to s = run.at
  where
    run : Run (Checks (Checked id from to s) s) (check_transition id guardian from to) s
    run = Run-find id _ s (
        Run-some (find id s.assignments) _ _ s refl λ a row. Run-guard _ _ _ s refl λ _.
          Run-guard _ _ _ s refl λ on. Run-check _ _ _ s refl λ allowed. Run-pure a s (
            refl,
            record {
              row = row;
              at_from = same_status a.status from on;
              in_table = in_table_of from to allowed;
            },
          ))

transition-step :
    (id : ℕ) (from to : AssignmentStatus) (s : Store) (a : Assignment)
    → Checked id from to s a
    → Run (FollowsFrom s) (update_optimistic id a.version_number to) s
transition-step id from to s a c =
    Run-update_optimistic id a.version_number to s a c.row (rw c.at_from c.in_table)

pub transition-Keeps :
    (id guardian : ℕ) (from to : AssignmentStatus) (action : String)
    → Keeps (transition id guardian from to action)
unfolding transition
transition-Keeps id guardian from to action = record { at = λ s. (run s).at }
  where
    committed :
        (s : Store) (r : Result Assignment × Store)
        → Checks (Checked id from to s) s r
        → check_transition id guardian from to s ≡ r
        → Run (FollowsFrom s) (transition id guardian from to action) s
    committed s (ok a, t) (e, c) q =
        Run-known _ _ s (ok a, t) q
          (rw e
            (Run-step s _ _ s (Run-atomic _ s (transition-step id from to s a c))
              (λ r. search follow_rules depth 10)).at)
    committed s (err x, t) e q = Run-known _ _ s (err x, t) q (rw e (Follows-refl s))

    run : (s : Store) → Run (FollowsFrom s) (transition id guardian from to action) s
    run s =
        committed s (check_transition id guardian from to s)
          (check_transition-Checks id guardian from to s) refl

pub go_en_route-Keeps : (id guardian : ℕ) → Keeps (go_en_route id guardian)
unfolding go_en_route
go_en_route-Keeps id guardian = transition-Keeps id guardian accepted en_route "EN_ROUTE"

finish_assignment-Keeps :
    (id guardian : ℕ) (from : AssignmentStatus) → Keeps (finish_assignment id guardian from)
unfolding finish_assignment
finish_assignment-Keeps id guardian from = search (follow_rules, transition-Keeps) depth 8

Keeps-complete_job : (id : ℕ) (by : Option ℕ) → Keeps (complete_from_assignment id by)
Keeps-complete_job id by = frame-Keeps _ (complete_from_assignment-frame id by)

Keeps-billing : (b : Billing) (job user : ℕ) → Keeps (b.create_draft_invoice job user)
Keeps-billing b job user = frame-Keeps _ (b.keeps_assignments job user)

pub complete-Follows :
    (b : Billing) (id guardian actor : ℕ) (s : Store) → Follows s (complete b id guardian actor s).1
unfolding complete
complete-Follows b id guardian actor s = run.at
  where
    run : Run (FollowsFrom s) (complete b id guardian actor) s
    run = Run-own id guardian _ s (Follows-refl s) λ a j o.
        Run-Keeps _ s (
          search (follow_rules, finish_assignment-Keeps, Keeps-complete_job, Keeps-billing) depth
            12)

-- the hand-over: two rows move, the one that leaves first
module _ (id original_id : ℕ) (original substitute : Assignment) (s : Store)
    (leaving : find original_id s.assignments ≡ some original)
    (arriving : find id s.assignments ≡ some substitute)
    (awaits : original.status ≡ awaiting_relief) (under_way : substitute.status ≡ en_route) where
  -- one assignment cannot be both
  apart : id ≢ original_id
  apart e = cc (rw e at arriving)

  Arriving : Store → Type 0
  Arriving t = find id t.assignments ≡ some substitute

  pub commit_handoff-Run : Run (FollowsFrom s) (commit_handoff id original_id original substitute) s
  unfolding commit_handoff transition_from_seeking_replacement allowed_transitions Arriving
  commit_handoff-Run = Run-atomic _ s (
      Run-after s Arriving _ _ s
        (Run-update_optimistic original_id _ AssignmentStatus.completed s original leaving
          (rw awaits))
        (update_optimistic-other id original_id _ _ s apart ∙ arriving)
        λ completed t h there. Run-gets _ _ t (
          Run-after s Arriving _ _ t
            (Run-from s t
              (update_assignment original_id λ r. record r { completed_at = some t.now }) h
              (Run-Keeps (update_assignment original_id λ r. record r { completed_at = some t.now })
                t (search follow_rules)))
            (update_assignment-other id original_id _ t apart ∙ there)
            λ departed u g still. Run-from s u _ g (
              Run-step u _ _ u
                (Run-update_optimistic id _ on_site u substitute still (rw under_way))
                (λ updated. search follow_rules depth 12))))

ready_awaits : (a : Assignment) → not (is_ready_for_handoff a) ≡ false → a.status ≡ awaiting_relief
ready_awaits a h = ground arith

pub execute_replacement_handoff-Run :
    (id : ℕ) (substitute : Assignment) (j : Job) (s : Store)
    → find id s.assignments ≡ some substitute
    → substitute.status ≡ en_route
    → Run (FollowsFrom s) (execute_replacement_handoff id substitute j) s
unfolding execute_replacement_handoff
execute_replacement_handoff-Run id substitute j s row e =
    Run-some _ _ _ s (Follows-refl s) λ original_id _. Run-find original_id _ s (
      Run-some _ _ _ s (Follows-refl s) λ original leaving.
        Run-guard _ _ _ s (Follows-refl s) λ ready.
          Run-lift _ _ s (λ x. Follows-refl s)
            λ _.
              Run-step s _ _ s
                (commit_handoff-Run id original_id original substitute s leaving row
                  (ready_awaits original ready) e)
                (λ r. search follow_rules depth 10))

pub arrive_on_site-Follows :
    (id guardian : ℕ) (s : Store) → Follows s (arrive_on_site id guardian s).1
unfolding arrive_on_site
arrive_on_site-Follows id guardian s = run.at
  where
    run : Run (FollowsFrom s) (arrive_on_site id guardian) s
    run = Run-own id guardian _ s (Follows-refl s) λ a j o. Run-guard _ _ _ s (Follows-refl s) λ on.
        Run-branch _ _ _ s
          (λ _.
            execute_replacement_handoff-Run id a j s o.joined.row
              (same_status a.status en_route on))
          (λ _.
            Run-step s _ _ s
              (commit_on_site-Run id s a o.joined.row (same_status a.status en_route on))
              (λ r. search follow_rules depth 10))
