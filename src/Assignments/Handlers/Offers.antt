-- ===== src/Assignments/Handlers/Offers.antt =====
-- The handlers of an offer move assignments along the table of allowed transitions only.
use guardian_backend_service.Prelude.{
  ℕ, ◌≡◌, ◌⊎◌, inl, inr, refl, true, Option, none, some, [], ◌∷◌, arith, Bool-cases, ◌==◌, ◌===◌,
  ◌&&◌,
}
use guardian_backend_service.Prelude.Table.{Table, find}
use guardian_backend_service.Prelude.Effect.{Result, ok, err, ◌>>=◌}
use guardian_backend_service.Prelude.Effect.Rules.{Run, Run-guard}
use guardian_backend_service.Data.{
  assignment_eq, offered, declined, Assignment, Job, PayPolicy, Store, transaction,
}
use guardian_backend_service.Guardians.ShiftState.{set_available}
use guardian_backend_service.Payroll.PayPolicy.{resolve_pay_policy}
use guardian_backend_service.Jobs.Frame.{set_available-frame}
use guardian_backend_service.Jobs.Lifecycle.{
  transition_to_assigned, transition_to_partially_assigned,
}
use guardian_backend_service.Jobs.Progress.{is_pending_of}
use guardian_backend_service.Jobs.Staffing.{
  cancel_excess_offers, cancel, apply_accept_staffing_update, fill_job, keep_filling,
}
use guardian_backend_service.Assignments.Transitions.{allowed_transitions}
use guardian_backend_service.Assignments.Update.{
  update_optimistic, transition_offered_assignment, set_accepted,
}
use guardian_backend_service.Assignments.Advance.{
  Follows, Follows-refl, Follows-same, modify-TableFollows, modify_where-TableFollows,
  step-Advances,
}
use guardian_backend_service.Queue.{cancel_offer_expiry}
use guardian_backend_service.Assignments.Commits.{
  FollowsFrom, Keeps, Keeps-pure, Keeps-bind, Keeps-set_available, frame-Keeps, Run-step,
  Run-atomic, Run-Keeps, Run-update_optimistic, follow_rules,
}
use guardian_backend_service.Assignments.Reads.{
  Run-own, Read, Owned, own_assignment-Read, same_status,
}
use guardian_backend_service.Assignments.Offers.{
  own_assignment, check_slots, commit_accept, accept_in_transaction, release_competing_offers,
  after_accept, accept, commit_decline, decline,
}

Keeps-resolve_pay_policy : (j e t : ℕ) → Keeps (resolve_pay_policy j e t)
unfolding resolve_pay_policy
Keeps-resolve_pay_policy j e t = search follow_rules

-- a pending offer of a job, which `cancel` is applied to
pending_is_offered : (job : ℕ) (a : Assignment) → is_pending_of job a ≡ true → a.status ≡ offered
pending_is_offered job a h = ground arith

pub Keeps-cancel_excess : (job : ℕ) → Keeps (cancel_excess_offers job)
unfolding cancel_excess_offers allowed_transitions
Keeps-cancel_excess job = record {
  at = λ s.
      modify_where-TableFollows (is_pending_of job) cancel s.assignments
        λ a h. step-Advances a (cancel a) (rw (pending_is_offered job a h)) refl;
}

pub Keeps-accept_staffing :
    (id : ℕ) (j : Job) (by : Option ℕ) → Keeps (apply_accept_staffing_update id j by)
unfolding apply_accept_staffing_update fill_job keep_filling transition_to_assigned
    transition_to_partially_assigned
Keeps-accept_staffing id j by = search (follow_rules, Keeps-cancel_excess) depth 12

open_offer :
    (v : ℕ) (a : Assignment)
    → (a.version_number == v && a.status === offered) ≡ true
    → a.status ≡ offered
open_offer v a h = ground arith

-- The write checks for itself that the offer is open.
pub Keeps-transition_offered :
    (id v now : ℕ) (policy : PayPolicy) (rate : Option ℕ)
    → Keeps (transition_offered_assignment id v (set_accepted now policy rate))
unfolding transition_offered_assignment allowed_transitions
Keeps-transition_offered id v now policy rate = record {
  at = λ s. by_row s (find id s.assignments) refl;
}
  where
    write : Assignment → Assignment
    write = set_accepted now policy rate

    by_row :
        (s : Store) (o : Option Assignment)
        → find id s.assignments ≡ o
        → Follows s (transition_offered_assignment id v write s).1
    by_row s none e = rw (e, transition_offered_assignment) (Follows-refl s)
    by_row s (some a) e = elim (Bool-cases (a.version_number == v && a.status === offered)) [
      | inl fresh ↦
          rw (e, transition_offered_assignment, fresh)
            (modify-TableFollows id write s.assignments a e
              (step-Advances a (write a) (rw (open_offer v a fresh)) refl))
      | inr stale ↦ rw (e, transition_offered_assignment, stale) (Follows-refl s)
    ]

Keeps-own : (id guardian : ℕ) → Keeps (own_assignment id guardian)
Keeps-own id guardian = record {
  at = λ s. read s (own_assignment id guardian s) (own_assignment-Read id guardian s);
}
  where
    read :
        (s : Store) (r : Result (Assignment × Job) × Store)
        → Read (Owned id guardian s) s r
        → Follows s r.1
    read s (ok a, t) (e, found) = rw e (Follows-refl s)
    read s (err x, t) (e, why) = rw e (Follows-refl s)

Keeps-check_slots : (id : ℕ) (j : Job) → Keeps (check_slots id j)
unfolding check_slots
Keeps-check_slots id j = search follow_rules

Keeps-commit_accept :
    (id guardian : ℕ) (a : Assignment) (j : Job) → Keeps (commit_accept id guardian a j)
unfolding commit_accept
Keeps-commit_accept id guardian a j =
    search (follow_rules, Keeps-resolve_pay_policy, Keeps-transition_offered, Keeps-accept_staffing)
      depth 14

Keeps-accept_in_transaction : (id guardian : ℕ) → Keeps (accept_in_transaction id guardian)
unfolding accept_in_transaction
Keeps-accept_in_transaction id guardian =
    search (follow_rules, Keeps-own, Keeps-check_slots, Keeps-commit_accept) depth 12

Keeps-cancel_expiry : (id : ℕ) → Keeps (cancel_offer_expiry id)
unfolding cancel_offer_expiry
Keeps-cancel_expiry id = frame-Keeps _ (λ s. refl)

Keeps-release : (t : Table Assignment) → Keeps (release_competing_offers t)
unfolding release_competing_offers
Keeps-release [] = Keeps-pure tt
Keeps-release ((id, a) ∷ rest) = Keeps-bind (cancel_offer_expiry id) _ (Keeps-cancel_expiry id) λ _.
    Keeps-bind (set_available a.guardian_id) (λ _. release_competing_offers rest)
      (Keeps-set_available a.guardian_id) (λ _. Keeps-release rest)

pub accept-Follows : (id guardian : ℕ) (s : Store) → Follows s (accept id guardian s).1
unfolding accept after_accept
accept-Follows id guardian s = run.at
  where
    run : Run (FollowsFrom s) (accept id guardian) s
    run =
        Run-step s _ _ s (Run-atomic _ s (Run-Keeps _ s (Keeps-accept_in_transaction id guardian)))
          (λ done. search (follow_rules, Keeps-release) depth 10)

-- The transaction of a refusal leaves the assignments as they were, or as its write left them.
commit_decline-assignments :
    (id guardian : ℕ) (a : Assignment) (s : Store)
    → ((commit_decline id guardian a s).1.assignments ≡ s.assignments)
      ⊎ ((commit_decline id guardian a s).1.assignments
          ≡ (update_optimistic id a.version_number declined s).1.assignments)
unfolding commit_decline transaction ◌>>=◌
commit_decline-assignments id guardian a s = grind (arith, set_available-frame)

commit_decline-Run :
    (id guardian : ℕ) (a : Assignment) (s : Store)
    → find id s.assignments ≡ some a
    → a.status ≡ offered
    → Run (FollowsFrom s) (commit_decline id guardian a) s
unfolding allowed_transitions
commit_decline-Run id guardian a s row e = elim (commit_decline-assignments id guardian a s) [
  | inl same ↦ record { at = Follows-same s (commit_decline id guardian a s).1 same }
  | inr written ↦ record {
    at = λ k. rw written ((Run-update_optimistic id _ declined s a row (rw e)).at k);
  }
]

pub decline-Follows : (id guardian : ℕ) (s : Store) → Follows s (decline id guardian s).1
unfolding decline
decline-Follows id guardian s = run.at
  where
    run : Run (FollowsFrom s) (decline id guardian) s
    run = Run-own id guardian _ s (Follows-refl s) λ a j o. Run-guard _ _ _ s (Follows-refl s) λ on.
        Run-step s _ _ s
          (commit_decline-Run id guardian a s o.joined.row (same_status a.status offered on))
          (λ r. search follow_rules depth 10)
