-- ===== src/Assignments/Safety.antt =====
-- What follows for the clients of src/assignments/assignments.service.ts: final statuses stay, a
-- snapshot that is out of date is refused, and of two commits of one snapshot one fails.
use guardian_backend_service.Prelude.{ℕ, ◌≡◌, ◌≢◌, ◌⊎◌, refl, Option, none, some, arith}
use mathlib.Core.Path.{subst}
use mathlib.Core.Option.{some-injective}
use guardian_backend_service.Prelude.Table.{find}
use guardian_backend_service.Prelude.Table.Laws.{find-modify_self}
use guardian_backend_service.Prelude.Effect.{ok, err, modified_concurrently}
use guardian_backend_service.Data.{
  AssignmentStatus, assignment_eq, declined, expired, no_show, Assignment, Store,
}
use guardian_backend_service.Assignments.Transitions.{allowed_transitions}
use guardian_backend_service.Assignments.Update.{update_optimistic}
use guardian_backend_service.Assignments.Advance.{Allowed, Leads, here, step, Advances, RowFollows}
use guardian_backend_service.Assignments.Completion.{Billing}
use guardian_backend_service.Assignments.Requests.{Trace, Trace-Follows}

-- no step of the table leaves the status
abbrev pub IsFinal : AssignmentStatus → Type 0
IsFinal a =
    (a ≡ AssignmentStatus.completed)
    ⊎ (a ≡ declined)
    ⊎ (a ≡ expired)
    ⊎ (a ≡ no_show)
    ⊎ (a ≡ AssignmentStatus.cancelled)

final_has_no_step : (a b : AssignmentStatus) → IsFinal a → Allowed a b → ⊥
unfolding allowed_transitions
final_has_no_step a b f h = ground arith

final_stays : {a b : AssignmentStatus} → IsFinal a → Leads a b → b ≡ a
final_stays f here = refl
final_stays f (step {mid = m} {to = t} p e) =
    absurd (final_has_no_step _ t f (rw (final_stays f p) at e))

-- the row of a table that follows another
follower :
    (o p : Option Assignment) (a : Assignment)
    → RowFollows o p
    → o ≡ some a
    → (b : Assignment) × (p ≡ some b) × Advances a b
follower none p a h e = cc
follower (some c) none a h e = absurd h
follower (some c) (some b) a h e =
    (b, refl, subst (λ (x : Assignment). Advances x b) (some-injective c a e) h)

module _ (billing : Billing) (s t : Store) (trace : Trace billing s t) where
  -- An assignment that is COMPLETED, DECLINED, EXPIRED, NO_SHOW or CANCELLED keeps that status,
  -- whatever requests are handled; a no-show among them names an assignment that is not OFFERED.
  pub final_status_stays :
      (id : ℕ) (a : Assignment)
      → find id s.assignments ≡ some a
      → IsFinal a.status
      → (b : Assignment) × (find id t.assignments ≡ some b) × (b.status ≡ a.status)
  final_status_stays id a row f =
      let (b, there, h) = follower _ _ a (Trace-Follows billing trace id) row in
      (b, there, final_stays f h.path)

  -- A commit against a snapshot is refused, and writes nothing, if requests that were handled
  -- since have changed the assignment's status; a no-show among them names an assignment that is not
  -- OFFERED.
  pub stale_commit_refused :
      (id : ℕ) (a b : Assignment) (target : AssignmentStatus)
      → find id s.assignments ≡ some a
      → find id t.assignments ≡ some b
      → b.status ≢ a.status
      → update_optimistic id a.version_number target t ≡ (err modified_concurrently, t)
  unfolding update_optimistic
  stale_commit_refused id a b target row row' changed =
      let (c, there, h) = follower _ _ a (Trace-Follows billing trace id) row in
      ground (arith, h.change_is_versioned, there)

-- Of two commits of one snapshot the second is refused, and writes nothing.
pub no_lost_update :
    (id version : ℕ) (first second : AssignmentStatus) (s t : Store) (a : Assignment)
    → update_optimistic id version first s ≡ (ok a, t)
    → update_optimistic id version second t ≡ (err modified_concurrently, t)
unfolding update_optimistic
no_lost_update id version first second s t a h = grind (arith, find-modify_self)
