-- ===== src/Assignments/Commits.antt =====
-- Rules for handlers that follow the table of allowed transitions, one for each way to build a
-- handler and for each write of an assignment.
use guardian_backend_service.Prelude.{
  ℕ, ◌≡◌, ◌≢◌, refl, Bool, true, false, Option, none, some, ◌==◌, Bool-cases, inl, inr, List,
  String, arith,
}
use guardian_backend_service.Prelude.Table.{find}
use guardian_backend_service.Prelude.Table.Laws.{find-modify_ne}
use guardian_backend_service.Prelude.Effect.{
  Error, Result, ok, err, continue, ◌>>=◌, pure, throw_if, some_or_throw, gets, branch, when,
  lift_result,
}
use guardian_backend_service.Prelude.Effect.Rules.{Run}
use guardian_backend_service.Data.{
  AssignmentStatus, JobStatus, Assignment, Job, ShiftState, OutboxPayload, Notice, Store, Action,
  atomic, close, update_assignment, update_job, update_shift, audit_log, enqueue, notify,
  find_assignment, find_job,
}
use guardian_backend_service.Jobs.Frame.{
  SameAssignments, transition_job_status-frame, set_available-frame,
  request_replacement_dispatch-frame,
}
use guardian_backend_service.Jobs.Lifecycle.{transition_job_status}
use guardian_backend_service.Guardians.ShiftState.{set_available}
use guardian_backend_service.Dispatching.{request_replacement_dispatch}
use guardian_backend_service.Assignments.Update.{update_optimistic, set_status}
use guardian_backend_service.Assignments.Advance.{
  Allowed, Advances, Follows, Follows-refl, Follows-trans, Follows-same, modify-TableFollows,
  step-Advances, keep-Advances,
}

-- The assignments after a run follow those of the state `s`.
abbrev pub FollowsFrom : Store → {A : Type 0} → Result A × Store → Type 0
FollowsFrom s r = Follows s r.1

-- a handler that follows the table from every state
pub record Keeps {A : Type 0} (m : Action A) : Type 0 where
  pub at : (s : Store) → Follows s (m s).1

module _ {A : Type 0} where
  pub frame-Keeps : (m : Action A) → ((s : Store) → SameAssignments s (m s).1) → Keeps m
  frame-Keeps m h = record { at = λ s. Follows-same s (m s).1 (h s) }

  pub Keeps-pure : (a : A) → Keeps (pure a)
  unfolding pure
  Keeps-pure a = record { at = Follows-refl }

  pub Keeps-gets : (f : Store → A) → Keeps (gets f)
  unfolding gets
  Keeps-gets f = record { at = Follows-refl }

  pub Keeps-some : (o : Option A) (e : Error) → Keeps (some_or_throw o e)
  unfolding some_or_throw
  Keeps-some none e = record { at = Follows-refl }
  Keeps-some (some a) e = record { at = Follows-refl }

  pub Keeps-branch : (b : Bool) (m k : Action A) → Keeps m → Keeps k → Keeps (branch b m k)
  unfolding branch
  Keeps-branch true m k h g = record { at = h.at }
  Keeps-branch false m k h g = record { at = g.at }

  close-Follows :
      (s : Store) (r : Result A) (t : Store)
      → Follows s t
      → Follows s (close (r, record { live = t; base = s })).1
  close-Follows s (ok a) t h = h
  close-Follows s (err e) t h = Follows-refl s

  -- A commit that was rolled back changed nothing.
  pub Run-atomic :
      (m : Action A) (s : Store) → Run (FollowsFrom s) m s → Run (FollowsFrom s) (atomic m) s
  unfolding atomic
  Run-atomic m s h = record { at = close-Follows s (m s).0 (m s).1 h.at }

pub Keeps-throw_if : (b : Bool) (e : Error) → Keeps (throw_if b e)
unfolding throw_if
Keeps-throw_if true e = record { at = Follows-refl }
Keeps-throw_if false e = record { at = Follows-refl }

pub Keeps-when : (b : Bool) (m : Action (Unit {0})) → Keeps m → Keeps (when b m)
unfolding when
Keeps-when true m h = record { at = h.at }
Keeps-when false m h = record { at = Follows-refl }

pub Keeps-lift : (r : Result (Unit {0})) → Keeps (lift_result r)
unfolding lift_result
Keeps-lift r = record { at = Follows-refl }

module _ {A B : Type 0} where
  continue-Follows :
      (f : A → Action B) (s : Store) (r : Result A × Store)
      → Follows s r.1
      → ((a : A) → Keeps (f a))
      → Follows s (continue f r).1
  continue-Follows f s (ok a, t) h k = Follows-trans s t (f a t).1 h ((k a).at t)
  continue-Follows f s (err e, t) h k = h

  pub Keeps-bind :
      (m : Action A) (f : A → Action B) → Keeps m → ((a : A) → Keeps (f a)) → Keeps (m >>= f)
  unfolding ◌>>=◌
  Keeps-bind m f h k = record { at = λ s. continue-Follows f s (m s) (h.at s) k }

  -- a first step that follows from this state, and a rest that does from every state
  pub Run-step :
      (s₀ : Store) (m : Action A) (f : A → Action B) (s : Store)
      → Run (FollowsFrom s₀) m s
      → ((a : A) → Keeps (f a))
      → Run (FollowsFrom s₀) (m >>= f) s
  unfolding ◌>>=◌
  Run-step s₀ m f s h k = record { at = continue-Follows f s₀ (m s) h.at k }

pub Run-Keeps : {A : Type 0} (m : Action A) (s : Store) → Keeps m → Run (FollowsFrom s) m s
Run-Keeps m s h = record { at = h.at s }

pub Run-update_optimistic :
    (id v : ℕ) (target : AssignmentStatus) (s : Store) (a : Assignment)
    → find id s.assignments ≡ some a
    → Allowed a.status target
    → Run (FollowsFrom s) (update_optimistic id v target) s
unfolding update_optimistic
Run-update_optimistic id v target s a e allowed = elim (Bool-cases (a.version_number == v)) [
  | inl same ↦ record {
    at =
        rw (e, update_optimistic, same)
          (modify-TableFollows id (set_status target) s.assignments a e
            (step-Advances a _ allowed refl));
  }
  | inr stale ↦ record { at = rw (e, update_optimistic, stale) (Follows-refl s) }
]

pub update_assignment-Keeps :
    (id : ℕ) (f : Assignment → Assignment)
    → ((a : Assignment) → Advances a (f a))
    → Keeps (update_assignment id f)
unfolding update_assignment
update_assignment-Keeps id f h = record { at = λ s. by_row s (find id s.assignments) refl }
  where
    by_row :
        (s : Store) (o : Option Assignment)
        → find id s.assignments ≡ o
        → Follows s (update_assignment id f s).1
    by_row s none e = rw (e, update_assignment) (Follows-refl s)
    by_row s (some a) e =
        rw (e, update_assignment) (modify-TableFollows id f s.assignments a e (h a))

-- steps that leave the assignments alone
pub Keeps-transition_job_status :
    (id : ℕ) (target : JobStatus) (allowed : List JobStatus) (by : Option ℕ)
    (reason : Option String)
    → Keeps (transition_job_status id target allowed by reason)
Keeps-transition_job_status id target allowed by reason =
    frame-Keeps _ (transition_job_status-frame id target allowed by reason)

pub Keeps-update_job : (id : ℕ) (f : Job → Job) → Keeps (update_job id f)
unfolding update_job
Keeps-update_job id f = frame-Keeps _ (λ s. ground arith)

pub Keeps-update_shift : (id : ℕ) (f : ShiftState → ShiftState) → Keeps (update_shift id f)
unfolding update_shift
Keeps-update_shift id f = frame-Keeps _ (λ s. ground arith)

pub Keeps-set_available : (g : ℕ) → Keeps (set_available g)
Keeps-set_available g = frame-Keeps _ (set_available-frame g)

pub Keeps-request_dispatch : (id : ℕ) → Keeps (request_replacement_dispatch id)
Keeps-request_dispatch id = frame-Keeps _ (request_replacement_dispatch-frame id)

pub Keeps-audit_log : (by : Option ℕ) (action : String) (id : ℕ) → Keeps (audit_log by action id)
unfolding audit_log
Keeps-audit_log by action id = frame-Keeps _ (λ s. refl)

pub Keeps-enqueue : (p : OutboxPayload) → Keeps (enqueue p)
unfolding enqueue
Keeps-enqueue p = frame-Keeps _ (λ s. refl)

pub Keeps-notify : (n : Notice) → Keeps (notify n)
unfolding notify
Keeps-notify n = frame-Keeps _ (λ s. refl)

pub Keeps-find_assignment : (id : ℕ) → Keeps (find_assignment id)
unfolding find_assignment
Keeps-find_assignment id = frame-Keeps _ (λ s. refl)

pub Keeps-find_job : (id : ℕ) → Keeps (find_job id)
unfolding find_job
Keeps-find_job id = frame-Keeps _ (λ s. refl)

pub ruleset follow_rules = (
  Keeps-pure, Keeps-gets, Keeps-some, Keeps-branch, Keeps-throw_if, Keeps-when, Keeps-lift,
  Keeps-bind, update_assignment-Keeps, keep-Advances, Follows-refl, Keeps-transition_job_status,
  Keeps-update_job, Keeps-update_shift, Keeps-set_available, Keeps-request_dispatch,
  Keeps-audit_log, Keeps-enqueue, Keeps-notify, Keeps-find_assignment, Keeps-find_job,
)

pub Run-from :
    {A : Type 0} (s₀ s : Store) (m : Action A)
    → Follows s₀ s
    → Run (FollowsFrom s) m s
    → Run (FollowsFrom s₀) m s
Run-from s₀ s m h r = record { at = Follows-trans s₀ s (m s).1 h r.at }

-- a first step, and a rest that may use what the first step left
module _ {A B : Type 0} (s₀ : Store) (Q : Store → Type 0) (f : A → Action B) where
  pub after-Run :
      (r : Result A × Store)
      → Follows s₀ r.1
      → Q r.1
      → ((a : A) (t : Store) → Follows s₀ t → Q t → Run (FollowsFrom s₀) (f a) t)
      → Follows s₀ (continue f r).1
  after-Run (ok a, t) h q k = (k a t h q).at
  after-Run (err e, t) h q k = h

  pub Run-after :
      (m : Action A) (s : Store)
      → Run (FollowsFrom s₀) m s
      → Q (m s).1
      → ((a : A) (t : Store) → Follows s₀ t → Q t → Run (FollowsFrom s₀) (f a) t)
      → Run (FollowsFrom s₀) (m >>= f) s
  unfolding ◌>>=◌
  Run-after m s h q k = record { at = after-Run (m s) h.at q k }

-- a write to one row leaves the others
pub update_optimistic-other :
    (k id v : ℕ) (target : AssignmentStatus) (s : Store)
    → k ≢ id
    → find k (update_optimistic id v target s).1.assignments ≡ find k s.assignments
unfolding update_optimistic
update_optimistic-other k id v target s ne =
    grind (arith, find-modify_ne k id (set_status target) s.assignments)

pub update_assignment-other :
    (k id : ℕ) (f : Assignment → Assignment) (s : Store)
    → k ≢ id
    → find k (update_assignment id f s).1.assignments ≡ find k s.assignments
unfolding update_assignment
update_assignment-other k id f s ne = grind (arith, find-modify_ne k id f s.assignments)
