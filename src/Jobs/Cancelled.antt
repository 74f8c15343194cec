-- ===== src/Jobs/Cancelled.antt =====
-- What the cancellation of a job leaves (`cancel` of src/jobs/jobs.service.ts with the release methods
-- of src/dispatching/dispatching.service.ts).
use guardian_backend_service.Prelude.{
  ℕ, ◌≡◌, ◌≢◌, refl, Bool, true, false, Option, none, some, String, arith, ◌==◌, is_some, sym,
  ==→eq, Bool-cases, inl, inr,
}
use guardian_backend_service.Prelude.Table.{Table, find, modify_where}
use guardian_backend_service.Prelude.Table.Laws.{find-modify_where, find-modify_ne}
use mathlib.Core.Option.{some-injective}
use guardian_backend_service.Prelude.Effect.{pure, Result, ok, err, ◌>>=◌, ◌>>◌, continue}
use guardian_backend_service.Data.{
  AssignmentStatus, assignment_eq, ReplacementResolution, job_eq, Assignment, Job, Store, Action,
  atomic, Notice, find_job, find_assignment, update_assignment, update_job, audit_log, notify,
  Notice,
}
use guardian_backend_service.Jobs.Frame.{set_available-frame}
use guardian_backend_service.Jobs.Lifecycle.{record_status}
use guardian_backend_service.Dispatching.Release.{
  withdraw, is_offer_of, is_staffed_original_of, is_substitute_of, withdraw_where,
  release_active_staffed_assignments, release_in_flight_offers, release_substitutes, departing_id,
  withdraw_departing, is_waiting_to_leave, release_departing, release_replacement_pipeline,
}
use guardian_backend_service.Dispatching.Frame.{free_guardians-frame, release_in_flight-assignments}
use guardian_backend_service.Jobs.Requests.{commit_cancel, release_and_cancel}

-- a table in which some rows were withdrawn
abbrev pub withdrawn : (Assignment → Bool) → Table Assignment → Table Assignment
withdrawn p t = modify_where p withdraw t

pub release_substitutes-assignments :
    (job : ℕ) (s : Store)
    → (release_substitutes job s).1.assignments ≡ withdrawn (is_substitute_of job) s.assignments
unfolding release_substitutes withdraw_where ◌>>=◌
release_substitutes-assignments job s = grind (arith, free_guardians-frame)

pub release_active-assignments :
    (job : ℕ) (s : Store)
    → (release_active_staffed_assignments job s).1.assignments
      ≡ withdrawn (is_staffed_original_of job) s.assignments
unfolding release_active_staffed_assignments withdraw_where ◌>>=◌
release_active-assignments job s = grind (arith, free_guardians-frame)

module _ (k : ℕ) (a : Assignment) where
  -- the assignment is in the database, as it is
  abbrev Holds : Store → Type 0
  Holds s = find k s.assignments ≡ some a

  withdrawn-keeps :
      (p : Assignment → Bool) (t : Table Assignment)
      → p a ≡ false
      → find k t ≡ some a
      → find k (withdrawn p t) ≡ some a
  withdrawn-keeps p t h row = ground (arith, find-modify_where k p withdraw t)

  withdraw_departing-keeps :
      (id : ℕ) (b : Assignment) (s : Store)
      → id ≢ k
      → Holds s
      → Holds (withdraw_departing id (some b) s).1
  unfolding withdraw_departing ◌>>=◌ update_assignment notify
  withdraw_departing-keeps id b s h row =
      grind
        (arith, set_available-frame, find-modify_ne k id withdraw s.assignments (λ e. h (sym e)))

  module _ (stays : is_waiting_to_leave a ≡ false) where
    own_departing-keeps : (s : Store) → Holds s → Holds (withdraw_departing k (some a) s).1
    unfolding withdraw_departing ◌>>=◌
    own_departing-keeps s row = ground arith

    departing_row-keeps :
        (id : ℕ) (o : Option Assignment) (s : Store)
        → find id s.assignments ≡ o
        → Holds s
        → Holds (withdraw_departing id o s).1
    unfolding withdraw_departing pure
    departing_row-keeps id none s e row = row
    departing_row-keeps id (some b) s e row = elim (Bool-cases (id == k)) [
      | inr other ↦ withdraw_departing-keeps id b s (λ h. ground arith) row
      | inl same ↦
          rw (==→eq id k same, some-injective b a (ground (arith, ==→eq id k same)))
            (own_departing-keeps s row)
    ]

    release_departing-keeps : (o : Option ℕ) (s : Store) → Holds s → Holds (release_departing o s).1
    unfolding release_departing ◌>>=◌ find_assignment
    release_departing-keeps none s row = row
    release_departing-keeps (some id) s row =
        departing_row-keeps id (find id s.assignments) s refl row

    -- a handler after which the assignment is as it was, whether it throws or not
    abbrev Keeps : {A : Type 0} → Action A → Type 0
    Keeps m = (s : Store) → Holds s → Holds (m s).1

    then-Keeps :
        {A B : Type 0} (m : Action A) (f : A → Action B)
        → Keeps m
        → ((x : A) → Keeps (f x))
        → Keeps (m >>= f)
    unfolding ◌>>=◌
    then-Keeps {A = A} {B = B} m f h g s row = by_result (m s) (h s row)
      where
        by_result : (r : Result A × Store) → Holds r.1 → Holds (continue f r).1
        by_result (ok x, t) e = g x t e
        by_result (err x, t) e = e

    commit_cancel-Keeps :
        (id : ℕ) (j : Job) (actor : ℕ) (reason : Option String)
        → Keeps (commit_cancel id j actor reason)
    unfolding commit_cancel ◌>>=◌ atomic update_job record_status
    commit_cancel-Keeps id j actor reason s row = ground arith

    module _ (job : ℕ) (no_offer : is_offer_of job a ≡ false)
        (no_substitute : is_substitute_of job a ≡ false)
        (no_original : is_staffed_original_of job a ≡ false) where
      release_offers-Keeps : Keeps (release_in_flight_offers job)
      release_offers-Keeps s row =
          rw (release_in_flight-assignments job s)
            (withdrawn-keeps (is_offer_of job) s.assignments no_offer row)

      release_substitutes-Keeps : Keeps (release_substitutes job)
      release_substitutes-Keeps s row =
          rw (release_substitutes-assignments job s)
            (withdrawn-keeps (is_substitute_of job) s.assignments no_substitute row)

      release_active-Keeps : Keeps (release_active_staffed_assignments job)
      release_active-Keeps s row =
          rw (release_active-assignments job s)
            (withdrawn-keeps (is_staffed_original_of job) s.assignments no_original row)

      find_job-Keeps : Keeps (find_job job)
      unfolding find_job
      find_job-Keeps s row = row

      pipeline-Keeps : Keeps (release_replacement_pipeline job)
      unfolding release_replacement_pipeline
      pipeline-Keeps = then-Keeps _ _ release_offers-Keeps λ _.
          then-Keeps _ _ release_substitutes-Keeps
            λ _. then-Keeps _ _ find_job-Keeps λ row. release_departing-keeps (departing_id row)

      notices-Keeps :
          (j : Job) (actor : ℕ)
          → Keeps (
              audit_log (some actor) "JOB_CANCELLED" job
              >> (notify (Notice.email_org_owners j.organization_id "JOB_CANCELLED" job)
                  >> notify (Notice.in_app_org_owners j.organization_id "Job cancelled" job)))
      unfolding ◌>>=◌ audit_log notify
      notices-Keeps j actor s row = row

      release_and_cancel-Keeps :
          (j : Job) (actor : ℕ) (reason : Option String)
          → Keeps (release_and_cancel job j actor reason)
      unfolding release_and_cancel
      release_and_cancel-Keeps j actor reason = then-Keeps _ _ pipeline-Keeps λ _.
          then-Keeps _ _ release_active-Keeps
            λ _. then-Keeps _ _ (commit_cancel-Keeps job j actor reason) λ _. notices-Keeps j actor

unapproved-stays :
    (a : Assignment)
    → a.status ≡ AssignmentStatus.on_site
    → a.replacement_resolution ≢ some ReplacementResolution.approved
    → is_waiting_to_leave a ≡ false
unapproved-stays a on_site unapproved = by_resolution a.replacement_resolution refl
  where
    by_resolution :
        (o : Option ReplacementResolution)
        → a.replacement_resolution ≡ o
        → is_waiting_to_leave a ≡ false
    by_resolution none e = ground arith
    by_resolution (some ReplacementResolution.approved) e = absurd (unapproved e)
    by_resolution (some ReplacementResolution.denied) e = ground arith

-- The cancellation of a job leaves a substitute who is ON_SITE as it is, unless a replacement of the
-- substitute was approved in turn: the assignment is not cancelled with the job.
pub substitute_is_left :
    (k : ℕ) (a : Assignment) (job : ℕ) (j : Job) (actor : ℕ) (reason : Option String) (s : Store)
    → find k s.assignments ≡ some a
    → is_some a.replaces_assignment_id ≡ true
    → a.status ≡ AssignmentStatus.on_site
    → a.replacement_resolution ≢ some ReplacementResolution.approved
    → find k (release_and_cancel job j actor reason s).1.assignments ≡ some a
substitute_is_left k a job j actor reason s row substitute on_site unapproved =
    release_and_cancel-Keeps k a (unapproved-stays a on_site unapproved) job (ground arith)
      (ground arith) (ground arith) j actor reason s row
