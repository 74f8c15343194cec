-- ===== src/Jobs/Closed.antt =====
-- A job that has been cancelled has no one on the way to it (`cancel` of src/jobs/jobs.service.ts).
use guardian_backend_service.Prelude.{
  ℕ, ◌≡◌, refl, false, Option, none, some, String, arith, Option-cases, inl, inr,
}
use guardian_backend_service.Prelude.Table.{find, count_where}
use guardian_backend_service.Prelude.Table.Laws.{
  find-modify_self, find-modify_where, count_where-modify_where_zero,
}
use guardian_backend_service.Prelude.Effect.{Result, ok, err, ◌>>=◌, ◌>>◌}
use guardian_backend_service.Data.{
  assignment_eq, JobStatus, job_eq, Assignment, Job, Store, Notice, atomic, find_job, update_job,
  audit_log, notify,
}
use guardian_backend_service.Jobs.Lifecycle.{record_status}
use guardian_backend_service.Assignments.Handoff.{Ensures, Run-Ensures}
use guardian_backend_service.Dispatching.Release.{
  withdraw, is_offer_of, is_staffed_original_of, is_substitute_of,
  release_active_staffed_assignments, release_in_flight_offers, release_substitutes, departing_id,
  release_departing, release_replacement_pipeline, is_waiting_to_leave,
}
use guardian_backend_service.Dispatching.Frame.{release_in_flight-assignments}
use guardian_backend_service.Jobs.Cancelled.{
  release_substitutes-assignments, release_active-assignments,
}
use guardian_backend_service.Jobs.Departed.{
  zero-withdrawn, zero-release, departing-gone, release_departing-jobs, release_active-jobs,
}
use guardian_backend_service.Jobs.Requests.{set_cancelled, commit_cancel, release_and_cancel}

always : {A : Type 0} (Q : Store → Type 0) (r : Result A × Store) → Q r.1 → Ensures Q r
always Q (ok a, t) h = h
always Q (err e, t) h = tt

module _ (job : ℕ) where
  -- no open offer of the job, no substitute on the way, no original guardian at work
  abbrev pub HasNoOffer : Store → Type 0
  HasNoOffer s = count_where (is_offer_of job) s.assignments ≡ 0

  abbrev pub HasNoPipeline : Store → Type 0
  HasNoPipeline s = HasNoOffer s × (count_where (is_substitute_of job) s.assignments ≡ 0)

  abbrev pub HasNoGuardian : Store → Type 0
  HasNoGuardian s = HasNoPipeline s × (count_where (is_staffed_original_of job) s.assignments ≡ 0)

  -- The guardian whom the job names as departing does not wait to be relieved.
  abbrev pub HasNoDeparting : Store → Type 0
  HasNoDeparting s =
      (k : Job) (d : ℕ) (b : Assignment)
      → find job s.jobs ≡ some k
      → k.replacement_departing_assignment_id ≡ some d
      → find d s.assignments ≡ some b
      → is_waiting_to_leave b ≡ false

  abbrev pub HasNobody : Store → Type 0
  HasNobody s = HasNoGuardian s × HasNoDeparting s

  abbrev pub IsPipelineClosed : Store → Type 0
  IsPipelineClosed s = HasNoPipeline s × HasNoDeparting s

  abbrev pub IsCancelled : Store → Type 0
  IsCancelled s =
      HasNobody s × ((k : Job) × (find job s.jobs ≡ some k) × (k.status ≡ JobStatus.cancelled))

  gone_offer : (a : Assignment) → is_offer_of job (withdraw a) ≡ false
  gone_offer a = ground arith

  gone_substitute : (a : Assignment) → is_substitute_of job (withdraw a) ≡ false
  gone_substitute a = ground arith

  gone_original : (a : Assignment) → is_staffed_original_of job (withdraw a) ≡ false
  gone_original a = ground arith

  offers : (s : Store) → HasNoOffer (release_in_flight_offers job s).1
  offers s =
      rw (release_in_flight-assignments job s)
        (count_where-modify_where_zero (is_offer_of job) withdraw s.assignments λ a _. gone_offer a)

  substitutes : (s : Store) → HasNoOffer s → HasNoPipeline (release_substitutes job s).1
  substitutes s h = rw (release_substitutes-assignments job s) (
    zero-withdrawn (is_offer_of job) gone_offer (is_substitute_of job) s.assignments h,
    count_where-modify_where_zero (is_substitute_of job) withdraw s.assignments
        λ a _. gone_substitute a,
  )

  originals :
      (s : Store) → HasNoPipeline s → HasNoGuardian (release_active_staffed_assignments job s).1
  originals s (offer, substitute) = rw (release_active-assignments job s) (
    (
      zero-withdrawn (is_offer_of job) gone_offer (is_staffed_original_of job) s.assignments offer,
      zero-withdrawn (is_substitute_of job) gone_substitute (is_staffed_original_of job)
          s.assignments substitute,
    ),
    count_where-modify_where_zero (is_staffed_original_of job) withdraw s.assignments
        λ a _. gone_original a,
  )

  -- the loop over the original guardians leaves it so that the departing one does not wait
  still_departed :
      (s : Store) → HasNoDeparting s → HasNoDeparting (release_active_staffed_assignments job s).1
  still_departed s h k d b row named there = elim (Option-cases (find d s.assignments)) [
    | inl e ↦ ground (
      arith,
      release_active-assignments job s,
      find-modify_where d (is_staffed_original_of job) withdraw s.assignments,
      there,
      e,
    )
    | inr (a, e) ↦
        let stays = h k d a (ground (arith, release_active-jobs job s, row)) named e in
        ground (
          arith,
          release_active-assignments job s,
          find-modify_where d (is_staffed_original_of job) withdraw s.assignments,
          there,
          e,
          stays,
        )
  ]

  departing : (o : Option ℕ) (s : Store) → HasNoPipeline s → HasNoPipeline (release_departing o s).1
  departing o s (offer, substitute) = (
    zero-release (is_offer_of job) gone_offer o s offer,
    zero-release (is_substitute_of job) gone_substitute o s substitute,
  )

  -- the departing guardian goes, if the database has the job and the assignment
  departed : (s : Store) → HasNoDeparting (release_departing (departing_id (find job s.jobs)) s).1
  departed s k d b row named there =
      let o = departing_id (find job s.jobs) in
      let is_named : o ≡ some d = ground (arith, release_departing-jobs o s, row, named) in
      departing-gone d s b (ground (arith, is_named, there))

  released :
      (s : Store)
      → HasNoPipeline s
      → Ensures IsPipelineClosed ((find_job job >>= λ row. release_departing (departing_id row)) s)
  unfolding ◌>>=◌ find_job
  released s h =
      always IsPipelineClosed _ (departing (departing_id (find job s.jobs)) s h, departed s)

  pipeline : (s : Store) → Ensures IsPipelineClosed (release_replacement_pipeline job s)
  unfolding release_replacement_pipeline find_job
  pipeline s =
      (Run-Ensures {Q = HasNoOffer} _ _ s (always HasNoOffer _ (offers s)) λ _ t h.
        Run-Ensures {Q = HasNoPipeline} _ _ t (always HasNoPipeline _ (substitutes t h))
          λ _ u g. record { at = released u g }).at

  if_ok : (r : Result (Unit {0}) × Store) → (r.0 ≡ ok tt → IsCancelled r.1) → Ensures IsCancelled r
  if_ok (ok a, t) f = f refl
  if_ok (err x, t) f = tt

  commit_cancel-row :
      (j : Job) (actor : ℕ) (reason : Option String) (s : Store) (k : Job)
      → find job s.jobs ≡ some k
      → (find job (commit_cancel job j actor reason s).1.jobs ≡ some (set_cancelled k))
        × ((commit_cancel job j actor reason s).1.assignments ≡ s.assignments)
  unfolding commit_cancel ◌>>=◌ atomic update_job record_status
  commit_cancel-row j actor reason s k row =
      ground (arith, find-modify_self job set_cancelled s.jobs k row)

  commit_cancel-missing :
      (j : Job) (actor : ℕ) (reason : Option String) (s : Store)
      → find job s.jobs ≡ none
      → (commit_cancel job j actor reason s).0 ≡ ok tt
      → ⊥
  unfolding commit_cancel ◌>>=◌ atomic update_job record_status
  commit_cancel-missing j actor reason s row done = ground arith

  commit :
      (j : Job) (actor : ℕ) (reason : Option String) (s : Store)
      → HasNobody s
      → Ensures IsCancelled (commit_cancel job j actor reason s)
  commit j actor reason s (gone, h) = if_ok _ λ done. elim (Option-cases (find job s.jobs)) [
    | inl e ↦ absurd (commit_cancel-missing j actor reason s e done)
    | inr (k, e) ↦
        let (there, same) = commit_cancel-row j actor reason s k e in
        (
          (
            rw same gone,
            λ k' d b row named seen.
                h k d b e (ground (arith, there, row, named)) (ground (arith, same, seen)),
          ),
          (set_cancelled k, there, refl),
        )
  ]

  notices :
      (j : Job) (actor : ℕ) (s : Store)
      → IsCancelled s
      → Ensures IsCancelled (
          (audit_log (some actor) "JOB_CANCELLED" job
              >> (notify (Notice.email_org_owners j.organization_id "JOB_CANCELLED" job)
                  >> notify (Notice.in_app_org_owners j.organization_id "Job cancelled" job)))
            s)
  unfolding ◌>>=◌ audit_log notify
  notices j actor s h = h

  on_success :
      (r : Result (Unit {0}) × Store) → r.0 ≡ ok tt → Ensures IsCancelled r → IsCancelled r.1
  on_success (ok a, t) e h = h
  on_success (err x, t) e h = absurd (ground arith)

  -- A cancellation that succeeds leaves the job CANCELLED, with no open offer, no substitute who has
  -- accepted or is on the way, no original guardian who has accepted, is on the way, on site or has
  -- asked to leave or be replaced; and the guardian whom the job names as departing neither awaits
  -- relief nor is on site with an approved replacement.
  pub release_and_cancel-IsCancelled :
      (j : Job) (actor : ℕ) (reason : Option String) (s : Store)
      → (release_and_cancel job j actor reason s).0 ≡ ok tt
      → IsCancelled (release_and_cancel job j actor reason s).1
  unfolding release_and_cancel
  release_and_cancel-IsCancelled j actor reason s done =
      on_success _ done
        (Run-Ensures {Q = IsPipelineClosed} _ _ s (pipeline s) λ _ t h.
          Run-Ensures {Q = HasNobody} _ _ t
            (always HasNobody _ (originals t h.0, still_departed t h.1))
            λ _ u g.
              Run-Ensures {Q = IsCancelled} _ _ u (commit j actor reason u g)
                λ _ v f. record { at = notices j actor v f }).at
