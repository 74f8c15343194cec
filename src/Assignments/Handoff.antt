-- ===== src/Assignments/Handoff.antt =====
-- What a hand-over leaves (`executeReplacementHandoff` of src/assignments/assignments.service.ts).
use guardian_backend_service.Prelude.{
  ℕ, ◌≡◌, ◌≢◌, refl, true, Option, none, some, [], ◌∷◌, arith, includes, ◌⊎◌,
}
use guardian_backend_service.Prelude.Table.{find}
use guardian_backend_service.Prelude.Table.Laws.{find-modify}
use guardian_backend_service.Prelude.Effect.{Result, ok, err, continue, ◌>>=◌, pure, gets}
use guardian_backend_service.Prelude.Effect.Rules.{Run}
use guardian_backend_service.Data.{
  AssignmentStatus, assignment_eq, JobStatus, job_eq, Assignment, Job, ShiftState, Store, Action,
  transaction, atomic, on_tx, close, on_tx, close, update_assignment, update_job, update_shift,
}
use guardian_backend_service.Jobs.Frame.{transition_job_status-frame}
use guardian_backend_service.Jobs.History.{transition_job_status-outcome}
use guardian_backend_service.Jobs.Lifecycle.{
  transition_job_status, transition_from_seeking_replacement,
}
use guardian_backend_service.Jobs.Filled.{status_in}
use guardian_backend_service.Assignments.Update.{update_optimistic, set_status}
use guardian_backend_service.Assignments.Replacement.{commit_handoff, status_of}

-- the property of the database that a handler leaves when it succeeds
abbrev pub Ensures : {A : Type 0} → (Store → Type 0) → Result A × Store → Type 0
Ensures Q (ok a, t) = Q t
Ensures Q (err e, t) = Unit {0}

pub Run-Ensures :
    {A B : Type 0} {Q R : Store → Type 0} (m : Action A) (f : A → Action B) (s : Store)
    → Ensures Q (m s)
    → ((a : A) (t : Store) → Q t → Run (Ensures R) (f a) t)
    → Run (Ensures R) (m >>= f) s
unfolding ◌>>=◌
Run-Ensures {B = B} {Q = Q} {R = R} m f s h g = record { at = by_result (m s) h }
  where
    by_result : (r : Result _ × Store) → Ensures Q r → Ensures R (continue f r)
    by_result (ok a, t) q = (g a t q).at
    by_result (err e, t) q = tt

-- the status of an assignment, and that of a job
abbrev pub assignment_status : ℕ → Store → Option AssignmentStatus
assignment_status id s = status_of (find id s.assignments)

abbrev pub job_status : ℕ → Store → Option JobStatus
job_status id s = status_in (find id s.jobs)

module _ (id original_id job : ℕ) (differ : id ≢ original_id) where
  abbrev Left : Store → Type 0
  Left s = assignment_status original_id s ≡ some AssignmentStatus.completed

  abbrev Relieved : Store → Type 0
  Relieved s = Left s × (assignment_status id s ≡ some AssignmentStatus.on_site)

  -- the original has left, the substitute is on site, the job goes on
  abbrev pub HandedOver : Store → Type 0
  HandedOver s = Relieved s × (job_status job s ≡ some JobStatus.in_progress)

  leave :
      (v : ℕ) (s : Store)
      → Ensures Left (update_optimistic original_id v AssignmentStatus.completed s)
  unfolding update_optimistic
  leave v s = ground (
    arith,
    find-modify original_id original_id (set_status AssignmentStatus.completed) s.assignments,
  )

  record_departure :
      (f : Assignment → Assignment) (s : Store)
      → ((a : Assignment) → (f a).status ≡ a.status)
      → Left s
      → Ensures Left (update_assignment original_id f s)
  unfolding update_assignment
  record_departure f s h q = grind (arith, find-modify original_id original_id f s.assignments, h)

  relieve :
      (v : ℕ) (s : Store)
      → Left s
      → Ensures Relieved (update_optimistic id v AssignmentStatus.on_site s)
  unfolding update_optimistic
  relieve v s q = ground (
    arith,
    find-modify original_id id (set_status AssignmentStatus.on_site) s.assignments,
    find-modify id id (set_status AssignmentStatus.on_site) s.assignments,
  )

  record_arrival :
      (f : Assignment → Assignment) (s : Store)
      → ((a : Assignment) → (f a).status ≡ a.status)
      → Relieved s
      → Ensures Relieved (update_assignment id f s)
  unfolding update_assignment
  record_arrival f s h q =
      grind
        (arith, find-modify original_id id f s.assignments, find-modify id id f s.assignments, h)

  resume :
      (s : Store) → Relieved s → Ensures HandedOver (transition_from_seeking_replacement job none s)
  unfolding transition_from_seeking_replacement
  resume s q =
      by_result
        (transition_job_status job JobStatus.in_progress (JobStatus.seeking_replacement ∷ []) none
          (some "replacement_handoff_completed") s)
        (transition_job_status-frame job JobStatus.in_progress (JobStatus.seeking_replacement ∷ [])
          none (some "replacement_handoff_completed") s)
        λ h.
          (transition_job_status-outcome job JobStatus.in_progress
              (JobStatus.seeking_replacement ∷ []) none (some "replacement_handoff_completed") s).1
            h
    where
      by_result :
          (r : Result (Unit {0}) × Store)
          → r.1.assignments ≡ s.assignments
          → (r.0 ≡ ok tt
              → (j : Job) × (find job s.jobs ≡ some j)
                × ((j.status ≡ JobStatus.in_progress)
                    ⊎ (includes (JobStatus.seeking_replacement ∷ []) j.status ≡ true))
                × (find job r.1.jobs ≡ some (record j { status = JobStatus.in_progress })))
          → Ensures HandedOver r
      by_result (ok u, t) e f = let (j, row, from, after) = f refl in ground (arith, e, after)
      by_result (err x, t) e f = tt

  clear :
      (f : Job → Job) (s : Store)
      → ((j : Job) → (f j).status ≡ j.status)
      → HandedOver s
      → Ensures HandedOver (update_job job f s)
  unfolding update_job
  clear f s h q = grind (arith, find-modify job job f s.jobs, h)

  release :
      (g : ℕ) (f : ShiftState → ShiftState) (s : Store)
      → HandedOver s
      → Ensures HandedOver (update_shift g f s)
  unfolding update_shift
  release g f s q = ground arith

  -- what a transaction leaves: the hand-over, or the database as it was
  abbrev pub IsAllOrNothing : {A : Type 0} → Store → Result A × Store → Type 0
  IsAllOrNothing s (ok a, t) = HandedOver t
  IsAllOrNothing s (err e, t) = t ≡ s

  in_transaction :
      {A : Type 0} (m : Action A) (s : Store)
      → Run (Ensures HandedOver) m s
      → IsAllOrNothing s (atomic m s)
  unfolding atomic transaction on_tx
  in_transaction {A} m s h = by_result (m s) h.at
    where
      by_result :
          (r : Result A × Store)
          → Ensures HandedOver r
          → IsAllOrNothing s (close (r.0, record { live = r.1; base = s }))
      by_result (ok a, t) q = q
      by_result (err e, t) q = refl

  -- A hand-over is done whole or not at all. If it succeeds, the original assignment is COMPLETED,
  -- the substitute is ON_SITE and the job, whose id is the substitute's, is IN_PROGRESS; if it
  -- throws, at whatever statement, the database is as it was. The two assignments differ.
  pub commit_handoff-IsAllOrNothing :
      (original substitute : Assignment) (s : Store)
      → substitute.job_id ≡ job
      → IsAllOrNothing s (commit_handoff id original_id original substitute s)
  unfolding commit_handoff gets pure
  commit_handoff-IsAllOrNothing original substitute s same = in_transaction _ s (
      Run-Ensures _ _ s (leave original.version_number s) λ _ s1 q1.
        Run-Ensures _ _ s1 q1 λ now s2 q2.
          Run-Ensures _ _ s2 (record_departure _ s2 (λ a. refl) q2) λ _ s3 q3.
            Run-Ensures _ _ s3 (relieve substitute.version_number s3 q3) λ updated s4 q4.
              Run-Ensures _ _ s4 (record_arrival _ s4 (λ a. refl) q4) λ _ s5 q5.
                Run-Ensures _ _ s5 (rw same (resume s5 q5)) λ _ s6 q6.
                  Run-Ensures _ _ s6 (rw same (clear _ s6 (λ j. refl) q6)) λ _ s7 q7.
                    Run-Ensures _ _ s7 (release original.guardian_id _ s7 q7)
                      λ _ s8 q8. record { at = q8 })
