-- ===== src/Jobs/History.antt =====
-- The status of a job and its history (src/jobs/job-lifecycle.service.ts).
use guardian_backend_service.Prelude.{
  ℕ, ◌≡◌, ◌⊎◌, inl, inr, refl, true, Option, none, some, List, [], ◌∷◌, String, arith, ◌==◌, ◌===◌,
  includes, not, ◌||◌, Bool-cases, if◌then◌else◌,
}
use guardian_backend_service.Prelude.Table.{find, modify}
use guardian_backend_service.Prelude.Table.Laws.{find-modify, find-modify_self}
use guardian_backend_service.Prelude.Effect.{Error, Result, ok, err, ◌>>=◌}
use guardian_backend_service.Data.{JobStatus, job_eq, Job, StatusChange, Store, update_job}
use guardian_backend_service.Jobs.Lifecycle.{transition_job_status, write_status, record_status}

-- the status that the newest entry of a job's history gives it
abbrev pub recorded : ℕ → List StatusChange → Option JobStatus
recorded id [] = none
recorded id (c ∷ cs) = if c.job_id == id then some c.new_status else recorded id cs

-- every job has the status that its history ends with
abbrev pub IsRecorded : Store → Type 0
IsRecorded s = (k : ℕ) (j : Job) → find k s.jobs ≡ some j → recorded k s.history ≡ some j.status

module _ (id : ℕ) (target : JobStatus) (allowed : List JobStatus) (by : Option ℕ)
    (reason : Option String) (s : Store) where
  abbrev result : Result (Unit {0}) × Store
  result = transition_job_status id target allowed by reason s

  -- A change of a job's status that throws writes nothing; one that does not leaves the job with the
  -- target status, and comes from that status or from one that it is allowed from.
  pub transition_job_status-outcome :
      ((e : Error) → result.0 ≡ err e → result.1 ≡ s)
      × (result.0 ≡ ok tt
          → (j : Job) × (find id s.jobs ≡ some j)
            × ((j.status ≡ target) ⊎ (includes allowed j.status ≡ true))
            × (find id result.1.jobs ≡ some (record j { status = target })))
  unfolding ◌>>=◌ transition_job_status write_status update_job record_status
  transition_job_status-outcome = (λ e h. ground arith, λ h. by_row (find id s.jobs) refl h)
    where
      by_row :
          (o : Option Job)
          → find id s.jobs ≡ o
          → result.0 ≡ ok tt
          → (j : Job) × (find id s.jobs ≡ some j)
            × ((j.status ≡ target) ⊎ (includes allowed j.status ≡ true))
            × (find id result.1.jobs ≡ some (record j { status = target }))
      by_row none e h = absurd (ground arith)
      by_row (some j) e h = (
        j,
        e,
        ground arith,
        ground (arith, find-modify_self id (λ k. record k { status = target }) s.jobs j e),
      )

  abbrev entry : Job → StatusChange
  entry j = record {
    job_id = id;
    old_status = some j.status;
    new_status = target;
    changed_by = by;
    reason = reason;
  }

  abbrev moved : Job → Store
  moved j = record s {
    jobs = modify id (λ r. record r { status = target }) s.jobs;
    history = entry j ∷ s.history;
  }

  two_ways : (result.1 ≡ s) ⊎ ((j : Job) × (result.1 ≡ moved j))
  unfolding ◌>>=◌ transition_job_status write_status update_job record_status
  two_ways = by_row (find id s.jobs) refl
    where
      by_row :
          (o : Option Job)
          → find id s.jobs ≡ o
          → (result.1 ≡ s) ⊎ ((j : Job) × (result.1 ≡ moved j))
      by_row none e = inl (ground arith)
      by_row (some j) e =
          elim (Bool-cases (j.status === target || not (includes allowed j.status))) [
            | inl c ↦ inl (ground arith)
            | inr c ↦ inr (j, ground arith)
          ]

  moved-IsRecorded : (j : Job) → IsRecorded s → IsRecorded (moved j)
  moved-IsRecorded j all k h row =
      ground (arith, find-modify k id (λ r. record r { status = target }) s.jobs, all k h)

  -- If every job had the status that its history ends with, every job has it after a change of
  -- one job's status, whether the change is made or refused.
  pub transition_job_status-IsRecorded :
      IsRecorded s → IsRecorded (transition_job_status id target allowed by reason s).1
  transition_job_status-IsRecorded all = elim two_ways [
    | inl e ↦ rw e all
    | inr (j, e) ↦ rw e (moved-IsRecorded j all)
  ]
