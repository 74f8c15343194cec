-- ===== src/Jobs/Departed.antt =====
-- What the release of a departing guardian leaves (`releaseReplacementPipelineForJob` of
-- src/dispatching/dispatching.service.ts).
use guardian_backend_service.Prelude.{
  ℕ, ◌≡◌, refl, Bool, false, Option, none, some, [], ◌∷◌, arith, Bool-cases, inl, inr,
}
use guardian_backend_service.Prelude.Table.{Table, find, modify, modify_where, count_where}
use guardian_backend_service.Prelude.Table.Laws.{find-modify_self}
use guardian_backend_service.Prelude.Effect.{◌>>=◌}
use guardian_backend_service.Data.{
  assignment_eq, job_eq, Assignment, Store, find_assignment, update_assignment, notify,
}
use guardian_backend_service.Jobs.Frame.{set_available-frame, set_available-jobs}
use guardian_backend_service.Dispatching.Release.{
  withdraw, release_active_staffed_assignments, withdraw_departing, release_departing,
  is_waiting_to_leave, withdraw_where, free_guardians,
}

-- a test that no withdrawn assignment passes
module _ (p : Assignment → Bool) (gone : (a : Assignment) → p (withdraw a) ≡ false) where
  pub zero-withdrawn :
      (q : Assignment → Bool) (t : Table Assignment)
      → count_where p t ≡ 0
      → count_where p (modify_where q withdraw t) ≡ 0
  unfolding count_where modify_where
  zero-withdrawn q [] h = h
  zero-withdrawn q ((id, a) ∷ t) h = ground (arith, gone a, zero-withdrawn q t)

  zero-modify :
      (k : ℕ) (t : Table Assignment) → count_where p t ≡ 0 → count_where p (modify k withdraw t) ≡ 0
  unfolding count_where modify
  zero-modify k [] h = h
  zero-modify k ((id, a) ∷ t) h = ground (arith, gone a, zero-modify k t)

  zero-departing :
      (k : ℕ) (o : Option Assignment) (s : Store)
      → count_where p s.assignments ≡ 0
      → count_where p (withdraw_departing k o s).1.assignments ≡ 0
  unfolding withdraw_departing ◌>>=◌ update_assignment notify
  zero-departing k none s h = h
  zero-departing k (some a) s h = grind (arith, set_available-frame, zero-modify k s.assignments)

  pub zero-release :
      (o : Option ℕ) (s : Store)
      → count_where p s.assignments ≡ 0
      → count_where p (release_departing o s).1.assignments ≡ 0
  unfolding release_departing ◌>>=◌ find_assignment
  zero-release none s h = h
  zero-release (some k) s h = zero-departing k (find k s.assignments) s h

-- A guardian who was waiting to leave is withdrawn, whether or not the shift is there.
departing_row-gone :
    (d : ℕ) (o : Option Assignment) (s : Store) (b : Assignment)
    → find d s.assignments ≡ o
    → find d (withdraw_departing d o s).1.assignments ≡ some b
    → is_waiting_to_leave b ≡ false
unfolding withdraw_departing ◌>>=◌ update_assignment notify
departing_row-gone d none s b e row = ground arith
departing_row-gone d (some a) s b e row = elim (Bool-cases (is_waiting_to_leave a)) [
  | inl waits ↦
      grind (arith, set_available-frame, find-modify_self d withdraw s.assignments a e, row)
  | inr stays ↦ ground (arith, e, row)
]

pub departing-gone :
    (d : ℕ) (s : Store) (b : Assignment)
    → find d (release_departing (some d) s).1.assignments ≡ some b
    → is_waiting_to_leave b ≡ false
unfolding release_departing ◌>>=◌ find_assignment
departing-gone d s b row = departing_row-gone d (find d s.assignments) s b refl row

pub release_departing-jobs : (o : Option ℕ) (s : Store) → (release_departing o s).1.jobs ≡ s.jobs
unfolding release_departing withdraw_departing ◌>>=◌ find_assignment update_assignment notify
release_departing-jobs none s = refl
release_departing-jobs (some d) s = grind (arith, set_available-jobs)

free_guardians-jobs : (t : Table Assignment) (s : Store) → (free_guardians t s).1.jobs ≡ s.jobs
unfolding free_guardians ◌>>=◌
free_guardians-jobs [] s = refl
free_guardians-jobs ((id, a) ∷ rest) s = grind (arith, set_available-jobs, free_guardians-jobs rest)

pub release_active-jobs :
    (job : ℕ) (s : Store) → (release_active_staffed_assignments job s).1.jobs ≡ s.jobs
unfolding release_active_staffed_assignments withdraw_where ◌>>=◌
release_active-jobs job s = grind (arith, free_guardians-jobs)
