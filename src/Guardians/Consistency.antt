-- ===== src/Guardians/Consistency.antt =====
-- `availableForJobs` is set exactly for a guardian whose shift is AVAILABLE
-- (src/guardians/shift-state.service.ts).
use guardian_backend_service.Prelude.{
  ℕ, ◌≡◌, refl, Bool, true, false, Option, none, some, ◌∷◌, ◌===◌, arith, not, if◌then◌else◌,
}
use guardian_backend_service.Prelude.Table.{Table, find, modify}
use guardian_backend_service.Prelude.Table.Laws.{find-modify}
use guardian_backend_service.Prelude.Effect.{
  Result, ok, err, ◌>>=◌, pure, branch, continue, some_or_throw, shift_state_not_found,
  record_missing,
}
use guardian_backend_service.Data.{shift_eq, available, off_duty, ShiftState, Store, update_shift}
use guardian_backend_service.Guardians.ShiftState.{
  assert_dispatch_eligible, assert_profile_eligible, started, restart, upsert_shift, start_shift,
  auto_start_on_login, ended, end_shift, made_busy, set_busy, made_available, set_available,
  ignore_error,
}

abbrev pub IsConsistent : ShiftState → Type 0
IsConsistent w = w.available_for_jobs ≡ (w.shift_status === available)

abbrev pub AllConsistent : Store → Type 0
AllConsistent s = (g : ℕ) (w : ShiftState) → find g s.shift_states ≡ some w → IsConsistent w

modify-Consistent :
    (id : ℕ) (f : ShiftState → ShiftState) (t : Table ShiftState)
    → ((w : ShiftState) → IsConsistent (f w))
    → ((g : ℕ) (w : ShiftState) → find g t ≡ some w → IsConsistent w)
    → (g : ℕ) (w : ShiftState) → find g (modify id f t) ≡ some w
    → IsConsistent w
modify-Consistent id f t h all g w row = by_row (find g t) refl
  where
    by_row : (o : Option ShiftState) → find g t ≡ o → IsConsistent w
    by_row none e = ground (arith, find-modify g id f t)
    by_row (some v) e = grind (arith, find-modify g id f t, h v, all g v e)

update-Consistent :
    (id : ℕ) (f : ShiftState → ShiftState) (s : Store)
    → ((w : ShiftState) → IsConsistent (f w))
    → AllConsistent s
    → AllConsistent (update_shift id f s).1
unfolding update_shift
update-Consistent id f s h all = by_row (find id s.shift_states)
  where
    by_row :
        (o : Option ShiftState)
        → AllConsistent
            (elim o as (λ _. Result (Unit {0}) × Store) [
              | none ↦ (err record_missing, s)
              | some w ↦ (ok tt, record s { shift_states = modify id f s.shift_states })
            ]).1
    by_row none = all
    by_row (some w) = modify-Consistent id f s.shift_states h all

upsert-Consistent :
    (id : ℕ) (ends : Option ℕ) (s : Store)
    → AllConsistent s
    → AllConsistent (upsert_shift id ends s).1
unfolding upsert_shift find
upsert-Consistent id ends s all = by_row (find id s.shift_states)
  where
    new_row :
        (g : ℕ) (w : ShiftState)
        → find g ((id, started s.now ends) ∷ s.shift_states) ≡ some w
        → IsConsistent w
    new_row g w row = ground (arith, all g w)

    restarted : (e : Option ℕ) (w : ShiftState) → IsConsistent (restart s.now e w)
    restarted none w = refl
    restarted (some e) w = refl

    by_row :
        (o : Option ShiftState)
        → AllConsistent
            (elim o as (λ _. Result (Unit {0}) × Store) [
              | none ↦
                  (ok tt, record s { shift_states = (id, started s.now ends) ∷ s.shift_states })
              | some w ↦
                  (ok tt, record s { shift_states = modify id (restart s.now ends) s.shift_states })
            ]).1
    by_row none = new_row
    by_row (some w) = modify-Consistent id (restart s.now ends) s.shift_states (restarted ends) all

assert_dispatch_eligible-quiet : (id : ℕ) (s : Store) → (assert_dispatch_eligible id s).1 ≡ s
unfolding ◌>>=◌ assert_dispatch_eligible assert_profile_eligible
assert_dispatch_eligible-quiet id s = ground arith

start-Consistent :
    (id : ℕ) (ends : Option ℕ) (s : Store)
    → AllConsistent s
    → AllConsistent (start_shift id ends s).1
unfolding ◌>>=◌ start_shift
start-Consistent id ends s all =
    by_check (assert_dispatch_eligible id s) (assert_dispatch_eligible-quiet id s)
  where
    by_check :
        (r : Result (Unit {0}) × Store)
        → r.1 ≡ s
        → AllConsistent (continue (λ _. upsert_shift id ends) r).1
    by_check (ok u, t) e = rw e (upsert-Consistent id ends s all)
    by_check (err x, t) e = rw e all

-- what ShiftStateService is asked for
pub data ShiftRequest : Type 0 where
  start : ℕ → Option ℕ → ShiftRequest
  login stop work release : ℕ → ShiftRequest

unfoldable pub run_shift : ShiftRequest → Store → Store
run_shift (ShiftRequest.start id ends) s = (start_shift id ends s).1
run_shift (ShiftRequest.login id) s = (auto_start_on_login id s).1
run_shift (ShiftRequest.stop id) s = (end_shift id s).1
run_shift (ShiftRequest.work id) s = (set_busy id s).1
run_shift (ShiftRequest.release id) s = (set_available id s).1

login-Consistent :
    (id : ℕ) (s : Store) → AllConsistent s → AllConsistent (auto_start_on_login id s).1
unfolding auto_start_on_login
login-Consistent id s all = by_row (find id s.shift_states)
  where
    by_row :
        (o : Option ShiftState)
        → AllConsistent
            (elim o as (λ _. Result (Unit {0}) × Store) [
              | none ↦ ignore_error (start_shift id none s)
              | some w ↦
                  if not (w.shift_status === off_duty)
                  then (ok tt, s)
                  else ignore_error (start_shift id none s)
            ]).1
    by_row none = start-Consistent id none s all
    by_row (some w) = by_status (w.shift_status === off_duty)
      where
        by_status :
            (b : Bool)
            → AllConsistent (if not b then (ok tt, s) else ignore_error (start_shift id none s)).1
        by_status false = all
        by_status true = start-Consistent id none s all

release-Consistent : (id : ℕ) (s : Store) → AllConsistent s → AllConsistent (set_available id s).1
unfolding ◌>>=◌ set_available
release-Consistent id s all = by_row (find id s.shift_states)
  where
    by_row :
        (o : Option ShiftState)
        → AllConsistent
            (continue
              (λ (w : ShiftState).
                branch (w.shift_status === off_duty) (pure tt) (update_shift id made_available))
              (some_or_throw o shift_state_not_found s)).1
    by_row none = all
    by_row (some w) = by_status (w.shift_status === off_duty)
      where
        by_status :
            (b : Bool) → AllConsistent (branch b (pure tt) (update_shift id made_available) s).1
        by_status false = update-Consistent id made_available s (λ v. refl) all
        by_status true = all

-- A guardian who is marked available for jobs is one whose shift is AVAILABLE, and no other is:
-- every request to ShiftStateService keeps this, whether it succeeds or fails.
pub run_shift-Consistent :
    (r : ShiftRequest) (s : Store) → AllConsistent s → AllConsistent (run_shift r s)
unfolding run_shift end_shift set_busy
run_shift-Consistent (ShiftRequest.start id ends) s all = start-Consistent id ends s all
run_shift-Consistent (ShiftRequest.login id) s all = login-Consistent id s all
run_shift-Consistent (ShiftRequest.stop id) s all = update-Consistent id ended s (λ w. refl) all
run_shift-Consistent (ShiftRequest.work id) s all = update-Consistent id made_busy s (λ w. refl) all
run_shift-Consistent (ShiftRequest.release id) s all = release-Consistent id s all
