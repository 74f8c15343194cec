-- ===== src/Dispatching/Release.antt =====
-- What is taken back when a job fails or is cancelled: the release methods of DispatchingService
-- (src/dispatching/dispatching.service.ts). They write a status and leave the version as it is.
use guardian_backend_service.Prelude.{
  ℕ, Bool, true, false, Option, none, some, List, [], ◌∷◌, ◌==◌, ◌===◌, ◌&&◌, ◌||◌, not, includes,
  is_some,
}
use guardian_backend_service.Prelude.Table.{Table, modify_where, select_where}
use guardian_backend_service.Prelude.Effect.{ok, ◌>>=◌, ◌>>◌, pure, gets, branch}
use guardian_backend_service.Data.{
  AssignmentStatus, assignment_eq, ReplacementResolution, Assignment, Job, Notice, Action, find_job,
  find_assignment, update_assignment, notify,
}
use guardian_backend_service.Guardians.ShiftState.{set_available}
use guardian_backend_service.Queue.{cancel_offer_expiry}

-- `data: { status: CANCELLED }`
abbrev pub withdraw : Assignment → Assignment
withdraw a = record a { status = AssignmentStatus.cancelled }

abbrev pub is_offer_of : ℕ → Assignment → Bool
is_offer_of job a = a.job_id == job && a.status === AssignmentStatus.offered

abbrev pub released_statuses : List AssignmentStatus
released_statuses =
    AssignmentStatus.accepted ∷ AssignmentStatus.en_route ∷ AssignmentStatus.on_site
    ∷ AssignmentStatus.early_release_requested ∷ AssignmentStatus.replacement_requested ∷ []

abbrev pub is_staffed_original_of : ℕ → Assignment → Bool
is_staffed_original_of job a =
    a.job_id == job && not (is_some a.replaces_assignment_id) && includes released_statuses a.status

abbrev pub is_substitute_of : ℕ → Assignment → Bool
is_substitute_of job a =
    a.job_id == job
    && is_some a.replaces_assignment_id
    && includes (AssignmentStatus.accepted ∷ AssignmentStatus.en_route ∷ []) a.status

-- `updateMany` on the rows that were just read: those that meet the test
unfoldable pub withdraw_where : (Assignment → Bool) → Action (Unit {0})
unfolding modify_where
withdraw_where p s = (ok tt, record s { assignments = modify_where p withdraw s.assignments })

unfoldable pub cancel_expiries : Table Assignment → Action (Unit {0})
unfolding cancel_offer_expiry
cancel_expiries [] = pure tt
cancel_expiries ((id, a) ∷ rest) = do cancel_offer_expiry id; cancel_expiries rest

unfoldable pub free_guardians : Table Assignment → Action (Unit {0})
unfolding set_available
free_guardians [] = pure tt
free_guardians ((id, a) ∷ rest) = do set_available a.guardian_id; free_guardians rest

-- With no rows the method returns at once: the loops then do nothing, and the update meets no row.
unfoldable pub release_active_staffed_assignments : ℕ → Action (Unit {0})
unfolding select_where withdraw_where free_guardians
release_active_staffed_assignments job = do
  active ← gets λ s. select_where (is_staffed_original_of job) s.assignments
  withdraw_where (is_staffed_original_of job)
  free_guardians active

unfoldable pub release_in_flight_offers : ℕ → Action (Unit {0})
unfolding select_where withdraw_where free_guardians cancel_expiries
release_in_flight_offers job = do
  offered ← gets λ s. select_where (is_offer_of job) s.assignments
  cancel_expiries offered
  withdraw_where (is_offer_of job)
  free_guardians offered

unfoldable pub release_substitutes : ℕ → Action (Unit {0})
unfolding select_where withdraw_where free_guardians
release_substitutes job = do
  pipeline ← gets λ s. select_where (is_substitute_of job) s.assignments
  withdraw_where (is_substitute_of job)
  free_guardians pipeline

abbrev pub departing_id : Option Job → Option ℕ
departing_id none = none
departing_id (some j) = j.replacement_departing_assignment_id

abbrev pub is_waiting_to_leave : Assignment → Bool
is_waiting_to_leave a =
    a.status === AssignmentStatus.awaiting_relief
    || a.status === AssignmentStatus.on_site
      && (elim a.replacement_resolution [ some ReplacementResolution.approved ↦ true | _ ↦ false ])

unfoldable pub withdraw_departing : ℕ → Option Assignment → Action (Unit {0})
unfolding update_assignment set_available notify
withdraw_departing id none = pure tt
withdraw_departing id (some a) = branch (not (is_waiting_to_leave a)) (pure tt) (do
  updated ← update_assignment id withdraw
  set_available a.guardian_id
  notify (Notice.in_app_guardian a.guardian_id "Job cancelled" id))

unfoldable pub release_departing : Option ℕ → Action (Unit {0})
unfolding find_assignment withdraw_departing
release_departing none = pure tt
release_departing (some id) = do departing ← find_assignment id; withdraw_departing id departing

unfoldable pub release_replacement_pipeline : ℕ → Action (Unit {0})
unfolding release_in_flight_offers release_substitutes find_job release_departing
release_replacement_pipeline job = do
  release_in_flight_offers job
  release_substitutes job
  row ← find_job job
  release_departing (departing_id row)
