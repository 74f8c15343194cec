-- ===== src/Dispatching/Eligibility.antt =====
-- GuardianDispatchEligibilityService (src/guardians/guardian-dispatch-eligibility.service.ts): who may
-- be offered a job. No other transaction holds a lock, so `SKIP LOCKED` skips nobody.
use guardian_backend_service.Prelude.{
  ℕ, ◌+◌, ◌*◌, ◌/◌, Bool, true, false, Option, none, some, List, [], ◌∷◌, ◌++◌, map, ◌==◌, ◌===◌,
  ◌&&◌, not, leb, includes, nat_eq, any_of, is_some, find_first, length, select, take,
  if◌then◌else◌,
}
use guardian_backend_service.Prelude.Table.{Table, find, find_where, select_where}
use guardian_backend_service.Data.{
  AssignmentStatus, assignment_eq, ShiftStatus, shift_eq, Assignment, Certification, Guardian,
  ShiftState, Store,
}
use guardian_backend_service.Jobs.Progress.{staffed_statuses}

abbrev pub terminal_statuses : List AssignmentStatus
terminal_statuses =
    AssignmentStatus.declined ∷ AssignmentStatus.expired ∷ AssignmentStatus.cancelled ∷ []

-- CURRENT_DATE, as the time that its day begins
abbrev pub current_date : ℕ → ℕ
current_date now = now / 86400000 * 86400000

-- verified, and not expired before today
abbrev pub is_current_cert : ℕ → Certification → Bool
is_current_cert now c =
    c.is_verified && (elim c.expiry_date [ none ↦ true | some d ↦ leb (current_date now) d ])

abbrev pub is_free : Option ShiftState → Bool
is_free none = false
is_free (some w) = w.shift_status === ShiftStatus.available && w.available_for_jobs

-- the `WHERE` of the two queries
unfoldable pub is_eligible : Store → ℕ → ℕ × Guardian → Bool
is_eligible s district (id, g) =
    is_free (find id s.shift_states)
    && g.is_active
    && g.is_verified
    && includes g.districts district
    && any_of (is_current_cert s.now) g.certifications

unfoldable pub count_eligible_guardians : ℕ → Store → ℕ
unfolding is_eligible
count_eligible_guardians district s = length (select (is_eligible s district) s.guardians)

-- `ORDER BY reliability_score DESC`, by insertion
unfoldable pub insert_by_score : ℕ × Guardian → Table Guardian → Table Guardian
insert_by_score g [] = g ∷ []
insert_by_score g (h ∷ t) =
    if leb h.1.reliability_score g.1.reliability_score then g ∷ h ∷ t else h ∷ insert_by_score g t

unfoldable pub sort_by_score : Table Guardian → Table Guardian
unfolding insert_by_score
sort_by_score [] = []
sort_by_score (g ∷ t) = insert_by_score g (sort_by_score t)

abbrev pub id_of : ℕ × Guardian → ℕ
id_of (id, g) = id

unfoldable pub list_eligible_guardian_ids : ℕ → ℕ → List ℕ → Store → List ℕ
unfolding is_eligible sort_by_score
list_eligible_guardian_ids district limit excluded s =
    select (λ id. not (includes excluded id))
      (map id_of (
        take (limit + length excluded)
          (sort_by_score (select (is_eligible s district) s.guardians))))

-- `new Set(…)`: each value once, where it first stands
unfoldable pub distinct : List ℕ → List ℕ
distinct [] = []
distinct (x ∷ xs) = x ∷ select (λ y. not (y == x)) (distinct xs)

abbrev pub guardian_of : ℕ × Assignment → ℕ
guardian_of (id, a) = a.guardian_id

abbrev pub is_tried_on : ℕ → Assignment → Bool
is_tried_on job a = a.job_id == job && includes terminal_statuses a.status

unfoldable pub tried_guardian_ids : ℕ → Table Assignment → List ℕ
unfolding select_where
tried_guardian_ids job t = distinct (map guardian_of (select_where (is_tried_on job) t))

abbrev pub is_active_original_on : ℕ → Assignment → Bool
is_active_original_on job a =
    a.job_id == job
    && not (is_some a.replaces_assignment_id)
    && includes (AssignmentStatus.offered ∷ staffed_statuses) a.status

unfoldable pub excluded_guardian_ids : ℕ → Table Assignment → List ℕ
unfolding tried_guardian_ids select_where distinct
excluded_guardian_ids job t =
    distinct
      (tried_guardian_ids job t ++ map guardian_of (select_where (is_active_original_on job) t))

unfoldable pub replacement_excluded_guardian_ids : ℕ → Table Assignment → List ℕ
unfolding select_where distinct
replacement_excluded_guardian_ids job t = distinct (
    map guardian_of
      (select_where (λ a. a.job_id == job && not (includes terminal_statuses a.status)) t))

unfoldable pub has_active_offer : ℕ → Table Assignment → Bool
unfolding find_where
has_active_offer job t =
    is_some (find_where (λ a. a.job_id == job && a.status === AssignmentStatus.offered) t)

unfoldable pub filter_reachable : List ℕ → Store → List ℕ
filter_reachable ids s = select (λ id. includes s.present id) ids

-- the guardians who are chosen, and the two lists of which the counts go into the log
pub record Pick : Type 0 where
  pub chosen : List ℕ
  pub eligible_ids : List ℕ
  pub reachable_ids : List ℕ

abbrev pub dispatch_pool_size : ℕ
dispatch_pool_size = 50

abbrev pub one_of : Option ℕ → List ℕ
one_of none = []
one_of (some id) = id ∷ []

abbrev pub candidates_for : ℕ → List ℕ → Store → List ℕ
candidates_for district excluded s =
    list_eligible_guardian_ids district dispatch_pool_size excluded s

-- `pickNextReachableGuardian` with `replacement: true`
unfoldable pub pick_next_reachable_guardian : ℕ → ℕ → Store → Pick
unfolding replacement_excluded_guardian_ids list_eligible_guardian_ids filter_reachable
pick_next_reachable_guardian district job s =
    let candidates =
      candidates_for district (replacement_excluded_guardian_ids job s.assignments) s in
    let reachable = filter_reachable candidates s in
    record {
      chosen = one_of (find_first (λ id. includes reachable id) candidates);
      eligible_ids = candidates;
      reachable_ids = reachable;
    }

unfoldable pub pick_parallel_reachable_guardians : ℕ → ℕ → ℕ → Store → Pick
unfolding excluded_guardian_ids list_eligible_guardian_ids filter_reachable
pick_parallel_reachable_guardians district job count s =
    let candidates = candidates_for district (excluded_guardian_ids job s.assignments) s in
    let reachable = filter_reachable candidates s in
    record {
      chosen = take count (select (λ id. includes reachable id) candidates);
      eligible_ids = candidates;
      reachable_ids = reachable;
    }
