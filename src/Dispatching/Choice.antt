-- ===== src/Dispatching/Choice.antt =====
-- Whom a round of dispatch chooses (src/guardians/guardian-dispatch-eligibility.service.ts).
use guardian_backend_service.Prelude.{
  ℕ, zero, suc, ◌+◌, length, ◌≡◌, ◌≢◌, inl, inr, refl, Bool, true, false, some, List, [], ◌∷◌, ◌++◌,
  map, ◌==◌, ◌&&◌, ◌||◌, not, includes, nat_eq, any_of, select, take, arith, Bool-cases,
}
use guardian_backend_service.Prelude.Table.{Table, find, select_where}
use guardian_backend_service.Data.{assignment_eq, Assignment, Guardian, Store}
use guardian_backend_service.Dispatching.Eligibility.{
  is_eligible, insert_by_score, sort_by_score, id_of, list_eligible_guardian_ids, distinct,
  guardian_of, is_tried_on, tried_guardian_ids, is_active_original_on, excluded_guardian_ids,
  candidates_for, filter_reachable, dispatch_pool_size, pick_parallel_reachable_guardians,
}

includes-select :
    (p : ℕ → Bool) (xs : List ℕ) (g : ℕ) → includes (select p xs) g ≡ (includes xs g && p g)
includes-select p [] g = refl
includes-select p (x ∷ xs) g = elim (Bool-cases (x == g)) [
  | inl e ↦ ground (arith, includes-select p xs g)
  | inr e ↦ ground (arith, includes-select p xs g)
]

pub includes-take :
    (n : ℕ) (xs : List ℕ) (g : ℕ) → includes (take n xs) g ≡ true → includes xs g ≡ true
includes-take zero xs g h = cc
includes-take (suc n) [] g h = cc
includes-take (suc n) (x ∷ xs) g h = ground (arith, includes-take n xs g)

includes-distinct : (xs : List ℕ) (g : ℕ) → includes (distinct xs) g ≡ includes xs g
unfolding distinct
includes-distinct [] g = refl
includes-distinct (x ∷ xs) g =
    ground (arith, includes-distinct xs g, includes-select (λ y. not (y == x)) (distinct xs) g)

includes-append :
    (xs ys : List ℕ) (g : ℕ) → includes (xs ++ ys) g ≡ (includes xs g || includes ys g)
includes-append [] ys g = refl
includes-append (x ∷ xs) ys g = ground (arith, includes-append xs ys g)

-- a row that passes the test gives its guardian
select_where-guardian :
    (p : Assignment → Bool) (t : Table Assignment) (id : ℕ) (a : Assignment)
    → find id t ≡ some a
    → p a ≡ true
    → includes (map guardian_of (select_where p t)) a.guardian_id ≡ true
unfolding find select_where
select_where-guardian p [] id a h q = cc
select_where-guardian p ((k, b) ∷ t) id a h q = ground (arith, select_where-guardian p t id a)

-- who was offered the job and declined, or let it expire, or had it cancelled
pub tried-guardian :
    (job : ℕ) (t : Table Assignment) (id : ℕ) (a : Assignment)
    → find id t ≡ some a
    → is_tried_on job a ≡ true
    → includes (tried_guardian_ids job t) a.guardian_id ≡ true
unfolding tried_guardian_ids
tried-guardian job t id a row h = ground (
  arith,
  includes-distinct (map guardian_of (select_where (is_tried_on job) t)) a.guardian_id,
  select_where-guardian (is_tried_on job) t id a row,
)

-- Who was offered the job and declined, or is on it, is excluded.
excluded-guardian :
    (job : ℕ) (t : Table Assignment) (id : ℕ) (a : Assignment)
    → find id t ≡ some a
    → (is_tried_on job a || is_active_original_on job a) ≡ true
    → includes (excluded_guardian_ids job t) a.guardian_id ≡ true
unfolding excluded_guardian_ids
excluded-guardian job t id a row h = ground (
  arith,
  includes-distinct
      (tried_guardian_ids job t ++ map guardian_of (select_where (is_active_original_on job) t))
      a.guardian_id,
  includes-append (tried_guardian_ids job t)
      (map guardian_of (select_where (is_active_original_on job) t)) a.guardian_id,
  tried-guardian job t id a row,
  select_where-guardian (is_active_original_on job) t id a row,
)

module _ (q : ℕ × Guardian → Bool) where
  any_of-select :
      (p : ℕ × Guardian → Bool) (t : Table Guardian)
      → any_of q (select p t) ≡ any_of (λ row. q row && p row) t
  any_of-select p [] = refl
  any_of-select p (row ∷ t) = ground (arith, any_of-select p t)

  any_of-insert :
      (row : ℕ × Guardian) (t : Table Guardian)
      → any_of q (insert_by_score row t) ≡ (q row || any_of q t)
  unfolding insert_by_score
  any_of-insert row [] = ground arith
  any_of-insert row (r ∷ t) = ground (arith, any_of-insert row t)

  any_of-sort : (t : Table Guardian) → any_of q (sort_by_score t) ≡ any_of q t
  unfolding sort_by_score
  any_of-sort [] = refl
  any_of-sort (row ∷ t) = ground (arith, any_of-insert row (sort_by_score t), any_of-sort t)

  any_of-take : (n : ℕ) (t : Table Guardian) → any_of q (take n t) ≡ true → any_of q t ≡ true
  any_of-take zero t h = cc
  any_of-take (suc n) [] h = cc
  any_of-take (suc n) (row ∷ t) h = ground (arith, any_of-take n t)

abbrev is_row_of : ℕ → ℕ × Guardian → Bool
is_row_of g row = row.0 == g

includes-ids : (g : ℕ) (t : Table Guardian) → includes (map id_of t) g ≡ any_of (is_row_of g) t
includes-ids g [] = refl
includes-ids g ((id, r) ∷ t) = ground (arith, includes-ids g t)

-- the guardian has a row that meets the conditions on the shift, the account, the district and the
-- certificates
abbrev pub is_candidate : Store → ℕ → ℕ → Bool
is_candidate s district g =
    any_of (λ row. is_row_of g row && is_eligible s district row) s.guardians

eligible-candidate :
    (district limit : ℕ) (excluded : List ℕ) (s : Store) (g : ℕ)
    → includes (list_eligible_guardian_ids district limit excluded s) g ≡ true
    → (is_candidate s district g ≡ true) × (includes excluded g ≡ false)
unfolding list_eligible_guardian_ids
eligible-candidate district limit excluded s g h =
    let rows = select (is_eligible s district) s.guardians in
    ground (
      arith,
      includes-select (λ id. not (includes excluded id))
          (map id_of (take (limit + length excluded) (sort_by_score rows))) g,
      includes-ids g (take (limit + length excluded) (sort_by_score rows)),
      any_of-take (is_row_of g) (limit + length excluded) (sort_by_score rows),
      any_of-sort (is_row_of g) rows,
      any_of-select (is_row_of g) (is_eligible s district) s.guardians,
    )

-- what it is to be chosen, before the history of offers
chosen_from_candidates :
    (district count : ℕ) (excluded : List ℕ) (s : Store) (g : ℕ)
    → includes
        (take count (
          select
            (λ id. includes (filter_reachable (candidates_for district excluded s) s) id)
            (candidates_for district excluded s)))
        g
      ≡ true
    → (is_candidate s district g ≡ true)
      × (includes s.present g ≡ true)
      × (includes excluded g ≡ false)
unfolding filter_reachable
chosen_from_candidates district count excluded s g h =
    let candidates = candidates_for district excluded s in
    let is_reachable = λ (id : ℕ). includes (filter_reachable candidates s) id in
    ground (
      arith,
      includes-take count (select is_reachable candidates) g h,
      includes-select is_reachable candidates g,
      includes-select (λ id. includes s.present id) candidates g,
      eligible-candidate district dispatch_pool_size excluded s g,
    )

-- A guardian whom a round of parallel offers chooses is eligible and reachable, and was neither
-- offered the job before, in an offer that was declined, expired or cancelled, nor has an open
-- offer of one of its original slots or fills one. Substitutes, and offers to them, are not looked at.
pub parallel_pick_is_fresh :
    (district job count : ℕ) (s : Store) (g : ℕ)
    → includes (pick_parallel_reachable_guardians district job count s).chosen g ≡ true
    → (is_candidate s district g ≡ true)
      × (includes s.present g ≡ true)
      × ((id : ℕ) (a : Assignment)
          → find id s.assignments ≡ some a
          → (is_tried_on job a || is_active_original_on job a) ≡ true
          → a.guardian_id ≢ g)
unfolding pick_parallel_reachable_guardians filter_reachable
parallel_pick_is_fresh district job count s g h =
    let (eligible, present, fresh) =
      chosen_from_candidates district count (excluded_guardian_ids job s.assignments) s g h in
    (
      eligible,
      present,
      λ id a row tried same.
          ground (arith, fresh, excluded-guardian job s.assignments id a row tried, same),
    )
