-- ===== src/Prelude/Priority.antt =====
-- `findMany({ where, orderBy: { priority: 'desc' } })` followed by `find`: how the policies of pay and
-- of billing and the pricing rules are chosen.
pub mod Choice
use guardian_backend_service.Prelude.{
  ℕ, Bool, Option, List, [], ◌∷◌, leb, select, find_first, if◌then◌else◌,
}

module _ {A : Type 0} (priority : A → ℕ) where
  -- the order, by insertion
  unfoldable pub insert_by_priority : A → List A → List A
  insert_by_priority p [] = p ∷ []
  insert_by_priority p (q ∷ qs) =
      if leb (priority q) (priority p) then p ∷ q ∷ qs else q ∷ insert_by_priority p qs

  unfoldable pub sort_by_priority : List A → List A
  unfolding insert_by_priority
  sort_by_priority [] = []
  sort_by_priority (p ∷ ps) = insert_by_priority p (sort_by_priority ps)

  unfoldable pub first_by_priority : (A → Bool) → (A → Bool) → List A → Option A
  unfolding sort_by_priority
  first_by_priority valid fits ps = find_first fits (sort_by_priority (select valid ps))
