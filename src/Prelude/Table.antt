-- ===== src/Prelude/Table.antt =====
-- A table of the database, keyed by its primary key: the rows in the order of insertion. Ids are
-- UUIDs, which the source only compares, so they are numbers here.
pub mod Laws
use Prim.Native.Nat.{ℕ, suc, max}
use mathlib.Core.Path.{◌≡◌, refl}
use mathlib.Core.Logic.{◌≢◌}
use mathlib.Core.Bool.{Bool, true, false}
use mathlib.Core.Option
use mathlib.Core.Option.{Option, none, some}
use mathlib.Core.List.{List, [], ◌∷◌}
use native.Mathlib.Omega.{arith}
use guardian_backend_service.Prelude.Tests.{◌==◌, if◌then◌else◌}

abbrev pub Table {ℓ} : Type ℓ → Type ℓ
Table R = List (ℕ × R)

module _ {ℓ} {R : Type ℓ} where
  -- `findUnique({ where: { id } })`
  unfoldable pub find : ℕ → Table R → Option R
  find k [] = none
  find k ((j, r) ∷ t) = if j == k then some r else find k t

  -- `update({ where: { id }, data })`, as a function of the row
  unfoldable pub modify : ℕ → (R → R) → Table R → Table R
  modify k f [] = []
  modify k f ((j, r) ∷ t) = if j == k then (j, f r) ∷ t else (j, r) ∷ modify k f t

  -- `updateMany({ where, data })`
  unfoldable pub modify_where : (R → Bool) → (R → R) → Table R → Table R
  modify_where p f [] = []
  modify_where p f ((j, r) ∷ t) = (if p r then (j, f r) else (j, r)) ∷ modify_where p f t

  -- `count({ where })`
  unfoldable pub count_where : (R → Bool) → Table R → ℕ
  count_where p [] = 0
  count_where p ((j, r) ∷ t) = if p r then suc (count_where p t) else count_where p t

  -- `findMany({ where })`
  unfoldable pub select_where : (R → Bool) → Table R → Table R
  select_where p [] = []
  select_where p ((j, r) ∷ t) = if p r then (j, r) ∷ select_where p t else select_where p t

  -- `findFirst({ where })`
  unfoldable pub find_where : (R → Bool) → Table R → Option (ℕ × R)
  find_where p [] = none
  find_where p ((j, r) ∷ t) = if p r then some (j, r) else find_where p t

  -- The database makes an id that no row has.
  unfoldable pub fresh_id : Table R → ℕ
  fresh_id [] = 0
  fresh_id ((id, r) ∷ t) = max (suc id) (fresh_id t)

  -- `create({ data })`
  abbrev pub insert : R → Table R → Table R
  insert r t = (fresh_id t, r) ∷ t
