-- ===== src/Prelude/Table/Laws.antt =====
-- What the operations of a table do to a lookup and to a count.
use Prim.Native.Nat.{ℕ, ◌+◌, ◌≤◌}
use mathlib.Core.Path.{◌≡◌, refl}
use mathlib.Core.Logic.{◌≢◌}
use mathlib.Core.Bool.{Bool, true, false}
use mathlib.Core.Option.{Option, none, some}
use mathlib.Core.List.{[], ◌∷◌}
use native.Mathlib.Omega.{arith}
use guardian_backend_service.Prelude.Tests.{◌==◌, if◌then◌else◌}
use guardian_backend_service.Prelude.Table.{
  Table, find, modify, modify_where, count_where, find_where, fresh_id, insert,
}

abbrev pub map_option {ℓ} : {A : Type ℓ} → (A → A) → Option A → Option A
map_option f none = none
map_option f (some a) = some (f a)

-- a test as a number
abbrev pub bit : Bool → ℕ
bit true = 1
bit false = 0

module _ {ℓ} {R : Type ℓ} where
  pub find-modify :
      (j k : ℕ) (f : R → R) (t : Table R)
      → find j (modify k f t) ≡ (if k == j then map_option f (find j t) else find j t)
  unfolding find modify
  find-modify j k f [] = ground arith
  find-modify j k f ((i, r) ∷ t) = ground (arith, find-modify j k f t)

  pub find-modify_self :
      (k : ℕ) (f : R → R) (t : Table R) (r : R)
      → find k t ≡ some r
      → find k (modify k f t) ≡ some (f r)
  find-modify_self k f t r h = ground (arith, find-modify k k f t)

  pub find-modify_ne :
      (j k : ℕ) (f : R → R) (t : Table R) → j ≢ k → find j (modify k f t) ≡ find j t
  find-modify_ne j k f t h = ground (arith, find-modify j k f t)

  pub find-modify_where :
      (j : ℕ) (p : R → Bool) (f : R → R) (t : Table R)
      → find j (modify_where p f t) ≡ map_option (λ r. if p r then f r else r) (find j t)
  unfolding find modify_where
  find-modify_where j p f [] = refl
  find-modify_where j p f ((i, r) ∷ t) = ground (arith, find-modify_where j p f t)

  -- A write to one row changes a count by what it changes of the row's test.
  pub count_where-modify :
      (p : R → Bool) (k : ℕ) (f : R → R) (t : Table R) (r : R)
      → find k t ≡ some r
      → count_where p (modify k f t) + bit (p r) ≡ count_where p t + bit (p (f r))
  unfolding find modify count_where
  count_where-modify p k f [] r h = cc
  count_where-modify p k f ((i, q) ∷ t) r h = ground (arith, count_where-modify p k f t r)

  pub count_where-modify_where_same :
      (q p : R → Bool) (f : R → R) (t : Table R)
      → ((r : R) → p r ≡ true → q (f r) ≡ q r)
      → count_where q (modify_where p f t) ≡ count_where q t
  unfolding count_where modify_where
  count_where-modify_where_same q p f [] h = refl
  count_where-modify_where_same q p f ((i, r) ∷ t) h =
      ground (arith, h r, count_where-modify_where_same q p f t h)

  pub count_where-modify_where_zero :
      (p : R → Bool) (f : R → R) (t : Table R)
      → ((r : R) → p r ≡ true → p (f r) ≡ false)
      → count_where p (modify_where p f t) ≡ 0
  unfolding count_where modify_where
  count_where-modify_where_zero p f [] h = refl
  count_where-modify_where_zero p f ((i, r) ∷ t) h =
      ground (arith, h r, count_where-modify_where_zero p f t h)

  pub count_where-modify_noop :
      (p : R → Bool) (k : ℕ) (f : R → R) (t : Table R)
      → ((r : R) → p (f r) ≡ p r)
      → count_where p (modify k f t) ≡ count_where p t
  unfolding modify count_where
  count_where-modify_noop p k f [] h = refl
  count_where-modify_noop p k f ((i, q) ∷ t) h =
      ground (arith, h q, count_where-modify_noop p k f t h)

-- every id of the table is that of one row: the primary key
abbrev pub HasKeys {ℓ} : {R : Type ℓ} → Table R → Type ℓ
HasKeys [] = Unit
HasKeys ((id, r) ∷ t) = (find id t ≡ none) × HasKeys t

module _ {R : Type 0} where
  pub modify-HasKeys : (k : ℕ) (f : R → R) (t : Table R) → HasKeys t → HasKeys (modify k f t)
  unfolding modify
  modify-HasKeys k f [] h = tt
  modify-HasKeys k f ((id, r) ∷ t) (fresh, keyed) = by_key (modify-HasKeys k f t keyed) (id == k)
    where
      by_key :
          HasKeys (modify k f t)
          → (b : Bool) → HasKeys (if b then (id, f r) ∷ t else (id, r) ∷ modify k f t)
      by_key rest true = (fresh, keyed)
      by_key rest false = (ground (arith, find-modify id k f t), rest)

  find_where-no :
      (p : R → Bool) (t : Table R) (id k : ℕ) (r : R)
      → find k t ≡ none
      → find_where p t ≡ some (id, r)
      → id ≢ k
  unfolding find find_where
  find_where-no p [] id k r h g = cc
  find_where-no p ((j, q) ∷ t) id k r h g = ground (arith, find_where-no p t id k r)

  -- what a search finds is the row of its id, and passes the test
  pub find_where-find :
      (p : R → Bool) (t : Table R) (id : ℕ) (r : R)
      → HasKeys t
      → find_where p t ≡ some (id, r)
      → (find id t ≡ some r) × (p r ≡ true)
  unfolding find find_where
  find_where-find p [] id r keyed h = cc
  find_where-find p ((j, q) ∷ t) id r (fresh, keyed) h =
      ground (arith, find_where-find p t id r keyed, find_where-no p t id j r fresh)

module _ {R : Type 0} where
  -- an id from `fresh_id` on is free
  pub find-beyond : (k : ℕ) (t : Table R) → fresh_id t ≤ k → find k t ≡ none
  unfolding find fresh_id
  find-beyond k [] h = refl
  find-beyond k ((id, r) ∷ t) h = ground (arith, find-beyond k t)

  pub find-insert :
      (k : ℕ) (r q : R) (t : Table R) → find k t ≡ some q → find k (insert r t) ≡ some q
  unfolding find
  find-insert k r q t h = ground (arith, find-beyond k t)
