-- ===== src/Prelude/Priority/Choice.antt =====
-- What is chosen by priority: one that is valid and fits, of the highest priority of those.
use mathlib.Core.List.{Memᴰ}
use mathlib.Core.List.Memᴰ.{head, tail}
use guardian_backend_service.Prelude.{
  ℕ, ◌≤◌, ◌≡◌, ◌⊎◌, inl, inr, refl, Bool, true, false, Option, none, some, List, [], ◌∷◌, ◌&&◌, leb,
  select, find_first, if◌then◌else◌, arith, ap,
}
use guardian_backend_service.Prelude.Priority.{
  insert_by_priority, sort_by_priority, first_by_priority,
}

unfit : (a b : Bool) → (a ≡ true → b ≡ false) → a && b ≡ false
unfit true b h = h refl
unfit false b h = refl

both : {a b : Bool} → a ≡ true → b ≡ true → a && b ≡ true
both e f = ground arith

split : (a b : Bool) → a && b ≡ true → (a ≡ true) × (b ≡ true)
split a b e = ground arith

module _ {A : Type 0} (priority : A → ℕ) where
  module _ (ok : A → Bool) where
    -- a policy that passes the test, and has the highest priority of those that do
    abbrev pub IsBest : Option A → List A → Type 0
    IsBest none ps = (q : A) → Memᴰ q ps → ok q ≡ false
    IsBest (some p) ps =
        Memᴰ p ps × (ok p ≡ true) × ((q : A) → Memᴰ q ps → ok q ≡ true → priority q ≤ priority p)

  insert-mem :
      (p q : A) (ps : List A) → Memᴰ q (insert_by_priority priority p ps) → (q ≡ p) ⊎ Memᴰ q ps
  unfolding insert_by_priority
  insert-mem p q [] (head e) = inl e
  insert-mem p q [] (tail m) = elim m [ ]
  insert-mem p q (r ∷ ps) m = by_order (leb (priority r) (priority p)) (insert-mem p q ps) m
    where
      by_order :
          (b : Bool)
          → (Memᴰ q (insert_by_priority priority p ps) → (q ≡ p) ⊎ Memᴰ q ps)
          → Memᴰ q (if b then p ∷ r ∷ ps else r ∷ insert_by_priority priority p ps)
          → (q ≡ p) ⊎ Memᴰ q (r ∷ ps)
      by_order true f (head e) = inl e
      by_order true f (tail m) = inr m
      by_order false f (head e) = inr (head e)
      by_order false f (tail m) = elim (f m) [ inl e ↦ inl e | inr n ↦ inr (tail n) ]

  mem-insert :
      (p q : A) (ps : List A) → (q ≡ p) ⊎ Memᴰ q ps → Memᴰ q (insert_by_priority priority p ps)
  unfolding insert_by_priority
  mem-insert p q [] (inl e) = head e
  mem-insert p q [] (inr m) = elim m [ ]
  mem-insert p q (r ∷ ps) m = by_order (leb (priority r) (priority p)) (mem-insert p q ps) m
    where
      by_order :
          (b : Bool)
          → ((q ≡ p) ⊎ Memᴰ q ps → Memᴰ q (insert_by_priority priority p ps))
          → (q ≡ p) ⊎ Memᴰ q (r ∷ ps)
          → Memᴰ q (if b then p ∷ r ∷ ps else r ∷ insert_by_priority priority p ps)
      by_order true f (inl e) = head e
      by_order true f (inr m) = tail m
      by_order false f (inl e) = tail (f (inl e))
      by_order false f (inr (head e)) = head e
      by_order false f (inr (tail m)) = tail (f (inr m))

  sort-mem : (q : A) (ps : List A) → Memᴰ q (sort_by_priority priority ps) → Memᴰ q ps
  unfolding sort_by_priority
  sort-mem q [] m = m
  sort-mem q (p ∷ ps) m = elim (insert-mem p q (sort_by_priority priority ps) m) [
    | inl e ↦ head e
    | inr n ↦ tail (sort-mem q ps n)
  ]

  mem-sort : (q : A) (ps : List A) → Memᴰ q ps → Memᴰ q (sort_by_priority priority ps)
  unfolding sort_by_priority
  mem-sort q [] m = elim m [ ]
  mem-sort q (p ∷ ps) (head e) = mem-insert p q (sort_by_priority priority ps) (inl e)
  mem-sort q (p ∷ ps) (tail m) =
      mem-insert p q (sort_by_priority priority ps) (inr (mem-sort q ps m))

  -- the first policy comes before none of higher priority, and so on
  abbrev IsSorted : List A → Type 0
  IsSorted [] = Unit {0}
  IsSorted (p ∷ ps) = ((q : A) → Memᴰ q ps → priority q ≤ priority p) × IsSorted ps

  insert-IsSorted :
      (p : A) (ps : List A) → IsSorted ps → IsSorted (insert_by_priority priority p ps)
  unfolding insert_by_priority
  insert-IsSorted p [] h = (λ q m. elim m [ ], tt)
  insert-IsSorted p (r ∷ ps) (first, sorted) =
      by_order (leb (priority r) (priority p)) refl (insert-IsSorted p ps sorted)
    where
      below_first :
          leb (priority r) (priority p) ≡ true → (q : A) → Memᴰ q (r ∷ ps) → priority q ≤ priority p
      below_first e q (head h) = ground arith
      below_first e q (tail m) = ground (arith, first q m)

      below_rest :
          leb (priority r) (priority p) ≡ false
          → (q : A) → (q ≡ p) ⊎ Memᴰ q ps
          → priority q ≤ priority r
      below_rest e q (inl h) = ground arith
      below_rest e q (inr m) = first q m

      by_order :
          (b : Bool)
          → leb (priority r) (priority p) ≡ b
          → IsSorted (insert_by_priority priority p ps)
          → IsSorted (if b then p ∷ r ∷ ps else r ∷ insert_by_priority priority p ps)
      by_order true e f = (below_first e, (first, sorted))
      by_order false e f = (λ q m. below_rest e q (insert-mem p q ps m), f)

  sort-IsSorted : (ps : List A) → IsSorted (sort_by_priority priority ps)
  unfolding sort_by_priority
  sort-IsSorted [] = tt
  sort-IsSorted (p ∷ ps) = insert-IsSorted p (sort_by_priority priority ps) (sort-IsSorted ps)

  module _ (test : A → Bool) where
    select-mem : (q : A) (ps : List A) → Memᴰ q (select test ps) → Memᴰ q ps × (test q ≡ true)
    select-mem q [] m = elim m [ ]
    select-mem q (p ∷ ps) m = by_test (test p) refl (select-mem q ps) m
      where
        by_test :
            (b : Bool)
            → test p ≡ b
            → (Memᴰ q (select test ps) → Memᴰ q ps × (test q ≡ true))
            → Memᴰ q (if b then p ∷ select test ps else select test ps)
            → Memᴰ q (p ∷ ps) × (test q ≡ true)
        by_test true e f (head h) = (head h, rw h e)
        by_test true e f (tail m) = (tail (f m).0, (f m).1)
        by_test false e f m = (tail (f m).0, (f m).1)

    mem-select : (q : A) (ps : List A) → Memᴰ q ps → test q ≡ true → Memᴰ q (select test ps)
    mem-select q [] m e = elim m [ ]
    mem-select q (p ∷ ps) m e = by_test (test p) refl (λ n. mem-select q ps n e) m
      where
        by_test :
            (b : Bool)
            → test p ≡ b
            → (Memᴰ q ps → Memᴰ q (select test ps))
            → Memᴰ q (p ∷ ps)
            → Memᴰ q (if b then p ∷ select test ps else select test ps)
        by_test true c f (head h) = head h
        by_test true c f (tail m) = tail (f m)
        by_test false c f (head h) = absurd (ground (arith, ap test h))
        by_test false c f (tail m) = f m

    -- on a sorted list the first that passes is the best
    find_first-IsBest : (ps : List A) → IsSorted ps → IsBest test (find_first test ps) ps
    find_first-IsBest [] h = λ q m. elim m [ ]
    find_first-IsBest (p ∷ ps) (first, sorted) =
        by_test (test p) refl (find_first test ps) (find_first-IsBest ps sorted)
      where
        later : test p ≡ false → (o : Option A) → IsBest test o ps → IsBest test o (p ∷ ps)
        later e none f = λ q m. elim m [ head h ↦ rw h e | tail k ↦ f q k ]
        later e (some r) (m, passes, best) = (
          tail m,
          passes,
          λ q n c. elim n [ head h ↦ absurd (ground (arith, ap test h)) | tail k ↦ best q k c ],
        )

        by_test :
            (b : Bool)
            → test p ≡ b
            → (o : Option A) → IsBest test o ps
            → IsBest test (if b then some p else o) (p ∷ ps)
        by_test true e o f =
            (head refl, e, λ q n c. elim n [ head h ↦ ground arith | tail k ↦ first q k ])
        by_test false e o f = later e o f

  pub first_by_priority-IsBest :
      (valid fits : A → Bool) (ps : List A)
      → IsBest (λ p. valid p && fits p) (first_by_priority priority valid fits ps) ps
  unfolding first_by_priority
  first_by_priority-IsBest valid fits ps =
      of_sorted (find_first fits sorted) (find_first-IsBest fits sorted (sort-IsSorted rows))
    where
      rows : List A
      rows = select valid ps

      sorted : List A
      sorted = sort_by_priority priority rows

      there : (q : A) → Memᴰ q ps → valid q ≡ true → Memᴰ q sorted
      there q m e = mem-sort q rows (mem-select valid q ps m e)

      of_sorted : (o : Option A) → IsBest fits o sorted → IsBest (λ p. valid p && fits p) o ps
      of_sorted none f = λ q m. unfit (valid q) (fits q) λ e. f q (there q m e)
      of_sorted (some p) (m, passes, best) =
          let (there_too, valid_too) = select-mem valid p ps (sort-mem p rows m) in
          (
            there_too,
            both valid_too passes,
            λ q n c.
                best q (there q n (split (valid q) (fits q) c).0) (split (valid q) (fits q) c).1,
          )
