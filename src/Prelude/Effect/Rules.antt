-- ===== src/Prelude/Effect/Rules.antt =====
-- Statements about a run of a handler, one rule for each way to build a handler.
use mathlib.Core.Path.{◌≡◌, refl, ap}
use mathlib.Core.Bool.{Bool, true, false}
use mathlib.Core.Option.{Option, none, some}
use guardian_backend_service.Prelude.Effect.{
  Error, Result, ok, err, St, continue, ◌>>=◌, pure, throw_if, some_or_throw, gets, branch,
  or_throw, lift_result,
}

-- the outcome of `m` at `s` has the property
pub record Run {S A : Type 0} (P : Result A × S → Type 0) (m : St S A) (s : S) : Type 0 where
  pub at : P (m s)

module _ {S A : Type 0} {P : Result A × S → Type 0} where
  pub Run-pure : (a : A) (s : S) → P (ok a, s) → Run P (pure a) s
  unfolding pure
  Run-pure a s h = record { at = h }

  pub Run-branch :
      (b : Bool) (m k : St S A) (s : S)
      → (b ≡ true → Run P m s)
      → (b ≡ false → Run P k s)
      → Run P (branch b m k) s
  unfolding branch
  Run-branch true m k s h g = record { at = (h refl).at }
  Run-branch false m k s h g = record { at = (g refl).at }

module _ {S A B : Type 0} {P : Result B × S → Type 0} where
  -- the first part has run, with a known outcome
  pub Run-known :
      (m : St S A) (f : A → St S B) (s : S) (r : Result A × S)
      → m s ≡ r
      → P (continue f r)
      → Run P (m >>= f) s
  unfolding ◌>>=◌
  Run-known m f s r e h = record { at = rw e h }

  pub Run-bind :
      (m : St S A) (f : A → St S B) (s : S) → Run (λ r. P (continue f r)) m s → Run P (m >>= f) s
  unfolding ◌>>=◌
  Run-bind m f s h = record { at = h.at }

  -- The first part only reads: it leaves the state as it is.
  pub Run-quiet :
      (m : St S A) (f : A → St S B) (s : S)
      → (m s).1 ≡ s
      → ((e : Error) → P (err e, s))
      → ((a : A) → (m s).0 ≡ ok a → Run P (f a) s)
      → Run P (m >>= f) s
  unfolding ◌>>=◌
  Run-quiet m f s q h g = record { at = by_result (m s) refl q }
    where
      by_result : (r : Result A × S) → m s ≡ r → r.1 ≡ s → P (continue f r)
      by_result (ok a, t) e u = rw u (g a (ap (λ (x : Result A × S). x.0) e)).at
      by_result (err x, t) e u = rw u (h x)

  pub Run-gets : (f : S → A) (k : A → St S B) (s : S) → Run P (k (f s)) s → Run P (gets f >>= k) s
  unfolding ◌>>=◌
  Run-gets f k s h = record { at = h.at }

  pub Run-some :
      (o : Option A) (e : Error) (k : A → St S B) (s : S)
      → P (err e, s)
      → ((a : A) → o ≡ some a → Run P (k a) s)
      → Run P (some_or_throw o e >>= k) s
  unfolding ◌>>=◌
  Run-some none e k s h g = record { at = h }
  Run-some (some a) e k s h g = record { at = (g a refl).at }

module _ {S B : Type 0} {P : Result B × S → Type 0} where
  pub Run-guard :
      (b : Bool) (e : Error) (k : Unit {0} → St S B) (s : S)
      → P (err e, s)
      → (b ≡ false → Run P (k tt) s)
      → Run P (throw_if b e >>= k) s
  unfolding ◌>>=◌
  Run-guard true e k s h g = record { at = h }
  Run-guard false e k s h g = record { at = (g refl).at }

  pub Run-check :
      (r : Result (Unit {0})) (e : Error) (k : Unit {0} → St S B) (s : S)
      → P (err e, s)
      → (r ≡ ok tt → Run P (k tt) s)
      → Run P (or_throw r e >>= k) s
  unfolding ◌>>=◌
  Run-check (ok a) e k s h g = record { at = (g refl).at }
  Run-check (err e') e k s h g = record { at = h }

  pub Run-lift :
      (r : Result (Unit {0})) (k : Unit {0} → St S B) (s : S)
      → ((e : Error) → P (err e, s))
      → (r ≡ ok tt → Run P (k tt) s)
      → Run P (lift_result r >>= k) s
  unfolding ◌>>=◌
  Run-lift (ok tt) k s h g = record { at = (g refl).at }
  Run-lift (err e) k s h g = record { at = h e }
