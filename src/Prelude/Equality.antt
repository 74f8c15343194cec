-- ===== src/Prelude/Equality.antt =====
-- `===` and `includes` of the source, for every type with a decidable equality.
use mathlib.Core.Path.{◌≡◌}
use mathlib.Core.Logic.{◌↔◌}
use mathlib.Core.Bool.{Bool, true, false}
use mathlib.Core.Option.{Option, none, some}
use mathlib.Core.List.{List, [], ◌∷◌}
use Prim.Native.Nat.{ℕ}
use native.Mathlib.Omega.{arith}
use guardian_backend_service.Prelude.Tests.{◌==◌, if◌then◌else◌}

pub record Eq (A : Type 0) : Type 0 where
  pub beq : A → A → Bool
  pub beq_iff : (a b : A) → (beq a b ≡ true) ↔ (a ≡ b)

infix 50 ◌===◌
abbrev pub ◌===◌ : {A : Type 0} ⦃e : Eq A⦄ → A → A → Bool
◌===◌ ⦃e⦄ = e.beq

abbrev pub includes : {A : Type 0} ⦃e : Eq A⦄ → List A → A → Bool
includes [] a = false
includes (x ∷ xs) a = if x === a then true else includes xs a

pub nat_beq_iff : (a b : ℕ) → ((a == b) ≡ true) ↔ (a ≡ b)
nat_beq_iff a b = (λ h. ground arith, λ h. ground arith)

instance abbrev pub nat_eq : Eq ℕ
nat_eq = record { beq = ◌==◌; beq_iff = nat_beq_iff }

-- `a === b` where `a` may be null
abbrev pub is_the : {A : Type 0} ⦃e : Eq A⦄ → Option A → A → Bool
is_the none b = false
is_the (some a) b = a === b
