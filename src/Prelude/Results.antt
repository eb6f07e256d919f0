-- ===== src/Prelude/Results.antt =====
-- What JavaScript code throws, and calls that return or throw.
use Prim.Native.Nat.{ℕ}
use mathlib.Core.Path.{◌≡◌, refl}
use mathlib.Core.Logic.{◌⊎◌, inl, inr}
use mathlib.Core.Bool.{Bool, true, false}

-- The errors that the sources create or compare by identity; any other thrown value is
-- `foreign`, told apart by its number.
pub data Thrown : Type 0 where
  type_error range_error canceled deadline_exceeded circuit_open conflict no_available_endpoint
        registry_protocol :
      Thrown
  foreign : ℕ → Thrown

pub data Result {ℓ} (A : Type ℓ) : Type ℓ where
  ok : A → Result A
  throw : Thrown → Result A

infixl 5 ◌>>=◌ ◌>>◌
abbrev pub ◌>>=◌ {ℓ κ} : {A : Type ℓ} {B : Type κ} → Result A → (A → Result B) → Result B
ok a >>= f = f a
throw e >>= f = throw e

abbrev pub ◌>>◌ {ℓ} : {B : Type ℓ} → Result (Unit {0}) → Result B → Result B
m >> k = m >>= λ _. k

-- `if (!test) throw e`
abbrev pub require : Bool → Thrown → Result (Unit {0})
require true e = ok tt
require false e = throw e

pub Result-cases {ℓ} :
    {A : Type ℓ} (r : Result A) → ((a : A) × (r ≡ ok a)) ⊎ ((e : Thrown) × (r ≡ throw e))
Result-cases (ok a) = inl (a, refl)
Result-cases (throw e) = inr (e, refl)

-- A chain that returns has returned at its first call.
pub bind_ok {ℓ κ} :
    {A : Type ℓ} {B : Type κ} {last : B} (call : Result A) (after : A → Result B)
    → (call >>= after) ≡ ok last
    → (value : A) × (call ≡ ok value) × (after value ≡ ok last)
bind_ok (throw thrown) after run = absurd cc
bind_ok (ok value) after run = (value, refl, run)

pub ok-injective {ℓ} : {A : Type ℓ} {a b : A} → ok a ≡ ok b → a ≡ b
ok-injective h = cc
