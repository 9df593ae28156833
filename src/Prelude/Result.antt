-- ===== src/Prelude/Result.antt =====
-- The exceptions that services throw (`@nestjs/common`, by their HTTP class and message), and the
-- outcome of a service call.
use expentra.Prelude.Tests.{if◌then◌else◌}
use Prim.Native.String.{String}
use mathlib.Core.Path.{◌≡◌, refl}
use mathlib.Core.Logic.{◌⊎◌, inl, inr}
use mathlib.Core.Bool.{Bool}

pub data Exception : Type 0 where
  bad_request forbidden not_found conflict : String → Exception

pub data Result {ℓ} (A : Type ℓ) : Type ℓ where
  ok : A → Result A
  err : Exception → Result A

-- What a handler does next: with the value of a call that returned, and nothing after a throw.
module _ {ℓ κ} {A : Type ℓ} {B : Type κ} where
  infixl 5 ◌>>=◌
  abbrev pub ◌>>=◌ : Result A → (A → Result B) → Result B
  err thrown >>= next = err thrown
  ok value >>= next = next value

infixl 5 ◌>>◌
abbrev pub ◌>>◌ {ℓ} : {A : Type ℓ} → Result (Unit {0}) → Result A → Result A
check >> next = check >>= λ _. next

-- `if (b) throw e`
abbrev pub throw_if : Bool → Exception → Result (Unit {0})
throw_if b e = if b then err e else ok tt

-- What follows from a chain that returned, step by step.
pub >>=-eq-ok-then {ℓ κ ν} :
    {A : Type ℓ} {B : Type κ} {C : Type ν} (call : Result A) (next : A → Result B) {result : B}
    → (call >>= next) ≡ ok result
    → ((value : A) → call ≡ ok value → next value ≡ ok result → C)
    → C
>>=-eq-ok-then (err _) next returned k = cc
>>=-eq-ok-then (ok value) next returned k = k value refl returned

pub Result-cases {ℓ} :
    {A : Type ℓ} (r : Result A) → ((a : A) × (r ≡ ok a)) ⊎ ((x : Exception) × (r ≡ err x))
Result-cases (ok a) = inl (a, refl)
Result-cases (err x) = inr (x, refl)
