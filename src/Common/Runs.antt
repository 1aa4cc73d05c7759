-- ===== src/Common/Runs.antt =====
-- A run that ends normally, or in `abort()` after a message on the console.
use mathlib.Core.Bool.{Bool, true, false}
use mathlib.Core.Path.{◌≡◌, refl}
use Prim.Native.String.{String}

pub data Outcome {ℓ} (A : Type ℓ) : Type ℓ where
  done : A → Outcome A
  aborted : String → Outcome A

infixr 5 ◌>>=◌ ◌>>◌
abbrev pub ◌>>=◌ {ℓ κ} : {A : Type ℓ} {B : Type κ} → Outcome A → (A → Outcome B) → Outcome B
done a >>= f = f a
aborted s >>= f = aborted s

abbrev pub ◌>>◌ {ℓ} : {B : Type ℓ} → Outcome (Unit {0}) → Outcome B → Outcome B
m >> k = m >>= λ _. k

-- `if (!test) { printf(message); abort(); }`
abbrev pub require : Bool → String → Outcome (Unit {0})
require true message = done tt
require false message = aborted message

-- What holds of the result, if there is one.
unfoldable pub Returns {ℓ} : {A : Type ℓ} → (A → Type 0) → Outcome A → Type 0
Returns P (done a) = P a
Returns P (aborted s) = Unit

pub Returns->>= {ℓ κ} :
    {A : Type ℓ} {B : Type κ} (P : B → Type 0) (m : Outcome A) (f : A → Outcome B)
    → ((a : A) → m ≡ done a → Returns P (f a))
    → Returns P (m >>= f)
unfolding Returns
Returns->>= P (done a) f h = h a refl
Returns->>= P (aborted s) f h = tt

pub require-done : (b : Bool) (s : String) (u : Unit {0}) → require b s ≡ done u → b ≡ true
require-done true s u h = refl
require-done false s u h = cc
