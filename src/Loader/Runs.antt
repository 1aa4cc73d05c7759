-- ===== src/Loader/Runs.antt =====
-- Statements about runs that may be out of fuel, as those of load_images and main.
use se_l4_tools.Common.{
  ◌≡◌, refl, Outcome, done, aborted, Returns, Option, none, some, inl, inr, ◌⊎◌,
}

-- What holds of the result of a run that has enough fuel and ends normally.
unfoldable pub ReturnsIn {ℓ} : {A : Type ℓ} → (A → Type 0) → Option (Outcome A) → Type 0
ReturnsIn P none = Unit
ReturnsIn P (some o) = Returns P o

pub ReturnsIn-map {ℓ} :
    {A : Type ℓ} (P Q : A → Type 0)
    → ((a : A) → P a → Q a)
    → (o : Option (Outcome A)) → ReturnsIn P o
    → ReturnsIn Q o
unfolding ReturnsIn Returns
ReturnsIn-map P Q g none h = tt
ReturnsIn-map P Q g (some (done a)) h = g a h
ReturnsIn-map P Q g (some (aborted message)) h = tt

pub option_cases {ℓ} : {A : Type ℓ} (o : Option A) → (o ≡ none) ⊎ ((a : A) × (o ≡ some a))
option_cases none = inl refl
option_cases (some a) = inr (a, refl)

pub go_on {ℓ κ} :
    {A : Type ℓ} {B : Type κ} (P : B → Type 0) (x : Outcome A) (g : A → Option (Outcome B))
    → Returns (λ a. ReturnsIn P (g a)) x
    → ReturnsIn P (elim x [ done a ↦ g a | aborted message ↦ some (aborted message) ])
unfolding Returns ReturnsIn
go_on P (done a) g h = h
go_on P (aborted message) g h = tt

pub each_result {ℓ} :
    {A : Type ℓ} (P : A → Type 0) (x : Outcome A) → ((a : A) → x ≡ done a → P a) → Returns P x
unfolding Returns
each_result P (done a) h = h a refl
each_result P (aborted message) h = tt
