-- ===== src/Common/Results.antt =====
-- Errors as values: an operation of the source that can throw returns a `Result`.
use mathlib.Core.Path.{◌≡◌, refl}
use mathlib.Core.Logic.{◌⊎◌, inl, inr}
use mathlib.Core.Bool.{Bool, true, false}

pub data Result {ℓ κ} (E : Type ℓ) (A : Type κ) : Type (ℓ ⊔ κ) where
  err : E → Result E A
  ok : A → Result E A

-- A result is a value or an error, with the equation that says which.
pub Result-cases {ℓ κ} :
    {E : Type ℓ} {A : Type κ} (result : Result E A)
    → ((value : A) × (result ≡ ok value)) ⊎ ((thrown : E) × (result ≡ err thrown))
Result-cases (err thrown) = inr (thrown, refl)
Result-cases (ok value) = inl (value, refl)

pub ok-injective {ℓ κ} :
    {E : Type ℓ} {A : Type κ} {x y : A} → ◌≡◌ {A = Result E A} (ok x) (ok y) → x ≡ y
ok-injective same = cc

pub err-ne-ok {ℓ κ} :
    {E : Type ℓ} {A : Type κ} {thrown : E} {x : A} → ◌≡◌ {A = Result E A} (err thrown) (ok x) → ⊥
err-ne-ok same = cc

module _ {ℓ κ} {E : Type ℓ} {B : Type κ} where
  infixl 5 ◌>>=◌ ◌>>◌
  abbrev pub ◌>>=◌ {μ} : {A : Type μ} → Result E A → (A → Result E B) → Result E B
  err thrown >>= next = err thrown
  ok value >>= next = next value

  abbrev pub ◌>>◌ : Result E (Unit {0}) → Result E B → Result E B
  first >> next = first >>= λ _. next

module _ {ℓ} {E : Type ℓ} where
  -- `if (!test) throw new Error(...)`
  abbrev pub guard : Bool → E → Result E (Unit {0})
  guard false thrown = err thrown
  guard true thrown = ok tt

  -- What came before the end of a run that succeeded.
  pub guard-eq-ok {κ} :
      {B : Type κ} (test : Bool) (thrown : E) (next : Result E B) {end : B}
      → (guard test thrown >> next) ≡ ok end
      → (test ≡ true) × (next ≡ ok end)
  guard-eq-ok false thrown next done = cc
  guard-eq-ok true thrown next done = (refl, done)

  pub >>=-eq-ok {κ μ} :
      {A : Type κ} {B : Type μ} (first : Result E A) (next : A → Result E B) {end : B}
      → (first >>= next) ≡ ok end
      → (value : A) × (first ≡ ok value) × (next value ≡ ok end)
  >>=-eq-ok (err thrown) next done = cc
  >>=-eq-ok (ok value) next done = (value, refl, done)
