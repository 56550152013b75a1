-- ===== src/Bank/Outcome.antt =====
-- How a call of the server ends.
use cs.Prelude.{◌≡◌, refl, Option, none, some}

-- It returns; it panics; it waits for a transaction to leave a TW list; or it still runs when the
-- fuel of its loop is used up.
pub data Outcome {ℓ} (A : Type ℓ) : Type ℓ where
  returns : A → Outcome A
  panics : Outcome A
  waits : Outcome A
  loops : Outcome A

infixl 5 ◌>>=◌
abbrev pub ◌>>=◌ {ℓ κ} : {A : Type ℓ} {B : Type κ} → Outcome A → (A → Outcome B) → Outcome B
returns a >>= f = f a
panics >>= f = panics
waits >>= f = waits
loops >>= f = loops

-- A read that panics on a missing value.
abbrev pub or_panic {ℓ} : {A : Type ℓ} → Option A → Outcome A
or_panic none = panics
or_panic (some a) = returns a

pub >>=-eq-returns {ℓ κ} :
    {A : Type ℓ} {B : Type κ} (m : Outcome A) (f : A → Outcome B) {b : B}
    → (m >>= f) ≡ returns b
    → (a : A) × (m ≡ returns a) × (f a ≡ returns b)
>>=-eq-returns (returns a) f h = (a, refl, h)
>>=-eq-returns panics f h = cc
>>=-eq-returns waits f h = cc
>>=-eq-returns loops f h = cc
