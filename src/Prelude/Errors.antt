-- ===== src/Prelude/Errors.antt =====
-- Code that may raise returns `ok` or `err`.
use mathlib.Core.Path.{◌≡◌, refl}
use mathlib.Core.Logic.{◌⊎◌, inl, inr}
use mathlib.Core.Bool.{Bool, true, false}
use mathlib.Core.Option.{Option, none, some}
use native.Mathlib.Omega.{arith}

pub data Fallible {ℓ} (E : Type 0) (A : Type ℓ) : Type ℓ where
  ok : A → Fallible E A
  err : E → Fallible E A

infixl 5 ◌>>=◌ ◌>>◌
-- an exception passes by whatever follows
abbrev pub ◌>>=◌ {ℓ κ} :
    {E : Type 0} {A : Type ℓ} {B : Type κ} → Fallible E A → (A → Fallible E B) → Fallible E B
err raised >>= after = err raised
ok value >>= after = after value

abbrev pub ◌>>◌ {κ} :
    {E : Type 0} {B : Type κ} → Fallible E (Unit {0}) → Fallible E B → Fallible E B
first >> rest = first >>= λ _. rest

-- `if not test: raise e`
abbrev pub require : {E : Type 0} → Bool → E → Fallible E (Unit {0})
require true e = ok tt
require false e = err e

-- A chain of calls returns only where each of them did.
module _ {κ} {E : Type 0} {B : Type κ} where
  pub >>=-eq-ok {ℓ} :
      {A : Type ℓ} (first : Fallible E A) (after : A → Fallible E B) {last : B}
      → (first >>= after) ≡ ok last
      → (value : A) × (first ≡ ok value) × (after value ≡ ok last)
  >>=-eq-ok (err raised) after h = cc
  >>=-eq-ok (ok value) after h = (value, refl, h)

  pub >>-eq-ok :
      (first : Fallible E (Unit {0})) {rest : Fallible E B} {last : B}
      → (first >> rest) ≡ ok last
      → (first ≡ ok tt) × (rest ≡ ok last)
  >>-eq-ok (err raised) h = cc
  >>-eq-ok (ok tt) h = (refl, h)

pub require-eq-ok : {E : Type 0} {b : Bool} (e : E) → require b e ≡ ok tt → b ≡ true
require-eq-ok {b = b} e h = ground arith

module _ {ℓ κ} {E : Type 0} {A : Type ℓ} {B : Type κ} where
  pub bind_ext :
      (m : Fallible E A) (f g : A → Fallible E B) → ((a : A) → f a ≡ g a) → (m >>= f) ≡ (m >>= g)
  bind_ext (ok a) f g h = h a
  bind_ext (err e) f g h = refl

  pub bind_assoc {μ} :
      {C : Type μ} (m : Fallible E A) (f : A → Fallible E B) (g : B → Fallible E C)
      → ((m >>= f) >>= g) ≡ (m >>= λ a. f a >>= g)
  bind_assoc (ok a) f g = refl
  bind_assoc (err e) f g = refl

pub Fallible-cases {ℓ} :
    {E : Type 0} {A : Type ℓ} (m : Fallible E A) → ((a : A) × (m ≡ ok a)) ⊎ ((e : E) × (m ≡ err e))
Fallible-cases (ok a) = inl (a, refl)
Fallible-cases (err e) = inr (e, refl)

-- `if value is None: raise e`
abbrev pub some_or {ℓ} : {E : Type 0} {A : Type ℓ} → Option A → E → Fallible E A
some_or none e = err e
some_or (some a) e = ok a
