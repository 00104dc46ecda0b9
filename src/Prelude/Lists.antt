-- ===== src/Prelude/Lists.antt =====
-- Lists tested and measured by native numbers.
use Prim.Native.Nat.{ℕ, suc, ◌+◌}
use Prim.Native.String.{String}
use mathlib.Core.Path.{◌≡◌, refl, sym, subst}
use mathlib.Core.Logic.{inl, inr}
use mathlib.Core.Bool.{Bool, true, false, ◌||◌}
use mathlib.Core.Option.{Option, none, some}
use mathlib.Core.List.{List, [], ◌∷◌, ◌++◌, map}
use native.Mathlib.Omega.{arith}
use text.Mathlib.Text.{◌==◌ as str_eq}
use apbra.Prelude.Tests.{◌==◌, ==_iff, Bool-cases, if◌then◌else◌}
use apbra.Prelude.Errors.{Fallible, ok, ◌>>◌}

abbrev pub All {ℓ κ} : {A : Type ℓ} → (A → Type κ) → List A → Type κ
All P [] = Unit
All P (x ∷ xs) = P x × All P xs

module _ {ℓ} {A : Type ℓ} where
  abbrev pub length : List A → ℕ
  length [] = 0
  length (x ∷ xs) = suc (length xs)

  abbrev pub is_empty : List A → Bool
  is_empty [] = true
  is_empty (x ∷ xs) = false

  -- `any(test(x) for x in xs)`
  abbrev pub any : (A → Bool) → List A → Bool
  any test [] = false
  any test (x ∷ xs) = test x || any test xs

  -- a loop whose body only checks
  abbrev pub each : {E : Type 0} → (A → Fallible E (Unit {0})) → List A → Fallible E (Unit {0})
  each check [] = ok tt
  each check (x ∷ xs) = check x >> each check xs

  pub any-append :
      (test : A → Bool) (xs ys : List A) → any test (xs ++ ys) ≡ (any test xs || any test ys)
  any-append test [] ys = refl
  any-append test (x ∷ xs) ys = ground (arith, any-append test xs ys)

  pub each-All :
      {E : Type 0} (check : A → Fallible E (Unit {0})) (xs : List A)
      → each check xs ≡ ok tt
      → All (λ x. check x ≡ ok tt) xs
  each-All check [] h = tt
  each-All check (x ∷ xs) h = (ground arith, each-All check xs (ground arith))

  pub All-each :
      {E : Type 0} (check : A → Fallible E (Unit {0})) (xs : List A)
      → All (λ x. check x ≡ ok tt) xs
      → each check xs ≡ ok tt
  All-each check [] h = refl
  All-each check (x ∷ xs) h = ground (arith, h.0, All-each check xs h.1)

  pub All-map {κ} :
      (P : A → Type κ) (f : A → A) (xs : List A)
      → ((x : A) → P x → P (f x))
      → All P xs
      → All P (map f xs)
  All-map P f [] keep h = tt
  All-map P f (x ∷ xs) keep h = (keep x h.0, All-map P f xs keep h.1)

  pub All-imp {κ μ} :
      (P : A → Type κ) (Q : A → Type μ) (xs : List A) → ((x : A) → P x → Q x) → All P xs → All Q xs
  All-imp P Q [] f h = tt
  All-imp P Q (x ∷ xs) f h = (f x h.0, All-imp P Q xs f h.1)

  pub each-append :
      {E : Type 0} (check : A → Fallible E (Unit {0})) (xs ys : List A)
      → each check (xs ++ ys) ≡ (each check xs >> each check ys)
  each-append check [] ys = refl
  each-append check (x ∷ xs) ys = ground (arith, each-append check xs ys)

  pub length-append : (xs ys : List A) → length (xs ++ ys) ≡ length xs + length ys
  length-append [] ys = omega arith
  length-append (x ∷ xs) ys = omega (arith, length-append xs ys)

-- `x in xs`, for identifiers and for texts
abbrev pub contains : ℕ → List ℕ → Bool
contains x = any (λ y. y == x)

abbrev pub contains_text : String → List String → Bool
contains_text x = any (λ y. str_eq y x)

-- `d.get(k)` of a dictionary whose last write stands first
abbrev pub lookup {ℓ} : {V : Type ℓ} → ℕ → List (ℕ × V) → Option V
lookup k [] = none
lookup k ((j, v) ∷ d) = if j == k then some v else lookup k d

-- What is in the list and what is not differ.
pub contains-ne :
    (a b : ℕ) (xs : List ℕ) → contains a xs ≡ true → contains b xs ≡ false → (b == a) ≡ false
contains-ne a b xs h k = elim (Bool-cases (b == a)) [
  | inl same ↦ let h' = subst (λ c. contains c xs ≡ true) (sym ((==_iff b a).0 same)) h in cc
  | inr other ↦ other
]

module _ {ℓ} {A : Type ℓ} where
  -- the first row that passes, `session.scalar(select(…).where(test))`
  abbrev pub find : (A → Bool) → List A → Option A
  find test [] = none
  find test (x ∷ xs) = if test x then some x else find test xs

  -- the row that `find` returns, changed in place
  abbrev pub modify_first : (A → Bool) → (A → A) → List A → List A
  modify_first test f [] = []
  modify_first test f (x ∷ xs) = if test x then f x ∷ xs else x ∷ modify_first test f xs

  abbrev pub filter : (A → Bool) → List A → List A
  filter test [] = []
  filter test (x ∷ xs) = if test x then x ∷ filter test xs else filter test xs

  abbrev pub count : (A → Bool) → List A → ℕ
  count test [] = 0
  count test (x ∷ xs) = (if test x then 1 else 0) + count test xs

module _ {ℓ} {A : Type ℓ} where
  pub find-passes : (test : A → Bool) (xs : List A) (r : A) → find test xs ≡ some r → test r ≡ true
  find-passes test [] r h = cc
  find-passes test (x ∷ xs) r h = elim (Bool-cases (test x)) [
    | inl yes_ ↦ ground arith
    | inr no_ ↦ find-passes test xs r (rw no_ at h)
  ]

  -- The row that `find` returns is the one that `modify_first` changes.
  pub count-modify_first :
      (P test : A → Bool) (f : A → A) (xs : List A) (r : A)
      → find test xs ≡ some r
      → count P (modify_first test f xs) + (if P r then 1 else 0)
        ≡ count P xs + (if P (f r) then 1 else 0)
  count-modify_first P test f [] r h = cc
  count-modify_first P test f (x ∷ xs) r h = elim (Bool-cases (test x)) [
    | inl yes_ ↦ ground arith
    | inr no_ ↦
        let rest = count-modify_first P test f xs r (rw no_ at h) in rw no_ (omega (arith, rest))
  ]

  pub count-append : (P : A → Bool) (xs ys : List A) → count P (xs ++ ys) ≡ count P xs + count P ys
  count-append P [] ys = omega arith
  count-append P (x ∷ xs) ys = omega (arith, count-append P xs ys)

module _ {ℓ} {A : Type ℓ} where
  pub find-append :
      (test : A → Bool) (xs ys : List A) → find test xs ≡ none → find test (xs ++ ys) ≡ find test ys
  find-append test [] ys h = refl
  find-append test (x ∷ xs) ys h = elim (Bool-cases (test x)) [
    | inl here ↦ absurd_some (rw here at h)
    | inr there ↦ rw there (find-append test xs ys (rw there at h))
  ]
    where
      absurd_some : {B : Type ℓ} {b : A} → some b ≡ none → B
      absurd_some e = cc

  pub find-any : (test : A → Bool) (xs : List A) → find test xs ≡ none → any test xs ≡ false
  find-any test [] h = refl
  find-any test (x ∷ xs) h = elim (Bool-cases (test x)) [
    | inl here ↦ cc (rw here at h)
    | inr there ↦ rw there (find-any test xs (rw there at h))
  ]

  -- Two tests that find one row: after a change of it, the first still finds it.
  pub find-modify_first :
      (p q : A → Bool) (f : A → A) (xs : List A) (r : A)
      → find p xs ≡ some r
      → find q xs ≡ some r
      → p (f r) ≡ true
      → find p (modify_first q f xs) ≡ some (f r)
  find-modify_first p q f [] r hp hq k = cc
  find-modify_first p q f (x ∷ xs) r hp hq k = elim (Bool-cases (q x)) [
    | inl here ↦
        let same : x ≡ r = ground arith in
        rw here (subst (λ y. find p (f y ∷ xs) ≡ some (f r)) (sym same) (rw k refl))
    | inr there ↦ elim (Bool-cases (p x)) [
      | inl first ↦
          let same : x ≡ r = ground arith in
          let passes : q x ≡ true =
            subst (λ y. q y ≡ true) (sym same) (find-passes q xs r (rw there at hq)) in
          cc
      | inr later ↦
          rw there (rw later (find-modify_first p q f xs r (rw later at hp) (rw there at hq) k))
    ]
  ]
