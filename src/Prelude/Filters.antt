-- ===== src/Prelude/Filters.antt =====
-- What a query finds after an insert, and that a filtered list has what the whole list has.
use mathlib.Core.Path.{◌≡◌, refl}
use mathlib.Core.Logic.{inl, inr}
use mathlib.Core.Bool.{Bool, true, false}
use mathlib.Core.Option.{none, some}
use mathlib.Core.List.{List, [], ◌∷◌, ◌++◌}
use native.Mathlib.Omega.{arith}
use apbra.Prelude.Tests.{Bool-cases}
use apbra.Prelude.Lists.{any, find, filter}

module _ {ℓ} {A : Type ℓ} where
  pub filter-append :
      (test : A → Bool) (xs ys : List A) → filter test (xs ++ ys) ≡ filter test xs ++ filter test ys
  filter-append test [] ys = refl
  filter-append test (x ∷ xs) ys = elim (Bool-cases (test x)) [
    | inl here ↦ rw (here, filter-append test xs ys) refl
    | inr there ↦ rw (there, filter-append test xs ys) refl
  ]

  pub find-append-some :
      (test : A → Bool) (xs ys : List A) (r : A)
      → find test xs ≡ some r
      → find test (xs ++ ys) ≡ some r
  find-append-some test [] ys r h = cc
  find-append-some test (x ∷ xs) ys r h = elim (Bool-cases (test x)) [
    | inl here ↦ rw here (rw here at h)
    | inr there ↦ rw there (find-append-some test xs ys r (rw there at h))
  ]

  pub any-filter :
      (test keep : A → Bool) (xs : List A) → any test xs ≡ false → any test (filter keep xs) ≡ false
  any-filter test keep [] h = refl
  any-filter test keep (x ∷ xs) h = elim (Bool-cases (keep x)) [
    | inl here ↦ rw here (ground (arith, any-filter test keep xs))
    | inr there ↦ rw there (any-filter test keep xs (ground arith))
  ]

  pub any-find : (test : A → Bool) (xs : List A) → any test xs ≡ false → find test xs ≡ none
  any-find test [] h = refl
  any-find test (x ∷ xs) h = ground (arith, any-find test xs)

  -- Among the rows that are kept there is none of those that none of the rows is.
  pub find-filter :
      (test key keep : A → Bool) (xs : List A)
      → ((x : A) → keep x ≡ true → test x ≡ true → key x ≡ true)
      → find key xs ≡ none
      → any test (filter keep xs) ≡ false
  find-filter test key keep [] imp h = refl
  find-filter test key keep (x ∷ xs) imp h =
      let rest = find-filter test key keep xs imp in
      elim (Bool-cases (key x)) [
        | inl found ↦ cc (rw found at h)
        | inr other ↦ elim (Bool-cases (keep x)) [
          | inl here ↦ elim (Bool-cases (test x)) [
            | inl passes ↦ cc (imp x here passes)
            | inr fails ↦ rw here (rw fails (rest (rw other at h)))
          ]
          | inr there ↦ rw there (rest (rw other at h))
        ]
      ]
