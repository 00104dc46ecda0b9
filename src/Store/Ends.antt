-- ===== src/Store/Ends.antt =====
-- The last row of a table that passes a test, and the row that is inserted at the end.
use apbra.Prelude.{
  ℕ, ◌+◌, ◌≡◌, refl, sym, Bool, true, false, List, [], ◌∷◌, ◌++◌, arith, any, filter, filter-append,
  append-nil, length, Bool-cases, inl, inr,
}
use apbra.Store.Conversations.{modify_last}

module _ {ℓ} {A : Type ℓ} where
  abbrev pub modify_end : (A → A) → List A → List A
  modify_end f [] = []
  modify_end f (x ∷ []) = f x ∷ []
  modify_end f (x ∷ y ∷ xs) = x ∷ modify_end f (y ∷ xs)

  -- The n-th item, from n = before + 1 on, has the number n.
  abbrev pub Numbered : (A → ℕ) → ℕ → List A → Type 0
  Numbered number before [] = Unit
  Numbered number before (x ∷ xs) = (number x ≡ before + 1) × Numbered number (before + 1) xs

module _ {ℓ} {A : Type ℓ} where
  filter-any : (test : A → Bool) (xs : List A) → any test xs ≡ false → filter test xs ≡ []
  filter-any test [] h = refl
  filter-any test (x ∷ xs) h = ground (arith, filter-any test xs)

  modify_end-∷ :
      (f : A → A) (test : A → Bool) (x : A) (xs : List A)
      → any test xs ≡ true
      → modify_end f (x ∷ filter test xs) ≡ x ∷ modify_end f (filter test xs)
  modify_end-∷ f test x [] h = cc
  modify_end-∷ f test x (y ∷ xs) h = elim (Bool-cases (test y)) [
    | inl here ↦ rw here refl
    | inr there ↦ rw there (modify_end-∷ f test x xs (rw there at h))
  ]

  pub filter-modify_last :
      (test : A → Bool) (f : A → A) (xs : List A)
      → ((x : A) → test (f x) ≡ test x)
      → filter test (modify_last test f xs) ≡ modify_end f (filter test xs)
  filter-modify_last test f [] keep = refl
  filter-modify_last test f (x ∷ xs) keep =
      let rest = filter-modify_last test f xs keep in
      elim (Bool-cases (any test xs)) [
        | inl more ↦ elim (Bool-cases (test x)) [
          | inl here ↦ rw (more, here, rest) (sym (modify_end-∷ f test x xs more))
          | inr there ↦ rw (more, there, rest) refl
        ]
        | inr end ↦ elim (Bool-cases (test x)) [
          | inl here ↦ rw (end, here, keep x, here, filter-any test xs end) refl
          | inr there ↦ rw (end, there, filter-any test xs end, there) refl
        ]
      ]

  -- A change of a row that another test does not pass.
  pub filter-modify_last-other :
      (keep test : A → Bool) (f : A → A) (xs : List A)
      → ((x : A) → test x ≡ true → keep x ≡ false)
      → ((x : A) → keep (f x) ≡ keep x)
      → filter keep (modify_last test f xs) ≡ filter keep xs
  filter-modify_last-other keep test f [] apart same = refl
  filter-modify_last-other keep test f (x ∷ xs) apart same =
      let rest = filter-modify_last-other keep test f xs apart same in
      elim (Bool-cases (any test xs)) [
        | inl more ↦ rw (more, rest) refl
        | inr end ↦ elim (Bool-cases (test x)) [
          | inl here ↦ rw (end, here, same x, apart x here) refl
          | inr there ↦ rw (end, there) refl
        ]
      ]

  pub Numbered-append :
      (number : A → ℕ) (before : ℕ) (xs : List A) (x : A)
      → Numbered number before xs
      → number x ≡ before + length xs + 1
      → Numbered number before (xs ++ x ∷ [])
  Numbered-append number before [] x h k = (omega (arith, k), tt)
  Numbered-append number before (y ∷ xs) x h k =
      (h.0, Numbered-append number (before + 1) xs x h.1 (omega (arith, k)))

  pub Numbered-modify_end :
      (number : A → ℕ) (f : A → A) (before : ℕ) (xs : List A)
      → ((x : A) → number (f x) ≡ number x)
      → Numbered number before xs
      → Numbered number before (modify_end f xs)
  Numbered-modify_end number f before [] same h = tt
  Numbered-modify_end number f before (x ∷ []) same h = (ground (arith, same x), tt)
  Numbered-modify_end number f before (x ∷ y ∷ xs) same h =
      (h.0, Numbered-modify_end number f (before + 1) (y ∷ xs) same h.1)

  pub length-modify_end : (f : A → A) (xs : List A) → length (modify_end f xs) ≡ length xs
  length-modify_end f [] = refl
  length-modify_end f (x ∷ []) = refl
  length-modify_end f (x ∷ y ∷ xs) = ground (arith, length-modify_end f (y ∷ xs))

  pub filter-insert :
      (test : A → Bool) (xs : List A) (x : A)
      → test x ≡ true
      → filter test (xs ++ x ∷ []) ≡ filter test xs ++ x ∷ []
  filter-insert test xs x h = rw (filter-append test xs (x ∷ []), h) refl

  pub filter-insert-other :
      (test : A → Bool) (xs : List A) (x : A)
      → test x ≡ false
      → filter test (xs ++ x ∷ []) ≡ filter test xs
  filter-insert-other test xs x h = rw (filter-append test xs (x ∷ []), h, append-nil) refl
