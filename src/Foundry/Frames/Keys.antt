-- ===== src/Foundry/Frames/Keys.antt =====
-- `pairs` against an independent description: which objects it accepts.
use mathlib.Core.List.{append_assoc}
use apbra.Prelude.{
  ◌≡◌, refl, sym, ◌∙◌, ap, Bool, true, false, not, ◌&&◌, ◌||◌, inl, inr, Bool-cases, List, [], ◌∷◌,
  ◌++◌, String, str_eq, arith, ok, err, any, any-append, append-nil, if◌then◌else◌,
}
use apbra.Foundry.Frames.{handoff_unavailable, Handoff, pairs}

module _ {ℓ} {V : Type ℓ} where
  abbrev has_key : List (String × V) → String × V → Bool
  has_key entries entry = any (λ old. str_eq old.0 entry.0) entries

  -- Each key differs from all that follow it.
  abbrev pub has_unique_keys : List (String × V) → Bool
  has_unique_keys [] = true
  has_unique_keys (entry ∷ entries) =
      not (any (λ later. str_eq entry.0 later.0) entries) && has_unique_keys entries

  any_key-append :
      (seen : List (String × V)) (x : String × V) (items : List (String × V))
      → any (has_key (seen ++ x ∷ [])) items
        ≡ (any (has_key seen) items || any (λ later. str_eq x.0 later.0) items)
  any_key-append seen x [] = refl
  any_key-append seen x (y ∷ items) = ground (
    arith,
    any-append (λ (old : String × V). str_eq old.0 y.0) seen (x ∷ []),
    any_key-append seen x items,
  )

  abbrev when : Bool → List (String × V) → Handoff (List (String × V))
  when test value = if test then ok value else err handoff_unavailable

  any_key-nil : (items : List (String × V)) → any (has_key []) items ≡ false
  any_key-nil [] = refl
  any_key-nil (x ∷ items) = any_key-nil items

  regroup :
      (a b c : Bool) (value : List (String × V))
      → when (not (a || b) && c) value ≡ when (not a && (not b && c)) value
  regroup true b c value = refl
  regroup false true c value = refl
  regroup false false c value = refl

  pairs-keys :
      (items seen : List (String × V))
      → pairs seen items ≡ (
          if not (any (has_key seen) items) && has_unique_keys items
          then ok (seen ++ items)
          else err handoff_unavailable)
  unfolding pairs
  pairs-keys [] seen = ap ok (sym (append-nil seen))
  pairs-keys (x ∷ items) seen = elim (Bool-cases (has_key seen x)) [
    | inl twice ↦ rw twice refl
    | inr new ↦
        rw (new, pairs-keys items (seen ++ x ∷ []), any_key-append seen x items)
          (rw (append_assoc seen (x ∷ []) items) (
            regroup (any (has_key seen) items) (any (λ later. str_eq x.0 later.0) items)
              (has_unique_keys items) (seen ++ (x ∷ items))))
  ]

  -- `pairs` returns the entries as they are when no key occurs twice, and raises otherwise.
  pub pairs-has_unique_keys :
      (items : List (String × V))
      → pairs [] items ≡ (if has_unique_keys items then ok items else err handoff_unavailable)
  pairs-has_unique_keys items = pairs-keys items [] ∙ rw (any_key-nil items) refl
