-- ===== src/Knowledge/Documents/Codes.antt =====
-- Encodings for the runs of the tests: a text as the list of its characters' numbers.
use Prim.Native.Nat.{Ordering, compare}
use Prim.Native.Char.{char, code, nul, IsLt, IsScalar}
use text.Mathlib.TextLemmas.{tail-eq_of_cons-eq}
use apbra.Prelude.{ℕ, zero, suc, ◌≡◌, refl, ap, Option, none, some, List, [], ◌∷◌, String}
use apbra.Knowledge.Documents.Journal.{Encodings}
use apbra.Knowledge.Documents.Rows.{IsFaithful}

-- `IsScalar` of three comparisons, as its module has it
abbrev BothLt : Ordering → Ordering → Type 0
BothLt Ordering.lt o = IsLt o
BothLt Ordering.eq _ = ⊥
BothLt Ordering.gt _ = ⊥

abbrev Scalar : Ordering → Ordering → Ordering → Type 0
Scalar Ordering.lt _ _ = Unit
Scalar Ordering.eq o p = BothLt o p
Scalar Ordering.gt o p = BothLt o p

abbrev in_both : (o p : Ordering) → Option (BothLt o p)
in_both Ordering.lt Ordering.lt = some tt
in_both Ordering.lt Ordering.eq = none
in_both Ordering.lt Ordering.gt = none
in_both Ordering.eq _ = none
in_both Ordering.gt _ = none

abbrev in_scalar : (o p q : Ordering) → Option (Scalar o p q)
in_scalar Ordering.lt _ _ = some tt
in_scalar Ordering.eq p q = in_both p q
in_scalar Ordering.gt p q = in_both p q

in_both-some : (o p : Ordering) (h : BothLt o p) → in_both o p ≡ some h
in_both-some Ordering.lt Ordering.lt h = refl
in_both-some Ordering.lt Ordering.eq h = absurd h
in_both-some Ordering.lt Ordering.gt h = absurd h
in_both-some Ordering.eq p h = absurd h
in_both-some Ordering.gt p h = absurd h

in_scalar-some : (o p q : Ordering) (h : Scalar o p q) → in_scalar o p q ≡ some h
in_scalar-some Ordering.lt p q h = refl
in_scalar-some Ordering.eq p q h = in_both-some p q h
in_scalar-some Ordering.gt p q h = in_both-some p q h

abbrev with_scalar : (n : ℕ) → Option (IsScalar n) → Option String → Option String
with_scalar n (some h) (some s) = some (String.◌∷◌ (char n h) s)
with_scalar n _ _ = none

abbrev from_codes : List ℕ → Option String
from_codes [] = some String.[]
from_codes (n ∷ ns) =
    with_scalar n (in_scalar (compare n 55296) (compare 57343 n) (compare n 1114112))
      (from_codes ns)

abbrev to_codes : String → List ℕ
to_codes String.[] = []
to_codes (String.◌∷◌ c s) = code c ∷ to_codes s

from_codes-to_codes : (s : String) → from_codes (to_codes s) ≡ some s
from_codes-to_codes String.[] = refl
from_codes-to_codes (String.◌∷◌ (char n h) s) =
    rw
      (
        in_scalar-some (compare n 55296) (compare 57343 n) (compare n 1114112) h,
        from_codes-to_codes s,
      )
      refl

abbrev strokes : ℕ → String
strokes zero = String.[]
strokes (suc n) = String.◌∷◌ nul (strokes n)

strokes-injective : (a b : ℕ) → strokes a ≡ strokes b → a ≡ b
strokes-injective zero zero h = refl
strokes-injective zero (suc b) h = cc
strokes-injective (suc a) zero h = cc
strokes-injective (suc a) (suc b) h = ap suc (strokes-injective a b (tail-eq_of_cons-eq h))

abbrev pub codes : Encodings
codes = record {
  decode_utf8 = from_codes;
  encode_utf8 = to_codes;
  sha256_hex = λ bytes. "digest";
  uuid_text = strokes;
}

pub codes-IsFaithful : IsFaithful codes
codes-IsFaithful = record {
  decode-encode = from_codes-to_codes;
  uuid_text-injective = strokes-injective;
}
