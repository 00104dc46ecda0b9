-- ===== src/Foundry/Frames/RoundTrip.antt =====
-- A frame is received as it was sent, however the channel cuts it.
use apbra.Prelude.{
  ℕ, ◌-◌, ◌≤◌, ◌≡◌, refl, sym, ◌∙◌, subst, true, false, ◌&&◌, List, [], ◌∷◌, ◌++◌, arith, ok,
  length, length-append, is_empty, ltb, leb, All, ◌==◌,
}
use mathlib.Core.List.{append_assoc}
use mathlib.Core.Path.{ap, ap₂}
use apbra.Foundry.Frames.{exact_loop, exact, to_bytes, from_bytes, frame, receive_frame, max_frame}

abbrev pub concat {ℓ} : {A : Type ℓ} → List (List A) → List A
concat [] = []
concat (xs ∷ xss) = xs ++ concat xss

-- Parts as a channel returns them: never none.
abbrev pub AreParts : List (List ℕ) → Type 0
AreParts = All (λ part. is_empty part ≡ false)

-- Reading as many bytes as parts hold gives their bytes, and leaves what follows.
exact_loop-concat :
    (missing : ℕ) (parts rest : List (List ℕ))
    → missing ≡ length (concat parts)
    → AreParts parts
    → exact_loop missing (parts ++ rest) ≡ ok (concat parts, rest)
unfolding exact_loop
exact_loop-concat missing [] [] e p = ground (arith, e)
exact_loop-concat missing [] (part ∷ rest) e p = ground (arith, e)
exact_loop-concat missing ([] ∷ parts) rest e p = cc
exact_loop-concat missing ((b ∷ bs) ∷ parts) rest e p =
    let total = length-append (b ∷ bs) (concat parts) in
    let after =
      exact_loop-concat (missing - length (b ∷ bs)) parts rest (omega (arith, e, total)) p.1 in
    let some_missing : (missing == 0) ≡ false = ground (arith, e) in
    let fits : leb (length (b ∷ bs)) missing ≡ true = ground (arith, e, total) in
    ground (arith, after, some_missing, fits)

concat-append {ℓ} :
    {A : Type ℓ} (xs ys : List (List A)) → concat (xs ++ ys) ≡ concat xs ++ concat ys
concat-append [] ys = refl
concat-append (x ∷ xs) ys =
    ap (λ t. x ++ t) (concat-append xs ys) ∙ sym (append_assoc x (concat xs) (concat ys))

from_to_bytes : (n : ℕ) → n ≤ max_frame → from_bytes 0 (to_bytes n) ≡ n
from_to_bytes n h = omega arith

-- A text of at most 65,536 bytes, and of one at least, is received as it was framed: however the
-- channel cuts the frame into parts that are not empty, the reader that asks for its four bytes of
-- length and then for the rest gets the text, and leaves what the channel returns after it.
pub receive_frame-frame :
    (raw framed : List ℕ) (header body rest : List (List ℕ))
    → frame raw ≡ ok framed
    → AreParts header
    → AreParts body
    → concat header ≡ to_bytes (length raw)
    → concat body ≡ raw
    → (concat (header ++ body) ≡ framed)
      × (receive_frame true (header ++ (body ++ rest)) ≡ ok (raw, rest))
unfolding receive_frame frame exact
receive_frame-frame raw framed header body rest h ph pb eh eb =
    let four = exact_loop-concat 4 header (body ++ rest) (ground (arith, eh)) ph in
    let size = from_to_bytes (length raw) (ground arith) in
    let all = exact_loop-concat (length raw) body rest (ground (arith, eb)) pb in
    let four' : exact_loop 4 (header ++ (body ++ rest)) ≡ ok (to_bytes (length raw), body ++ rest) =
      subst (λ bytes. exact_loop 4 (header ++ (body ++ rest)) ≡ ok (bytes, body ++ rest)) eh four in
    let all' : exact_loop (length raw) (body ++ rest) ≡ ok (raw, rest) =
      subst (λ bytes. exact_loop (length raw) (body ++ rest) ≡ ok (bytes, rest)) eb all in
    let bounded : (ltb 0 (length raw) && leb (length raw) max_frame) ≡ true = ground arith in
    let sent : to_bytes (length raw) ++ raw ≡ framed = ground arith in
    (
      concat-append header body ∙ ap₂ ◌++◌ eh eb ∙ sent,
      rw four' (rw size (rw bounded (rw all' refl))),
    )
