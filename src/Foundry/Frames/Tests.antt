-- ===== src/Foundry/Frames/Tests.antt =====
-- A frame of three bytes that arrives in four parts, and the theorem at it.
use apbra.Prelude.{ℕ, ◌≡◌, refl, true, List, [], ◌∷◌, ◌++◌, ok, err, String}
use apbra.Foundry.Frames.{pairs, frame, receive_frame, exact, exact_loop, handoff_unavailable}
use apbra.Foundry.Frames.Keys.{pairs-has_unique_keys}
use apbra.Foundry.Frames.RoundTrip.{receive_frame-frame, concat}

abbrev text : List ℕ
text = 1 ∷ 2 ∷ 3 ∷ []

abbrev framed : List ℕ
framed = 0 ∷ 0 ∷ 0 ∷ 3 ∷ 1 ∷ 2 ∷ 3 ∷ []

abbrev header : List (List ℕ)
header = (0 ∷ []) ∷ (0 ∷ 0 ∷ 3 ∷ []) ∷ []

abbrev body : List (List ℕ)
body = (1 ∷ 2 ∷ []) ∷ (3 ∷ []) ∷ []

abbrev after : List (List ℕ)
after = (9 ∷ []) ∷ []

frame-text : frame text ≡ ok framed
unfolding frame
frame-text = refl

-- An empty frame is refused.
frame-empty : frame [] ≡ err handoff_unavailable
unfolding frame
frame-empty = refl

-- A part that is longer than what was asked for is refused.
exact-long : exact true 1 ((1 ∷ 2 ∷ []) ∷ []) ≡ err handoff_unavailable
unfolding exact exact_loop
exact-long = refl

receive_frame-frame_example :
    (concat (header ++ body) ≡ framed)
    × (receive_frame true (header ++ (body ++ after)) ≡ ok (text, after))
receive_frame-frame_example =
    receive_frame-frame text framed header body after frame-text (refl, (refl, tt))
      (refl, (refl, tt)) refl refl

abbrev entries : List (String × ℕ)
entries = ("v", 1) ∷ ("nonce", 2) ∷ ("account", 3) ∷ []

pairs-has_unique_keys_example : pairs [] entries ≡ ok entries
pairs-has_unique_keys_example = pairs-has_unique_keys entries

pairs_twice : pairs {V = ℕ} [] (("v", 1) ∷ ("nonce", 2) ∷ ("v", 3) ∷ []) ≡ err handoff_unavailable
unfolding pairs
pairs_twice = refl
