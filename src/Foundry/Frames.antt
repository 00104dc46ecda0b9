-- ===== src/Foundry/Frames.antt =====
-- The frames of the private channel: `exact` and `pairs` of
-- apps/api/src/apbra_api/foundry_memory_handoff.py, and the frame and channel of an approval in
-- foundry_report_runtime.py. Bytes are numbers, and a channel is the list of the parts that its reads
-- return, one for each read.
use apbra.Prelude.{
  ℕ, ◌+◌, ◌-◌, ◌*◌, ◌/◌, ◌%◌, Bool, true, false, not, ◌&&◌, ◌||◌, Option, none, some, List, [], ◌∷◌,
  ◌++◌, String, str_eq, ◌==◌, ltb, leb, ok, err, ◌>>=◌, ◌>>◌, require, Fallible, length, any,
  is_empty, if◌then◌else◌,
}
pub mod RoundTrip
pub mod Keys
mod Tests

pub data HandoffError : Type 0 where
  handoff_unavailable : HandoffError

abbrev pub Handoff {ℓ} : Type ℓ → Type ℓ
Handoff A = Fallible HandoffError A

-- The loop of `exact`, with the bytes that are still missing, and the parts that are left.
unfoldable pub exact_loop : ℕ → List (List ℕ) → Handoff (List ℕ × List (List ℕ))
exact_loop missing [] = if missing == 0 then ok ([], []) else err handoff_unavailable
exact_loop missing (part ∷ parts) =
    let rest = exact_loop (missing - length part) parts in
    if missing == 0 then ok ([], part ∷ parts) else (do
      require (not (is_empty part) && leb (length part) missing) handoff_unavailable
      (bytes, left) ← rest
      ok (part ++ bytes, left))

-- `in_time` is whether the deadline has not passed when all is read.
unfoldable pub exact : Bool → ℕ → List (List ℕ) → Handoff (List ℕ × List (List ℕ))
exact in_time size parts = do
  (bytes, left) ← exact_loop size parts
  require in_time handoff_unavailable
  ok (bytes, left)

abbrev pub max_frame : ℕ
max_frame = 65_536

-- `n.to_bytes(4, "big")`
abbrev pub to_bytes : ℕ → List ℕ
to_bytes n = n / 16_777_216 % 256 ∷ n / 65_536 % 256 ∷ n / 256 % 256 ∷ n % 256 ∷ []

-- `int.from_bytes(bytes, "big")`, after the bytes that came before
abbrev pub from_bytes : ℕ → List ℕ → ℕ
from_bytes before [] = before
from_bytes before (b ∷ bs) = from_bytes (before * 256 + b) bs

-- The framing of `_approval_frame`.
unfoldable pub frame : List ℕ → Handoff (List ℕ)
frame raw = do
  require (ltb 0 (length raw) && leb (length raw) max_frame) handoff_unavailable
  ok (to_bytes (length raw) ++ raw)

-- The reading of a frame in `receive` and in `receive_approval`.
unfoldable pub receive_frame : Bool → List (List ℕ) → Handoff (List ℕ × List (List ℕ))
receive_frame in_time parts = do
  (header, body) ← exact in_time 4 parts
  let size = from_bytes 0 header
  require (ltb 0 size && leb size max_frame) handoff_unavailable
  exact in_time size body

-- `object_pairs_hook=pairs`: no key occurs twice
unfoldable pub pairs {ℓ} :
    {V : Type ℓ} → List (String × V) → List (String × V) → Handoff (List (String × V))
pairs seen [] = ok seen
pairs seen ((key, item) ∷ items) =
    let rest = pairs (seen ++ (key, item) ∷ []) items in
    require (not (any (λ entry. str_eq entry.0 key) seen)) handoff_unavailable >> rest

-- `_ApprovalChannel`: the greeting is read again from memory, and the first write must be the
-- challenge.
pub record ApprovalChannel : Type 0 where
  pub hello : List ℕ
  pub challenge_pending : Bool
  pub incoming : List (List ℕ)
  pub written : List (List ℕ)

abbrev pub take {ℓ} : {A : Type ℓ} → ℕ → List A → List A
take n [] = []
take n (x ∷ xs) = if n == 0 then [] else x ∷ take (n - 1) xs

abbrev pub drop {ℓ} : {A : Type ℓ} → ℕ → List A → List A
drop n [] = []
drop n (x ∷ xs) = if n == 0 then x ∷ xs else drop (n - 1) xs

-- The inner channel's read, where the greeting is used up; none where it raises.
unfoldable pub read : ApprovalChannel → ℕ → Handoff (List ℕ × ApprovalChannel)
read c size =
    if not (is_empty c.hello)
    then ok (take size c.hello, record c { hello = drop size c.hello })
    else elim c.incoming [
      | [] ↦ err handoff_unavailable
      | part ∷ parts ↦ ok (part, record c { incoming = parts })
    ]

-- `is_challenge` is whether the bytes parse as the expected challenge, `accepted` the line that
-- answers it.
module _ (is_challenge : List ℕ → Bool) (accepted : List ℕ) where
  unfoldable pub write : ApprovalChannel → List ℕ → Handoff ApprovalChannel
  write c value =
      if c.challenge_pending
      then (do
        require (is_challenge value) handoff_unavailable
        ok (record c { challenge_pending = false; written = c.written ++ accepted ∷ [] }))
      else ok (record c { written = c.written ++ value ∷ [] })

unfoldable pub close_channel : ApprovalChannel → ApprovalChannel
close_channel c = record c { hello = []; incoming = [] }
