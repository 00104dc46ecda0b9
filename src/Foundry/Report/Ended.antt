-- ===== src/Foundry/Report/Ended.antt =====
-- What stops the claims of an operation for good.
use apbra.Prelude.{ℕ, ◌≡◌, true, ◌⊎◌, contains}
use apbra.Foundry.Report.Reservations.{Reservations}
use apbra.Foundry.Report.Sound.{finished, closed}

-- What makes every later claim of the operation fail.
abbrev pub IsOver : ℕ → Reservations → Type 0
IsOver nonce r = (r.closed ≡ true) ⊎ (contains nonce r.finished ≡ true)
