-- ===== src/Foundry/Report/Stages.antt =====
-- What a claim for a design rests on.
use apbra.Prelude.{ℕ, ◌≡◌, none, some, ◌⊎◌, String}
use apbra.Foundry.Report.Types.{ReportState, ReportApproval}
use apbra.Foundry.Report.Reservations.{Reservations}

-- The contract of the state, which is the approved one where the approval names one.
abbrev pub IsApprovedContract : ReportApproval → ReportState → Type 0
IsApprovedContract approval state =
    (contract : ℕ) × (digest : String) × (state.confirmed_contract_id ≡ some contract)
    × (state.confirmed_contract_digest ≡ some digest)
    × ((approval.confirmed_contract_id ≡ none)
        ⊎ ((approval.confirmed_contract_id ≡ some contract)
            × (approval.confirmed_contract_digest ≡ some digest)))

-- What the state shows of one interpretation.
abbrev pub IsConfirmed : ReportState → ℕ → String → Type 0
IsConfirmed state id digest =
    (state.interpretation_id ≡ some id)
    × (state.interpretation_digest ≡ some digest)
    × (state.confirmed_interpretation_id ≡ some id)
    × (state.confirmed_digest ≡ some digest)
