-- ===== src/Tenancy/CompanyTests.antt =====
-- An identity that creates a company and calls `create` again.
use apbra.Prelude.{ℕ, ◌≡◌, refl, Bool, true, false, none, [], ◌∷◌, ok, err, String, leb, strip}
use apbra.Domain.{company_creation_not_available, company_name_invalid}
use apbra.Store.Rows.{CompanyRow, MembershipRow, SessionRow, Store, Outcome}
use apbra.Store.Query.{
  company_is_active, identity_is_active, identity_of, active_actor, membership, is_membership_of,
}
use apbra.Store.Write.{add_audit, insert_membership}
use apbra.Store.Samples.{sample, sample_identity, value_or}
use apbra.Store.Companies.{
  NewIds, founded, founder, lock_active_session_for_creation, company_creation_command, company,
  active_identity_membership, eligible_invitation_for_identity,
  create_private_preview_initial_settings, create_company_with_owner,
}
use apbra.Tenancy.Company.{
  created_before, safe_display_name, create_new, create_locked, create_company,
}
use apbra.Tenancy.OneCompany.{create_company-once}

abbrev session : SessionRow
session = record {
  id = 60;
  token_digest = "session";
  provider_profile_id = "local-test";
  identity_id = 5;
  membership_id = none;
  expires_at = 1_000;
  revoked_at = none;
}

abbrev signed_in : Store
signed_in = record sample { sessions = session ∷ [] }

abbrev as_is : String → String
as_is name = name

abbrev is_control : ℕ → Bool
is_control c = leb c 31

abbrev call :
    Store → String → String → NewIds → Outcome ((CompanyRow × MembershipRow) × Bool × Store)
call s name key ids =
    create_company as_is is_control as_is s 200 60 (sample_identity 5) name key ids

abbrev first_ids : NewIds
first_ids = record { company_id = 9; membership_id = 19; settings_id = 29 }

abbrev second_ids : NewIds
second_ids = record { company_id = 39; membership_id = 49; settings_id = 59 }

abbrev no_result : (CompanyRow × MembershipRow) × Bool × Store
no_result = ((founded "" first_ids, founder (sample_identity 5) first_ids), false, signed_in)

abbrev created : (CompanyRow × MembershipRow) × Bool × Store
created = value_or no_result (call signed_in " Works " "key" first_ids)

abbrev again : (CompanyRow × MembershipRow) × Bool × Store
again = value_or no_result (call created.2 "Works" "key" second_ids)

create_company_runs :
    (call signed_in " Works " "key" first_ids ≡ ok ((created.0.0, created.0.1), true, created.2))
    × (call created.2 "Works" "key" second_ids ≡ ok ((again.0.0, again.0.1), again.1, again.2))
    × (call created.2 "Works" "other" second_ids ≡ err company_creation_not_available)
    × (call signed_in "  " "key" first_ids ≡ err company_name_invalid)
unfolding create_company safe_display_name strip identity_is_active lock_active_session_for_creation
    create_locked company_creation_command create_new active_identity_membership
    eligible_invitation_for_identity create_company_with_owner insert_membership is_membership_of
    create_private_preview_initial_settings add_audit created_before active_actor company_is_active
    identity_of membership company
create_company_runs = (refl, refl, refl, refl)

create_company-once_example :
    (again.1 ≡ false)
    × (again.2.companies ≡ created.2.companies)
    × (again.2.memberships ≡ created.2.memberships)
create_company-once_example =
    create_company-once as_is is_control as_is signed_in created.2 created.2 again.2 200 200 60 60
      (sample_identity 5) " Works " "key" "Works" "key" first_ids second_ids created.0.0 again.0.0
      created.0.1 again.0.1 again.1 create_company_runs.0 refl refl create_company_runs.1
