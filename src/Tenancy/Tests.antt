-- ===== src/Tenancy/Tests.antt =====
-- Runs of the tenancy services on the sample company, and the theorems at those runs.
use apbra.Prelude.{◌≡◌, ◌≤◌, refl, some, arith, ok, err, String}
use apbra.Domain.{company_admin, invitation_invalid}
use apbra.Store.Rows.{MembershipRow, Store}
use apbra.Store.Query.{
  company_is_active, identity_is_active, identity_of, active_actor, active_company,
  active_owner_count, is_active_owner, is_company_membership, lock_company_membership, invitation,
  is_invitation, membership, is_membership_of, lock_company_invitation, is_company_invitation,
}
use apbra.Store.Write.{add_audit, insert_membership, accept_invitation}
use apbra.Store.Samples.{
  sample, sample_identity, first_owner, open_invitation, owner_actor, value_or,
}
use apbra.Tenancy.Manage.{current_manager}
use apbra.Tenancy.Memberships.{deactivate, change_role}
use apbra.Tenancy.Invitations.{accept, accept_open, accepted_before, revoke}
use apbra.Tenancy.Owners.{deactivate-owner, change_role-owners}
use apbra.Tenancy.Acceptance.{accept_once, accept-revoke}

abbrev deactivated : Store
deactivated = value_or sample (deactivate sample owner_actor 11)

abbrev promoted : MembershipRow × Store
promoted = value_or (first_owner, sample) (change_role sample owner_actor 12 company_admin)

abbrev same_text : String → String
same_text text = text

abbrev accepted : MembershipRow × Store
accepted =
    value_or (first_owner, sample) (accept same_text sample 50 13 (sample_identity 5) "token")

abbrev accepted_again : MembershipRow × Store
accepted_again =
    value_or (first_owner, sample) (accept same_text accepted.1 60 14 (sample_identity 5) "token")

abbrev after_revoke : Store
after_revoke = value_or sample (revoke sample owner_actor 50 40)

deactivate-sample : deactivate sample owner_actor 11 ≡ ok deactivated
unfolding deactivate current_manager company_is_active active_actor identity_is_active identity_of
    lock_company_membership is_company_membership active_owner_count is_active_owner add_audit
deactivate-sample = refl

change_role-sample : change_role sample owner_actor 12 company_admin ≡ ok promoted
unfolding change_role company_is_active active_actor identity_is_active identity_of
    lock_company_membership is_company_membership add_audit
change_role-sample = refl

accept-sample : accept same_text sample 50 13 (sample_identity 5) "token" ≡ ok accepted
unfolding accept accept_open accepted_before accept_invitation insert_membership invitation
    is_invitation active_company identity_is_active membership is_membership_of company_is_active
    active_actor identity_of
accept-sample = refl

accept-again : accept same_text accepted.1 60 14 (sample_identity 5) "token" ≡ ok accepted_again
unfolding accept accept_open accepted_before accept_invitation insert_membership invitation
    is_invitation active_company identity_is_active membership is_membership_of company_is_active
    active_actor identity_of
accept-again = refl

revoke-sample : revoke sample owner_actor 50 40 ≡ ok after_revoke
unfolding revoke current_manager company_is_active active_actor identity_is_active identity_of
    lock_company_invitation is_company_invitation add_audit
revoke-sample = refl

one_owner : 1 ≤ active_owner_count sample 3
unfolding active_owner_count is_active_owner
one_owner = omega arith

found : invitation sample "token" ≡ some open_invitation
unfolding invitation is_invitation
found = refl

locked : lock_company_invitation sample 3 40 ≡ some open_invitation
unfolding lock_company_invitation is_company_invitation
locked = refl

deactivate-owner_example : 1 ≤ active_owner_count deactivated 3
deactivate-owner_example =
    deactivate-owner sample owner_actor 11 deactivated 3 deactivate-sample one_owner

change_role-owners_example : active_owner_count promoted.1 3 ≡ active_owner_count sample 3
change_role-owners_example =
    change_role-owners sample owner_actor 12 company_admin promoted.0 promoted.1 3
      change_role-sample

accept_once_example :
    ((sample_identity 5).id ≡ (sample_identity 5).id)
    × (accepted_again.0 ≡ accepted.0)
    × (accepted_again.1 ≡ accepted.1)
accept_once_example =
    accept_once same_text sample 50 13 (sample_identity 5) "token" accepted.0 accepted.1 60 14
      (sample_identity 5) accepted_again.0 accepted_again.1 accept-sample accept-again

accept-revoke_example :
    accept same_text after_revoke 60 14 (sample_identity 5) "token" ≡ err invitation_invalid
accept-revoke_example =
    accept-revoke same_text sample owner_actor 50 40 after_revoke "token" open_invitation 60 14
      (sample_identity 5) found locked revoke-sample
