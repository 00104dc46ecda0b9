-- ===== src/Store/Samples.antt =====
-- A company with two owners and a member, an invitation, and a case that the first owner shares with
-- the member.
use apbra.Prelude.{ℕ, true, none, [], ◌∷◌, ok, err, Fallible}
use apbra.Domain.{company_owner, member, Actor, owner, editor}
use apbra.Store.Rows.{
  ExternalIdentityRow, MembershipRow, InvitationRow, CaseRow, RequestVersionRow, CaseAccessRow,
  Store,
}
use apbra.Store.Query.{actor_of}

abbrev pub sample_identity : ℕ → ExternalIdentityRow
sample_identity id = record {
  id = id;
  provider_profile_id = "local-test";
  issuer = "issuer";
  subject = "subject";
  display_name = "Name";
  active = true;
}

abbrev pub first_owner : MembershipRow
first_owner = record {
  id = 10;
  company_id = 3;
  identity_id = 1;
  role = company_owner;
  active = true;
}

abbrev pub second_owner : MembershipRow
second_owner = record {
  id = 11;
  company_id = 3;
  identity_id = 2;
  role = company_owner;
  active = true;
}

abbrev pub plain_member : MembershipRow
plain_member = record { id = 12; company_id = 3; identity_id = 4; role = member; active = true }

abbrev pub open_invitation : InvitationRow
open_invitation = record {
  id = 40;
  company_id = 3;
  issued_by_membership_id = 10;
  invited_issuer = "issuer";
  invited_subject = "subject";
  provider_profile_id = "local-test";
  role = member;
  token_digest = "token";
  expires_at = 100;
  revoked_at = none;
  consumed_at = none;
  consumed_by_identity_id = none;
}

abbrev pub shared_case : CaseRow
shared_case = record {
  id = 20;
  company_id = 3;
  creator_membership_id = 10;
  current_request_version_id = 30;
  version = 1;
  semantic_context_version = 1;
  report_title = "report";
  updated_at = 0;
}

abbrev pub shared_version : RequestVersionRow
shared_version = record {
  id = 30;
  case_id = 20;
  company_id = 3;
  sequence = 1;
  request_text = "report";
  created_by_membership_id = 10;
}

abbrev pub owner_row : CaseAccessRow
owner_row = record {
  case_id = 20;
  company_id = 3;
  membership_id = 10;
  access_level = owner;
  active = true;
  revoked_at = none;
}

abbrev pub editor_row : CaseAccessRow
editor_row = record owner_row { membership_id = 12; access_level = editor }

abbrev pub sample : Store
sample = record {
  companies = record { id = 3; name = "Company"; active = true } ∷ [];
  identities = sample_identity 1 ∷ sample_identity 2 ∷ sample_identity 4 ∷ sample_identity 5 ∷ [];
  memberships = first_owner ∷ second_owner ∷ plain_member ∷ [];
  invitations = open_invitation ∷ [];
  cases = shared_case ∷ [];
  request_versions = shared_version ∷ [];
  case_access = owner_row ∷ editor_row ∷ [];
  idempotency_records = [];
  audit_events = [];
  sessions = [];
  creation_commands = [];
  settings_current = [];
  settings_versions = [];
  conversation_events = [];
  clarification_cycles = [];
  interpretations = [];
}

abbrev pub owner_actor : Actor
owner_actor = actor_of first_owner (sample_identity 1)

abbrev pub member_actor : Actor
member_actor = actor_of plain_member (sample_identity 4)

-- the value of a call that succeeds
abbrev pub value_or {ℓ} : {E : Type 0} {A : Type ℓ} → A → Fallible E A → A
value_or default (ok a) = a
value_or default (err e) = default
