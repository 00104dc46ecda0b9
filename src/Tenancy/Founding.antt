-- ===== src/Tenancy/Founding.antt =====
-- The rows that the creation of a company leaves, and what the queries find in them.
use apbra.Prelude.{
  ◌≡◌, refl, ◌∙◌, ap, Bool, true, false, ◌&&◌, inl, inr, Option-cases, some, [], ◌∷◌, ◌++◌, String,
  str_eq, eq_iff, ◌==◌, ==_refl, arith, ok, >>=-eq-ok, >>-eq-ok, require, require-eq-ok, some_or,
  is_none, any, any-append, find, find-any,
}
use apbra.Domain.{company_creation_not_available, idempotency_conflict}
use apbra.Store.Rows.{
  CompanyCreationCommandRow, CompanyRow, ExternalIdentityRow, MembershipRow, SessionRow, Store,
}
use apbra.Store.Query.{active_actor, company_is_active, membership, is_membership_of}
use apbra.Store.Write.{insert_membership, add_audit}
use apbra.Store.Companies.{
  is_company, is_active_membership, active_identity_membership,
  create_private_preview_initial_settings, NewIds, founded, founder, command_of,
  create_company_with_owner, company,
}
use apbra.Tenancy.Company.{created_before}

-- The rows after the creation of a company.
pub record IsFounded (s s' : Store) (identity : ExternalIdentityRow)
    (name command_key digest : String) (ids : NewIds) : Type 0 where
  pub companies : s'.companies ≡ s.companies ++ founded name ids ∷ []
  pub memberships : s'.memberships ≡ s.memberships ++ founder identity ids ∷ []
  pub commands :
      s'.creation_commands ≡ s.creation_commands ++ command_of identity command_key digest ids ∷ []
  pub new_company : any (is_company ids.company_id) s.companies ≡ false
  pub new_member : any (is_membership_of ids.company_id identity.id) s.memberships ≡ false

pub founding :
    (s s' : Store) (identity : ExternalIdentityRow) (session : SessionRow)
    (name command_key digest : String) (ids : NewIds) (c : CompanyRow) (m : MembershipRow)
    → create_company_with_owner s identity session name command_key digest ids ≡ ok (c, m, s')
    → IsFounded s s' identity name command_key digest ids
      × (c ≡ founded name ids)
      × (m ≡ founder identity ids)
unfolding create_company_with_owner insert_membership create_private_preview_initial_settings
    add_audit
founding s s' identity session name command_key digest ids c m h = (
  record {
    companies = ground arith;
    memberships = ground arith;
    commands = ground arith;
    new_company = ground arith;
    new_member = ground arith;
  },
  ground arith,
  ground arith,
)

founded-company :
    (s s' : Store) (identity : ExternalIdentityRow) (name command_key digest : String)
    (ids : NewIds)
    → IsFounded s s' identity name command_key digest ids
    → company_is_active s' ids.company_id ≡ true
unfolding company_is_active
founded-company s s' identity name command_key digest ids f =
    let is_open = λ (row : CompanyRow). row.id == ids.company_id && row.active in
    ap (any is_open) f.companies
    ∙ any-append is_open s.companies (founded name ids ∷ [])
    ∙ ground (arith, ==_refl ids.company_id)

-- The founder is an active member of an active company.
founded-active :
    (s s' : Store) (identity : ExternalIdentityRow) (name command_key digest : String)
    (ids : NewIds)
    → IsFounded s s' identity name command_key digest ids
    → any (is_active_membership s' identity.id) s'.memberships ≡ true
founded-active s s' identity name command_key digest ids f =
    let active = founded-company s s' identity name command_key digest ids f in
    ap (any (is_active_membership s' identity.id)) f.memberships
    ∙ any-append (is_active_membership s' identity.id) s.memberships (founder identity ids ∷ [])
    ∙ ground (arith, ==_refl identity.id, active)

pub founded-membership :
    (s s' : Store) (identity : ExternalIdentityRow) (name command_key digest : String)
    (ids : NewIds)
    → IsFounded s s' identity name command_key digest ids
    → is_none (active_identity_membership s' identity.id) ≡ false
unfolding active_identity_membership
founded-membership s s' identity name command_key digest ids f =
    let active = founded-active s s' identity name command_key digest ids f in
    elim (Option-cases (find (is_active_membership s' identity.id) s'.memberships)) [
      | inl nothing ↦
          let never = find-any (is_active_membership s' identity.id) s'.memberships nothing in
          absurd (ground arith)
      | inr (m, found) ↦ rw found refl
    ]

-- The answer to a known command is marked as one that creates nothing.
pub created_before-known :
    (s s' : Store) (session : SessionRow) (identity : ExternalIdentityRow)
    (existing : CompanyCreationCommandRow) (digest : String) (c : CompanyRow) (m : MembershipRow)
    (is_new : Bool)
    → created_before s session identity existing digest ≡ ok ((c, m), is_new, s')
    → (is_new ≡ false)
      × (existing.payload_digest ≡ digest)
      × (company s existing.company_id ≡ some c)
      × (membership s existing.company_id identity.id ≡ some m)
      × (m.active ≡ true)
      × (s'.companies ≡ s.companies)
      × (s'.memberships ≡ s.memberships)
unfolding created_before
created_before-known s s' session identity existing digest c m is_new h =
    let (same, h1) =
      >>-eq-ok (require (str_eq existing.payload_digest digest) idempotency_conflict) h in
    let (actor, _, h2) =
      >>=-eq-ok
        (some_or (active_actor s existing.membership_id identity.id) company_creation_not_available)
        _ h1 in
    let (row, its, h3) =
      >>=-eq-ok (some_or (company s existing.company_id) company_creation_not_available) _ h2 in
    let (member, theirs, h4) =
      >>=-eq-ok
        (some_or (membership s existing.company_id identity.id) company_creation_not_available) _
        h3 in
    (
      ground (arith, h4),
      (eq_iff existing.payload_digest digest).0 (require-eq-ok idempotency_conflict same),
      ground (arith, its, h4),
      ground (arith, theirs, h4),
      ground (arith, h4),
      ground (arith, h4),
      ground (arith, h4),
    )
