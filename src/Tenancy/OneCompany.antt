-- ===== src/Tenancy/OneCompany.antt =====
-- `CompanyService.create`, called again by an identity that has created a company.
use apbra.Prelude.{
  ℕ, ◌≡◌, subst, Bool, true, false, not, inl, inr, Option-cases, none, String, arith, ok, >>=-eq-ok,
  >>-eq-ok, require, require-eq-ok, is_none,
}
use apbra.Domain.{authentication_required, company_creation_not_available, company_name_invalid}
use apbra.Store.Rows.{CompanyRow, ExternalIdentityRow, MembershipRow, SessionRow, Store}
use apbra.Store.Query.{identity_is_active, company_is_active}
use apbra.Store.Companies.{
  company_creation_command, active_identity_membership, eligible_invitation_for_identity, NewIds,
  founded, founder, lock_active_session_for_creation, create_company_with_owner,
}
use apbra.Tenancy.Company.{safe_display_name, create_new, create_locked, create_company}
use apbra.Tenancy.Founding.{IsFounded, founding, founded-membership, created_before-known}

module _ (nfc : String → String) (is_control : ℕ → Bool) (name_digest : String → String) where
  create_new-IsFounded :
      (s s' : Store) (now : ℕ) (session : SessionRow) (identity : ExternalIdentityRow)
      (name command_key digest : String) (ids : NewIds) (c : CompanyRow) (m : MembershipRow)
      (is_new : Bool)
      → create_new nfc is_control name_digest s now session identity name command_key digest ids
        ≡ ok ((c, m), is_new, s')
      → (is_none (active_identity_membership s identity.id) ≡ true)
        × IsFounded s s' identity name command_key digest ids
        × (c ≡ founded name ids)
        × (m ≡ founder identity ids)
  unfolding create_new
  create_new-IsFounded s s' now session identity name command_key digest ids c m is_new h =
      let (first, h1) =
        >>-eq-ok
          (require (is_none (active_identity_membership s identity.id))
            company_creation_not_available)
          h in
      let (_, h2) =
        >>-eq-ok
          (require (not (eligible_invitation_for_identity s identity now))
            company_creation_not_available)
          h1 in
      let ((c', m', t), made, h3) =
        >>=-eq-ok (create_company_with_owner s identity session name command_key digest ids) _ h2 in
      let (f, its, theirs) = founding s t identity session name command_key digest ids c' m' made in
      let same : t ≡ s' = ground (arith, h3) in
      (
        require-eq-ok company_creation_not_available first,
        subst (λ u. IsFounded s u identity name command_key digest ids) same f,
        ground (arith, h3, its),
        ground (arith, h3, theirs),
      )

  locked :
      (s s' : Store) (now session_id : ℕ) (identity : ExternalIdentityRow)
      (name command_key : String) (ids : NewIds) (c : CompanyRow) (m : MembershipRow)
      (is_new : Bool)
      → create_company nfc is_control name_digest s now session_id identity name command_key ids
        ≡ ok ((c, m), is_new, s')
      → (canonical : String) × (session : SessionRow) × (safe_display_name nfc is_control name
            company_name_invalid
          ≡ ok canonical)
        × (create_locked nfc is_control name_digest s now session identity canonical command_key ids
            ≡ ok ((c, m), is_new, s'))
  unfolding create_company
  locked s s' now session_id identity name command_key ids c m is_new h =
      let (canonical, named, h1) =
        >>=-eq-ok (safe_display_name nfc is_control name company_name_invalid) _ h in
      let (_, h2) =
        >>-eq-ok (require (identity_is_active s identity.id) authentication_required) h1 in
      let (session, _, h3) =
        >>=-eq-ok (lock_active_session_for_creation s session_id identity.id now) _ h2 in
      (canonical, session, named, h3)

  -- How a call that creates a company has gone.
  creation :
      (s s' : Store) (now session_id : ℕ) (identity : ExternalIdentityRow)
      (name command_key : String) (ids : NewIds) (c : CompanyRow) (m : MembershipRow)
      → create_company nfc is_control name_digest s now session_id identity name command_key ids
        ≡ ok ((c, m), true, s')
      → (canonical : String) × (safe_display_name nfc is_control name company_name_invalid
          ≡ ok canonical)
        × (company_creation_command s identity.id command_key ≡ none)
        × IsFounded s s' identity canonical command_key (name_digest canonical) ids
        × (c ≡ founded canonical ids)
        × (m ≡ founder identity ids)
  unfolding create_locked
  creation s s' now session_id identity name command_key ids c m h =
      let (canonical, session, named, h1) =
        locked s s' now session_id identity name command_key ids c m true h in
      elim (Option-cases (company_creation_command s identity.id command_key)) [
        | inr (existing, known) ↦
            let (old, _, _, _, _, _, _) =
              created_before-known s s' session identity existing (name_digest canonical) c m true
                (rw (known, create_locked) at h1) in
            cc
        | inl unknown ↦
            let (_, f, its, theirs) =
              create_new-IsFounded s s' now session identity canonical command_key
                (name_digest canonical) ids c m true (rw (unknown, create_locked) at h1) in
            (canonical, named, unknown, f, its, theirs)
      ]

  same_tables :
      (s t : Store) (identity_id : ℕ)
      → t.companies ≡ s.companies
      → t.memberships ≡ s.memberships
      → is_none (active_identity_membership s identity_id) ≡ false
      → is_none (active_identity_membership t identity_id) ≡ false
  unfolding active_identity_membership company_is_active
  same_tables s t identity_id companies memberships h = rw (companies, memberships) h

  -- After an identity has created a company, and as long as no call has changed the tables of companies
  -- and memberships, no call of theirs creates another, whatever its name, its command key and the
  -- other tables are: a call that returns at all answers an earlier command, and leaves the companies
  -- and the memberships as they are.
  pub create_company-once :
      (s s' t s'' : Store) (now now' session_id session_id' : ℕ) (identity : ExternalIdentityRow)
      (name command_key name' command_key' : String) (ids ids' : NewIds) (c c' : CompanyRow)
      (m m' : MembershipRow) (is_new : Bool)
      → create_company nfc is_control name_digest s now session_id identity name command_key ids
        ≡ ok ((c, m), true, s')
      → t.companies ≡ s'.companies
      → t.memberships ≡ s'.memberships
      → create_company nfc is_control name_digest t now' session_id' identity name' command_key'
          ids'
        ≡ ok ((c', m'), is_new, s'')
      → (is_new ≡ false) × (s''.companies ≡ t.companies) × (s''.memberships ≡ t.memberships)
  unfolding create_locked
  create_company-once s s' t s'' now now' session_id session_id' identity name command_key name'
        command_key' ids ids' c c' m m' is_new first companies memberships second =
      let (canonical, _, _, f, _, _) =
        creation s s' now session_id identity name command_key ids c m first in
      let has =
        same_tables s' t identity.id companies memberships
          (founded-membership s s' identity canonical command_key (name_digest canonical) ids f) in
      let (canonical', session, _, h) =
        locked t s'' now' session_id' identity name' command_key' ids' c' m' is_new second in
      elim (Option-cases (company_creation_command t identity.id command_key')) [
        | inr (existing, known) ↦
            let (old, _, _, _, _, companies', memberships') =
              created_before-known t s'' session identity existing (name_digest canonical') c' m'
                is_new (rw (known, create_locked) at h) in
            (old, companies', memberships')
        | inl unknown ↦
            let (none_, _, _, _) =
              create_new-IsFounded t s'' now' session identity canonical' command_key'
                (name_digest canonical') ids' c' m' is_new (rw (unknown, create_locked) at h) in
            cc
      ]
