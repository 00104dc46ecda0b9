-- ===== src/Tenancy/Acceptance.antt =====
-- What is left of an invitation once it is accepted or revoked.
use apbra.Prelude.{
  ℕ, ◌≡◌, refl, sym, subst, true, false, none, some, [], ◌∷◌, ◌++◌, arith, ok, err, opt_eq_iff,
  Bool-cases, Option-cases, inl, inr, ◌⊎◌, String, str_eq, eq_iff, find, find-append,
  find-modify_first, find-passes, modify_first, is_some,
}
use apbra.Domain.{Actor, invitation_invalid}
use apbra.Store.Rows.{MembershipRow, InvitationRow, ExternalIdentityRow, Store}
use apbra.Store.Query.{
  is_invitation, invitation, membership, active_company, identity_is_active, is_membership_of,
  lock_company_invitation, is_company_invitation,
}
use apbra.Store.Write.{
  insert_membership, accept_invitation, consume, accepted_membership, add_audit,
}
use apbra.Tenancy.Invitations.{
  accept, accept_open, accepted_before, is_open, is_meant_for, revoke, revoked,
}

-- What the first acceptance of an invitation has checked and written.
pub record IsFirstUse (s : Store) (now id : ℕ) (row : InvitationRow)
    (identity : ExternalIdentityRow) (m : MembershipRow) (s' : Store) : Type 0 where
  pub open_at : is_open now row ≡ true
  pub meant : is_meant_for identity row ≡ true
  pub active : identity_is_active s identity.id ≡ true
  pub new : membership s row.company_id identity.id ≡ none
  pub granted : m ≡ accepted_membership id row identity
  pub memberships : s'.memberships ≡ s.memberships ++ m ∷ []
  pub invitations :
      s'.invitations
      ≡ modify_first (is_invitation row.token_digest) (consume now identity.id) s.invitations

pub accept_open-IsFirstUse :
    (s : Store) (now id : ℕ) (row : InvitationRow) (identity : ExternalIdentityRow)
    (m : MembershipRow) (s' : Store)
    → accept_open s now id row identity ≡ ok (m, s')
    → IsFirstUse s now id row identity m s'
unfolding accept_open accept_invitation insert_membership
accept_open-IsFirstUse s now id row identity m s' h = record {
  open_at = ground arith;
  meant = ground arith;
  active = ground arith;
  new = ground arith;
  granted = ground arith;
  memberships = ground arith;
  invitations = ground arith;
}

-- What the branch on a consumed invitation has checked: it changes nothing.
pub record IsReuse (s : Store) (row : InvitationRow) (identity : ExternalIdentityRow)
    (m : MembershipRow) (s' : Store) : Type 0 where
  pub consumer : row.consumed_by_identity_id ≡ some identity.id
  pub existing : membership s row.company_id identity.id ≡ some m
  pub active : m.active ≡ true
  pub same : s' ≡ s

pub accepted_before-IsReuse :
    (s : Store) (row : InvitationRow) (identity : ExternalIdentityRow) (m : MembershipRow)
    (s' : Store)
    → accepted_before s row identity ≡ ok (m, s')
    → IsReuse s row identity m s'
unfolding accepted_before
accepted_before-IsReuse s row identity m s' h = record {
  consumer = ground (arith, opt_eq_iff row.consumed_by_identity_id (some identity.id));
  existing = ground arith;
  active = ground arith;
  same = ground arith;
}

invitation-digest :
    (s : Store) (digest : String) (row : InvitationRow)
    → invitation s digest ≡ some row
    → row.token_digest ≡ digest
unfolding invitation is_invitation
invitation-digest s digest row h =
    (eq_iff _ _).0 (find-passes (is_invitation digest) s.invitations row h)

invitation-consumed :
    (s s' : Store) (now id : ℕ) (digest : String) (row : InvitationRow)
    (identity : ExternalIdentityRow) (m : MembershipRow)
    → invitation s digest ≡ some row
    → IsFirstUse s now id row identity m s'
    → invitation s' digest ≡ some (consume now identity.id row)
unfolding invitation is_invitation
invitation-consumed s s' now id digest row identity m h u =
    let e = invitation-digest s digest row h in
    rw u.invitations (
      find-modify_first (is_invitation digest) (is_invitation row.token_digest)
        (consume now identity.id) s.invitations row h
        (subst (λ d. find (λ r. str_eq r.token_digest d) s.invitations ≡ some row) (sym e) h)
        ((eq_iff _ _).1 e))

membership-granted :
    (s s' : Store) (now id : ℕ) (row : InvitationRow) (identity : ExternalIdentityRow)
    (m : MembershipRow)
    → IsFirstUse s now id row identity m s'
    → membership s' row.company_id identity.id ≡ some m
unfolding membership is_membership_of
membership-granted s s' now id row identity m u = rw u.memberships (
    rw (find-append (is_membership_of row.company_id identity.id) s.memberships (m ∷ []) u.new)
      (ground (arith, u.granted)))

revoke-invitations :
    (s : Store) (actor : Actor) (now id : ℕ) (s' : Store) (row : InvitationRow)
    → lock_company_invitation s actor.company_id id ≡ some row
    → revoke s actor now id ≡ ok s'
    → (row.consumed_at ≡ none)
      × (s'.invitations
          ≡ modify_first (is_company_invitation actor.company_id id) (revoked now) s.invitations)
unfolding revoke add_audit
revoke-invitations s actor now id s' row locked h = (ground arith, ground arith)

invitation-revoked :
    (s : Store) (actor : Actor) (now id : ℕ) (s' : Store) (digest : String) (row : InvitationRow)
    → invitation s digest ≡ some row
    → lock_company_invitation s actor.company_id id ≡ some row
    → revoke s actor now id ≡ ok s'
    → invitation s' digest ≡ some (revoked now row)
unfolding invitation is_invitation lock_company_invitation
invitation-revoked s actor now id s' digest row found locked h =
    let e = invitation-digest s digest row found in
    let (_, changed) = revoke-invitations s actor now id s' row locked h in
    rw changed (
      find-modify_first (is_invitation digest) (is_company_invitation actor.company_id id)
        (revoked now) s.invitations row found locked ((eq_iff _ _).1 e))

module _ (sha256_text : String → String) where
  -- How an acceptance that succeeds has gone: a replay, or a fresh membership.
  record IsAcceptance (s : Store) (now id : ℕ) (identity : ExternalIdentityRow) (token : String)
      (m : MembershipRow) (s' : Store) : Type 0 where
    pub row : InvitationRow
    pub found : invitation s (sha256_text token) ≡ some row
    pub company : is_some (active_company s row.company_id) ≡ true
    pub how :
        ((is_some row.consumed_at ≡ true) × IsReuse s row identity m s')
        ⊎ ((is_some row.consumed_at ≡ false) × IsFirstUse s now id row identity m s')

  -- A token that is accepted names an invitation of an active company. If it was not consumed yet,
  -- it is open, meant for this identity, and gives it the invited role in that company; if it was,
  -- then by this identity, whose active membership is returned with the store unchanged.
  accept-IsAcceptance :
      (s : Store) (now id : ℕ) (identity : ExternalIdentityRow) (token : String) (m : MembershipRow)
      (s' : Store)
      → accept sha256_text s now id identity token ≡ ok (m, s')
      → IsAcceptance s now id identity token m s'
  unfolding accept
  accept-IsAcceptance s now id identity token m s' h =
      elim (Option-cases (invitation s (sha256_text token))) [
        | inl missing ↦ absurd (ground arith)
        | inr (row, found) ↦ elim (Bool-cases (is_some row.consumed_at)) [
          | inl used ↦ record {
            row = row;
            found = found;
            company = ground arith;
            how = inl (used, accepted_before-IsReuse s row identity m s' (ground arith));
          }
          | inr unused ↦ record {
            row = row;
            found = found;
            company = ground arith;
            how = inr (unused, accept_open-IsFirstUse s now id row identity m s' (ground arith));
          }
        ]
      ]

  -- The invitation as a second call finds it, after one that succeeded.
  used_row :
      (s : Store) (now id : ℕ) (identity : ExternalIdentityRow) (token : String) (m : MembershipRow)
      (s' : Store)
      → IsAcceptance s now id identity token m s'
      → (row : InvitationRow) × (invitation s' (sha256_text token) ≡ some row)
        × (is_some row.consumed_at ≡ true)
        × (row.consumed_by_identity_id ≡ some identity.id)
        × (membership s' row.company_id identity.id ≡ some m)
  used_row s now id identity token m s' a = elim a.how [
    | inl (used, u) ↦ (a.row, rw u.same a.found, used, u.consumer, rw u.same u.existing)
    | inr (unused, u) ↦ (
      consume now identity.id a.row,
      invitation-consumed s s' now id (sha256_text token) a.row identity m a.found u,
      refl,
      refl,
      membership-granted s s' now id a.row identity m u,
    )
  ]

  -- A token serves one identity: a later acceptance that succeeds is by the same identity, returns
  -- the same membership and changes nothing.
  pub accept_once :
      (s : Store) (now id : ℕ) (i : ExternalIdentityRow) (token : String) (m : MembershipRow)
      (s' : Store) (now' id' : ℕ) (j : ExternalIdentityRow) (m' : MembershipRow) (s'' : Store)
      → accept sha256_text s now id i token ≡ ok (m, s')
      → accept sha256_text s' now' id' j token ≡ ok (m', s'')
      → (j.id ≡ i.id) × (m' ≡ m) × (s'' ≡ s')
  accept_once s now id i token m s' now' id' j m' s'' h h' =
      let (row, found, used, consumer, member) =
        used_row s now id i token m s' (accept-IsAcceptance s now id i token m s' h) in
      let b = accept-IsAcceptance s' now' id' j token m' s'' h' in
      let same : b.row ≡ row = ground arith in
      elim b.how [
        | inl (_, u) ↦ let ids : j.id ≡ i.id = ground arith in (ids, ground arith, u.same)
        | inr (unused, _) ↦ absurd (ground arith)
      ]

  -- After a revocation that succeeds, of the invitation that the token names, the token is refused
  -- as invalid at any time and whoever presents it.
  pub accept-revoke :
      (s : Store) (actor : Actor) (now invitation_id : ℕ) (s' : Store) (token : String)
      (row : InvitationRow) (now' id : ℕ) (identity : ExternalIdentityRow)
      → invitation s (sha256_text token) ≡ some row
      → lock_company_invitation s actor.company_id invitation_id ≡ some row
      → revoke s actor now invitation_id ≡ ok s'
      → accept sha256_text s' now' id identity token ≡ err invitation_invalid
  unfolding accept accept_open
  accept-revoke s actor now invitation_id s' token row now' id identity found locked h =
      let (unused, _) = revoke-invitations s actor now invitation_id s' row locked h in
      ground (
        arith,
        invitation-revoked s actor now invitation_id s' (sha256_text token) row found locked h,
        eq_iff row.token_digest (sha256_text token),
        invitation-digest s (sha256_text token) row found,
      )
