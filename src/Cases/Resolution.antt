-- ===== src/Cases/Resolution.antt =====
-- Whom a session token stands for.
use apbra.Prelude.{
  ℕ, ◌≡◌, sym, subst, Bool, true, ◌&&◌, some, List, [], ◌∷◌, arith, ok, ◌==◌, >>=-eq-ok, Bool-cases,
  Option-cases, inl, inr, find, find-passes, any, some_or, String, str_eq, is_none, ltb, opt_eq,
  ==_refl, ◌∙◌,
}
use apbra.Domain.{Actor, authentication_required}
use apbra.Store.Rows.{MembershipRow, ExternalIdentityRow, SessionRow, Store}
use apbra.Store.Query.{
  active_actor, active_session, actor_of, company_is_active, identity_is_active, identity_of,
  member_is_active,
}
use apbra.Cases.Authorization.{resolve_actor, resolve_session}

-- What passes one test and is found passes another that follows from it somewhere in the list.
find-true_somewhere :
    {A : Type 0} (p q : A → Bool) (xs : List A) (r : A)
    → find p xs ≡ some r
    → q r ≡ true
    → any q xs ≡ true
find-true_somewhere p q [] r h k = cc
find-true_somewhere p q (x ∷ xs) r h k = elim (Bool-cases (p x)) [
  | inl here ↦
      let same : x ≡ r = ground arith in
      let passes : q x ≡ true = subst (λ y. q y ≡ true) (sym same) k in ground arith
  | inr there ↦ let rest = find-true_somewhere p q xs r (rw there at h) k in ground arith
]

active_actor-active :
    (s : Store) (membership_id identity_id : ℕ) (actor : Actor)
    → active_actor s membership_id identity_id ≡ some actor
    → (actor.membership_id ≡ membership_id)
      × (actor.identity_id ≡ identity_id)
      × (company_is_active s actor.company_id ≡ true)
      × (identity_is_active s actor.identity_id ≡ true)
      × (member_is_active s actor.membership_id ≡ true)
unfolding active_actor member_is_active identity_of
active_actor-active s membership_id identity_id actor h =
    elim (Option-cases (
      find
        (λ (row : MembershipRow).
          row.id == membership_id
          && row.identity_id == identity_id
          && row.active
          && identity_is_active s row.identity_id
          && company_is_active s row.company_id)
        s.memberships)) [
          | inl missing ↦ absurd (ground arith)
          | inr (m, found) ↦
              elim (Option-cases
                (find (λ (row : ExternalIdentityRow). row.id == m.identity_id) s.identities)) [
                  | inl nobody ↦ absurd (ground arith)
                  | inr (i, listed) ↦
                      let passes = find-passes _ s.memberships m found in
                      let its =
                        find-passes (λ (row : ExternalIdentityRow). row.id == m.identity_id)
                          s.identities i listed in
                      let is : actor_of m i ≡ actor = ground arith in
                      let same : i.id ≡ m.identity_id = ground arith in
                      let m_id : m.id ≡ membership_id = ground arith in
                      let id_is : m.identity_id ≡ identity_id = ground arith in
                      let ident : identity_is_active s m.identity_id ≡ true = ground arith in
                      let comp : company_is_active s m.company_id ≡ true = ground arith in
                      let on : (m.id == m.id && m.active && identity_is_active s m.identity_id)
                          ≡ true =
                        ground arith in
                      subst
                        (λ a.
                          (a.membership_id ≡ membership_id)
                          × (a.identity_id ≡ identity_id)
                          × (company_is_active s a.company_id ≡ true)
                          × (identity_is_active s a.identity_id ≡ true)
                          × (any
                                (λ row.
                                  row.id == a.membership_id
                                  && row.active
                                  && identity_is_active s row.identity_id)
                                s.memberships
                              ≡ true))
                        is
                        (
                          m_id,
                          cc,
                          comp,
                          subst (λ k. identity_is_active s k ≡ true) (sym same) ident,
                          find-true_somewhere _
                              (λ row.
                                row.id == m.id
                                && row.active
                                && identity_is_active s row.identity_id)
                              s.memberships m found on,
                        )
                ]
        ]

active_session-found :
    (s : Store) (digest : String) (now : ℕ) (session : SessionRow) (identity : ExternalIdentityRow)
    → active_session s digest now ≡ some (session, identity)
    → (find
          (λ (row : SessionRow).
            str_eq row.token_digest digest && is_none row.revoked_at && ltb now row.expires_at)
          s.sessions
        ≡ some session)
      × (identity_of s session.identity_id ≡ some identity)
unfolding active_session
active_session-found s digest now session identity h =
    elim (Option-cases (
      find
        (λ (row : SessionRow).
          str_eq row.token_digest digest && is_none row.revoked_at && ltb now row.expires_at)
        s.sessions)) [
          | inl missing ↦ absurd (ground arith)
          | inr (row, found) ↦ elim (Option-cases (identity_of s row.identity_id)) [
            | inl nobody ↦ absurd (ground arith)
            | inr (i, listed) ↦
                let same : row ≡ session = ground arith in
                let same_identity : i ≡ identity = ground arith in
                (
                  subst
                      (λ r.
                        find
                          (λ (q : SessionRow).
                            str_eq q.token_digest digest
                            && is_none q.revoked_at
                            && ltb now q.expires_at)
                          s.sessions
                        ≡ some r)
                      same found,
                  subst (λ r. identity_of s r.identity_id ≡ some identity) same
                      (subst (λ j. identity_of s row.identity_id ≡ some j) same_identity listed),
                )
          ]
        ]

identity_of-id :
    (s : Store) (id : ℕ) (identity : ExternalIdentityRow)
    → identity_of s id ≡ some identity
    → identity.id ≡ id
unfolding identity_of
identity_of-id s id identity h =
    ground
      (arith, find-passes (λ (row : ExternalIdentityRow). row.id == id) s.identities identity h)

module _ (sha256_text : String → String) where
  -- An actor that a session token resolves to is the active member of an active company, with an active
  -- identity, and the store has a session of that identity and membership, with the digest of the
  -- token, neither revoked nor expired.
  pub resolve_actor-active :
      (s : Store) (now : ℕ) (token : String) (actor : Actor)
      → resolve_actor sha256_text s now (some token) ≡ ok actor
      → (any
            (λ (row : SessionRow).
              str_eq row.token_digest (sha256_text token)
              && is_none row.revoked_at
              && ltb now row.expires_at
              && row.identity_id == actor.identity_id
              && opt_eq row.membership_id (some actor.membership_id))
            s.sessions
          ≡ true)
        × (company_is_active s actor.company_id ≡ true)
        × (identity_is_active s actor.identity_id ≡ true)
        × (member_is_active s actor.membership_id ≡ true)
  unfolding resolve_actor resolve_session
  resolve_actor-active s now token actor h =
      let ((session, identity), resolved, h1) =
        >>=-eq-ok (resolve_session sha256_text s now (some token)) _ h in
      let (member, named, h2) =
        >>=-eq-ok (some_or session.membership_id authentication_required) _ h1 in
      let (found, whose) =
        active_session-found s (sha256_text token) now session identity
          (ground (arith, resolved)) in
      let a = active_actor-active s member identity.id actor (ground (arith, h2)) in
      let its : session.membership_id ≡ some member = ground (arith, named) in
      let passes = find-passes _ s.sessions session found in
      let theirs : actor.identity_id ≡ session.identity_id =
        a.1 ∙ identity_of-id s session.identity_id identity whose in
      let holds : (opt_eq session.membership_id (some actor.membership_id)) ≡ true =
        rw (its, a.0) (==_refl member) in
      (
        find-true_somewhere _
            (λ (row : SessionRow).
              str_eq row.token_digest (sha256_text token)
              && is_none row.revoked_at
              && ltb now row.expires_at
              && row.identity_id == actor.identity_id
              && opt_eq row.membership_id (some actor.membership_id))
            s.sessions session found (ground (arith, passes, theirs, holds)),
        a.2,
        a.3,
        a.4,
      )
