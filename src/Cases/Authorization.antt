-- ===== src/Cases/Authorization.antt =====
-- authorization.py: who the bearer of a session token is, and whether a member may see a case.
use apbra.Prelude.{ℕ, Bool, not, ◌||◌, Option, ok, ◌>>=◌, ◌>>◌, require, some_or, String, is_blank}
use apbra.Domain.{Actor, can_edit, authentication_required, protected_resource_not_found}
use apbra.Store.Rows.{CaseRow, CaseAccessRow, ExternalIdentityRow, SessionRow, Store, Outcome}
use apbra.Store.Query.{active_session, active_actor, case_access}

module _ (sha256_text : String → String) where
  unfoldable pub resolve_session :
      Store → ℕ → Option String → Outcome (SessionRow × ExternalIdentityRow)
  resolve_session s now session_token = do
    token ← some_or session_token authentication_required
    require (not (is_blank token)) authentication_required
    some_or (active_session s (sha256_text token) now) authentication_required

  unfoldable pub resolve_identity : Store → ℕ → Option String → Outcome ExternalIdentityRow
  resolve_identity s now session_token = do
    (session, identity) ← resolve_session s now session_token
    ok identity

  unfoldable pub resolve_actor : Store → ℕ → Option String → Outcome Actor
  resolve_actor s now session_token = do
    (session, identity) ← resolve_session s now session_token
    membership ← some_or session.membership_id authentication_required
    some_or (active_actor s membership identity.id) authentication_required

-- `require_edit` is the keyword argument.
unfoldable pub authorized_case_access : Store → Actor → ℕ → Bool → Outcome (CaseRow × CaseAccessRow)
authorized_case_access s actor case_id require_edit = do
  (row, access) ← some_or (case_access s actor case_id) protected_resource_not_found
  require (not require_edit || can_edit access.access_level) protected_resource_not_found
  ok (row, access)
