-- ===== src/Tenancy/Manage.antt =====
-- The guard that the management services share: the company is active, and the actor's membership
-- is read again and may still invite.
use apbra.Prelude.{ok, ◌>>=◌, ◌>>◌, require, some_or}
use apbra.Domain.{Actor, can_invite, forbidden}
use apbra.Store.Rows.{Store, Outcome}
use apbra.Store.Query.{company_is_active, active_actor}

unfoldable pub current_manager : Store → Actor → Outcome Actor
current_manager s actor = do
  require (company_is_active s actor.company_id) forbidden
  current ← some_or (active_actor s actor.membership_id actor.identity_id) forbidden
  require (can_invite current.role) forbidden
  ok current
