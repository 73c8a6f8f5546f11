-- ===== src/Organizations/Events.antt =====
-- The audit events that the organizations plugin emits, and the hooks of the application that can
-- refuse a change. A hook is a function of the changed row; that it writes no row is assumed.
use auth_all.Prelude.{Option, none, some, Str, List, []}
use auth_all.Organizations.Store.{Organization, Membership, User, Db}
use auth_all.Errors.{Error}

-- The fields of an event: who acted, in which organization, on what.
pub data Event : Type 0 where
  organization_created : Str → Str → Event
  organization_updated : Str → Str → Event
  organization_deleted : Str → Str → Event
  member_added : Str → Str → Str → Str → Event
  member_role_changed : Str → Str → Str → Str → Str → Event
  member_suspended : Str → Str → Str → Event
  member_restored : Str → Str → Str → Event
  member_removed : Str → Str → Str → Str → Event
  invitation_created : Str → Str → Str → Event
  invitation_accepted : Str → Str → Str → Event
  invitation_revoked : Str → Str → Str → Event
  custom_role_created : Str → Str → Str → Str → Event
  custom_role_deleted : Str → Str → Str → Event
  team_created : Str → Str → Str → Str → Event
  team_deleted : Str → Str → Str → Event
  team_member_added : Str → Str → Str → Str → Event
  team_member_removed : Str → Str → Str → Str → Event
  active_organization_set : Str → Str → Event

pub record Hooks : Type 0 where
  pub before_membership_change : Membership → Option Error
  pub before_organization_create : Organization → Option Error
  pub before_organization_update : Organization → Option Error
  pub before_organization_delete : Organization → Option Error

abbrev pub actor_id : Option User → Str
actor_id none = []
actor_id (some u) = u.id

-- What a call that succeeds leaves behind: the tables, its result, and the events.
pub record Change (A : Type 0) : Type 0 where
  pub db : Db
  pub value : A
  pub events : List Event
