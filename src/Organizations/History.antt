-- ===== src/Organizations/History.antt =====
-- Any sequence of the plugin's operations, by any callers: the tables after a history of calls. A call
-- that fails leaves the tables as they were.
pub mod Frames
pub mod Owned
pub mod Runs
pub mod Invited
use auth_all.Prelude.{ℕ, Bool, List, [], ◌∷◌, Option, none, some, Str}
use auth_all.Errors.{Result, ok, err}
use auth_all.Organizations.Store.{Organization, Membership, User, Db}
use auth_all.Organizations.Events.{Hooks, Change}
use auth_all.Organizations.Access.{Plugin}
use auth_all.Organizations.Members.{set_role, set_status, remove}
use auth_all.Organizations.Lifecycle.{create, update, delete, set_active_session}
use auth_all.Organizations.Custom.{create_role, delete_role}
use auth_all.Organizations.Invitations.{invite, accept, revoke}
use auth_all.Organizations.Teams.{create_new_team, drop_team, join_team, leave_team}

-- A call with its arguments; the first argument of most is the acting user, if there is one.
pub data Call : Type 0 where
  creates : Option User → Str → Str → Str → Str → Str → ℕ → Call
  updates : Option User → Str → Option Str → Option Str → ℕ → Call
  deletes : Option User → Str → Call
  sets_role sets_status : Option User → Str → Str → Str → Call
  removes : Option User → Str → Str → Call
  invites : Option User → Str → Str → Str → Str → Str → ℕ → Call
  accepts : Option User → Str → Str → ℕ → Call
  revokes : Option User → Str → Str → Call
  creates_role : Option User → Str → Str → List Str → Str → ℕ → Call
  deletes_role : Option User → Str → Str → Call
  creates_team : Option User → Str → Str → Str → Str → ℕ → Call
  drops_team : Option User → Str → Str → Call
  joins_team leaves_team : Option User → Str → Str → Str → Call
  activates : Str → Str → Str → Call

abbrev pub after : {A : Type 0} → Db → Result (Change A) → Db
after db (ok c) = c.db
after db (err e) = db

module _ (lower : Str → Str) (parse_address : Str → Option Str) (digest : Str → Str) (p : Plugin)
    (hooks : Hooks) where
  unfoldable pub step : Db → Call → Db
  step db (creates actor name slug owner org member now) =
      after db (create p hooks db actor name slug owner org member now)
  step db (updates actor org name slug now) = after db (update hooks db actor org name slug now)
  step db (deletes actor org) = after db (delete hooks db actor org)
  step db (sets_role actor org user role) = after db (set_role p hooks db actor org user role)
  step db (sets_status actor org user status) =
      after db (set_status p hooks db actor org user status)
  step db (removes actor org user) = after db (remove p hooks db actor org user)
  step db (invites actor org email role token id now) =
      after db (invite lower parse_address digest p db actor org email role token id now)
  step db (accepts user token id now) = after db (accept digest db user token id now)
  step db (revokes actor org id) = after db (revoke p db actor org id)
  step db (creates_role actor org name texts id now) =
      after db (create_role p db actor org name texts id now)
  step db (deletes_role actor org name) = after db (delete_role p db actor org name)
  step db (creates_team actor org name role id now) =
      after db (create_new_team p db actor org name role id now)
  step db (drops_team actor org team) = after db (drop_team p db actor org team)
  step db (joins_team actor org team user) = after db (join_team p db actor org team user)
  step db (leaves_team actor org team user) = after db (leave_team p db actor org team user)
  step db (activates session user org) = after db (set_active_session db session user org)

  unfoldable pub run : Db → List Call → Db
  run db [] = db
  run db (c ∷ cs) = run (step db c) cs
