-- ===== src/Admin/Examples.antt =====
-- Two administrators.
use auth_all.Prelude.{refl, [], ◌∷◌, none, false, codes, str_beq, Str}
use auth_all.Roles.{at_least, rank, effective, index_of}
use auth_all.Accounts.{User, Session, Db}
use auth_all.Admin.{Plugin, Hooks}
use auth_all.Admin.Owners.{IsAdministered, unique_users}
use auth_all.Admin.History.{run, run-IsAdministered, calls_disable, calls_set_role}

abbrev plugin : Plugin
plugin = record {
  roles = record { hierarchy = codes "user" ∷ codes "admin" ∷ []; default_role = codes "user" };
  admin_role = codes "admin";
}

abbrev hooks : Hooks
hooks = record { before_role_change = λ u. none; before_user_update = λ u. none }

abbrev admin : Str → User
admin id = record {
  id = id;
  role = codes "admin";
  disabled_at = none;
  must_change_password = false;
  updated_at = 0;
}

abbrev session : Str → Str → Session
session user hash = record {
  id = hash;
  user_id = user;
  token_hash = hash;
  created_at = 0;
  expires_at = 9;
  last_seen_at = 0;
}

abbrev db : Db
db = record {
  users = admin (codes "a") ∷ admin (codes "b") ∷ [];
  sessions = session (codes "a") (codes "x") ∷ session (codes "b") (codes "y") ∷ [];
}

run-IsAdministered_example : IsAdministered plugin (
    run plugin hooks db
      (calls_disable (codes "a") 5 ∷ calls_set_role (codes "b") (codes "user") 6 ∷ []))
unfolding unique_users at_least rank effective index_of str_beq
run-IsAdministered_example =
    run-IsAdministered plugin hooks db
      (calls_disable (codes "a") 5 ∷ calls_set_role (codes "b") (codes "user") 6 ∷ []) (refl, refl)
