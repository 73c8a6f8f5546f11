-- ===== src/Sessions/Examples.antt =====
-- One user signs in with a token in hand.
use auth_all.Prelude.{◌≡◌, refl, [], ◌∷◌, Option, none, false, Str, codes, str_beq, arith}
use auth_all.Errors.{Error}
use auth_all.Accounts.{User, Session, Db}
use auth_all.Sessions.{Settings, lookup_session, resolve_session, create_session}
use auth_all.Sessions.Lifetime.{run-lifetime, run, request}
use auth_all.Sessions.Fixation.{create_session-revokes, unique_hashes}

abbrev same : Str → Str
same s = s

abbrev settings : Settings
settings = record { ttl = 100; idle_timeout = 50; touch_interval = 5 }

abbrev user : User
user = record {
  id = codes "u";
  role = [];
  disabled_at = none;
  must_change_password = false;
  updated_at = 0;
}

abbrev old : Session
old = record {
  id = codes "1";
  user_id = codes "u";
  token_hash = codes "t0";
  created_at = 10;
  expires_at = 110;
  last_seen_at = 10;
}

abbrev db : Db
db = record { users = user ∷ []; sessions = old ∷ [] }

abbrev accepts_all : Session → User → Option Error
accepts_all s u = none

run-lifetime_example :
    (lookup_session settings
      (run settings db (request (codes "t0") 50 ∷ request (codes "t0") 90 ∷ []))
      (codes "t0")
      110).0
    ≡ none
unfolding str_beq
run-lifetime_example =
    run-lifetime settings (codes "t0") 10 db
      (request (codes "t0") 50 ∷ request (codes "t0") 90 ∷ []) 110 refl (ground arith)

create_session-revokes_example :
    (resolve_session same settings
      (create_session same settings accepts_all db user (codes "t0") (codes "t1") (codes "2") 20).1
      (codes "t0")
      21).0
    ≡ none
unfolding unique_hashes str_beq
create_session-revokes_example =
    create_session-revokes same settings accepts_all db user (codes "t0") (codes "t1") (codes "2")
      20 21 refl refl refl
