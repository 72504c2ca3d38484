-- ===== src/Auth/Examples.antt =====
-- Sessions, requests and a first start on a small state.
pub mod Factors
use linuxgsm_dashboard.Base.{
  ℕ, ◌+◌, ◌*◌, ◌≤◌, ◌<◌, ◌≡◌, ◌≢◌, ◌↔◌, refl, Text, codes, List, [], ◌∷◌, Bool, true, false, Option,
  none, some, ok, err, Result, arith, eqt, eqt_iff, put, no_keys, count_if, if◌then◌else◌, only,
  not,
}
use linuxgsm_dashboard.User.{User, role_admin}
use linuxgsm_dashboard.Passwords.{hash_password}
use linuxgsm_dashboard.Passwords.Examples.{toy}
use linuxgsm_dashboard.Auth.{
  create_session, Auth, Config, Failure, Session, admin_count, is_admin_role, is_named,
  is_valid_session, validate_csrf, cleanup, session_max_lifetime, create_session,
  session_idle_timeout, invalidate_user_sessions, saved,
}
use linuxgsm_dashboard.Auth.Accounts.Admins.{UsersOk, IsSound}
use linuxgsm_dashboard.Auth.Requests.{Request, deletes, creates, visits_with, run, run-IsSound}
use linuxgsm_dashboard.Auth.Sessions.{
  create_session_lem, visits, visits_end, cleanup_keeps_answers, create_session_lem,
  validate_csrf_iff, invalidate_lem,
}
use linuxgsm_dashboard.Auth.Startup.{
  missing, new_auth_manager, load_or_create_config, draw_hash, create_config, empty_auth,
}
use linuxgsm_dashboard.Auth.Startup.FirstStart.{new_auth_manager-IsSound}

abbrev pub boss : User
boss = record {
  username = codes "boss";
  password_hash = [];
  role = role_admin;
  servers = [];
  nodes = [];
  permissions = [];
  totp_enabled = true;
  totp_secret = codes "key";
  totp_last_step = 1;
  recovery_codes = [];
  notes_seen = [];
}

abbrev pub visit : Session
visit = record { username = codes "boss"; expiry = 100; created = 3; csrf_token = codes "t" }

abbrev pub small : Auth
small = record {
  fresh_install = false;
  users = boss ∷ [];
  port = 8080;
  disk = none;
  sessions = put (codes "id") visit no_keys;
  challenges =
      put (codes "tok") (record { username = codes "boss"; expiry = 500_000_000_000; attempts = 0 })
        no_keys;
  setups = no_keys;
}

small-UsersOk : UsersOk (boss ∷ [])
unfolding admin_count eqt
small-UsersOk = record { has_admin = omega arith; unique = λ n. ground arith }

small-IsSound : IsSound small
small-IsSound = record { memory = small-UsersOk; file = tt }

abbrev traffic : List Request
traffic =
    visits_with (codes "id") 50
    ∷ deletes (codes "boss") true
    ∷ creates (codes "eve") (codes "secret12") role_admin [] [] (some (codes "salt")) false
    ∷ deletes (codes "boss") false
    ∷ []

run-IsSound_example : IsSound (run toy small traffic)
run-IsSound_example = run-IsSound toy small traffic small-IsSound

abbrev first_start : Auth × Option Failure
first_start = new_auth_manager toy none missing (some (codes "random")) (some (codes "salt")) true

starts : first_start.1 ≡ none
unfolding new_auth_manager load_or_create_config draw_hash create_config hash_password
starts = refl

new_auth_manager-IsSound_example : IsSound first_start.0
new_auth_manager-IsSound_example =
    new_auth_manager-IsSound toy none missing (some (codes "random")) (some (codes "salt")) true tt
      tt starts

stored : small.sessions (codes "id") ≡ some visit
unfolding put eqt
stored = refl

visits_end_example :
    (is_valid_session
      (visits small (codes "id") (50 ∷ 90 ∷ []))
      (codes "id")
      (4 + session_max_lifetime)).1
    ≡ false
visits_end_example =
    visits_end small (codes "id") visit (50 ∷ 90 ∷ []) (4 + session_max_lifetime) stored
      (omega arith)

new_id : codes "new" ≢ []
new_id e = cc
