-- ===== src/Auth/Startup.antt =====
-- Starting the dashboard: loadOrCreateConfig and NewAuthManager of backend/auth.go. Reading and
-- decoding config.json is outside the model: `ConfigFile` is its outcome. Passwords printed on the
-- first start are random arguments.
pub mod FirstStart
use linuxgsm_dashboard.Base.{
  ℕ, Text, codes, List, [], ◌∷◌, Bool, true, false, Option, none, some, if◌then◌else◌, eqt, no_keys,
}
use linuxgsm_dashboard.User.{User, role_admin}
use linuxgsm_dashboard.Authz.{assignable_permissions}
use linuxgsm_dashboard.Passwords.{Crypto, hash_password}
use linuxgsm_dashboard.Auth.{
  Auth, Config, Failure, saved, random_failed, save_failed, unreadable, malformed,
}
use linuxgsm_dashboard.Auth.Accounts.{new_user}

pub record LegacyConfig : Type 0 where
  pub username : Text
  pub password_hash : Text
  pub port : ℕ
  pub users : List User

pub data ConfigFile : Type 0 where
  missing not_readable not_json : ConfigFile
  parsed : LegacyConfig → ConfigFile

-- The user of a first start and of a migrated configuration.
abbrev pub first_admin : Text → Text → User
first_admin username hash = new_user username hash role_admin [] assignable_permissions

-- A random password and its hash.
unfoldable pub draw_hash : Crypto → Option Text → Option Text → Option Text
draw_hash c none salt = none
draw_hash c (some raw) salt = hash_password c raw salt

abbrev pub written : Auth → Bool → Auth × Option Failure
written s disk_ok = if disk_ok then (saved s, none) else (s, some save_failed)

unfoldable pub create_config : Auth → Text → Bool → Auth × Option Failure
create_config s hash disk_ok =
    let s' = record s { users = first_admin (codes "admin") hash ∷ []; port = 8080 } in
    if disk_ok then (record (saved s') { fresh_install = true }, none) else (s', some save_failed)

unfoldable pub legacy_hash : Crypto → Text → Option Text → Option Text → Option Text
legacy_hash c stored raw salt = if eqt stored [] then draw_hash c raw salt else some stored

unfoldable pub migrate :
    Crypto → Auth → LegacyConfig → Option Text → Option Text → Bool → Auth × Option Failure
migrate c s raw password salt disk_ok = elim (legacy_hash c raw.password_hash password salt) [
  | none ↦ (s, some random_failed)
  | some hash ↦
      written
        (record s {
          users =
              first_admin (if eqt raw.username [] then codes "admin" else raw.username) hash ∷ [];
          port = raw.port;
        })
        disk_ok
]

unfoldable pub load_users :
    Crypto
    → Auth
    → LegacyConfig
    → List User
    → Option Text
    → Option Text
    → Bool
    → Auth × Option Failure
load_users c s raw [] password salt disk_ok = migrate c s raw password salt disk_ok
load_users c s raw (u ∷ us) password salt disk_ok =
    (record s { users = u ∷ us; port = raw.port }, none)

unfoldable pub load_or_create_config :
    Crypto → Auth → ConfigFile → Option Text → Option Text → Bool → Auth × Option Failure
load_or_create_config c s missing password salt disk_ok = elim (draw_hash c password salt) [
  | none ↦ (s, some random_failed)
  | some hash ↦ create_config s hash disk_ok
]
load_or_create_config c s not_readable password salt disk_ok = (s, some unreadable)
load_or_create_config c s not_json password salt disk_ok = (s, some malformed)
load_or_create_config c s (parsed raw) password salt disk_ok =
    load_users c s raw raw.users password salt disk_ok

-- The manager before its configuration is loaded; `disk` is what an earlier run wrote, if any.
abbrev pub empty_auth : Option Config → Auth
empty_auth disk = record {
  fresh_install = false;
  users = [];
  port = 0;
  disk = disk;
  sessions = no_keys;
  challenges = no_keys;
  setups = no_keys;
}

unfoldable pub new_auth_manager :
    Crypto → Option Config → ConfigFile → Option Text → Option Text → Bool → Auth × Option Failure
new_auth_manager c disk file password salt disk_ok =
    load_or_create_config c (empty_auth disk) file password salt disk_ok
