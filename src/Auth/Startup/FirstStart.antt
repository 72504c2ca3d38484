-- ===== src/Auth/Startup/FirstStart.antt =====
-- About NewAuthManager of backend/auth.go: the users that a start leaves.
use linuxgsm_dashboard.Base.{
  ◌≡◌, ◌⊎◌, inl, inr, Text, List, [], ◌∷◌, Bool, true, false, Option, none, arith, eqt_refl,
  Option-cases,
}
use linuxgsm_dashboard.User.{User, role_admin}
use linuxgsm_dashboard.Passwords.{Crypto}
use linuxgsm_dashboard.Auth.{Auth, Config, saved, admin_count}
use linuxgsm_dashboard.Auth.Accounts.Admins.{UsersOk, DiskOk, IsSound, saved-IsSound}
use linuxgsm_dashboard.Auth.Startup.{
  LegacyConfig, ConfigFile, missing, not_readable, not_json, parsed, first_admin, draw_hash,
  create_config, legacy_hash, migrate, load_users, load_or_create_config, empty_auth,
  new_auth_manager,
}

one_admin : (n hash : Text) → UsersOk (first_admin n hash ∷ [])
unfolding admin_count
one_admin n hash = record {
  has_admin = ground (arith, eqt_refl role_admin);
  unique = λ m. ground arith;
}

-- A file in the new format has an administrator and distinct names; an old one, or none, has no users.
abbrev pub FileOk : ConfigFile → Type 0
FileOk (parsed raw) = (raw.users ≡ []) ⊎ UsersOk raw.users
FileOk _ = Unit

loaded :
    (c : Crypto) (s : Auth) (raw : LegacyConfig) (us : List User) (password salt : Option Text)
    (disk_ok : Bool)
    → DiskOk s.disk
    → (us ≡ []) ⊎ UsersOk us
    → (load_users c s raw us password salt disk_ok).1 ≡ none
    → IsSound (load_users c s raw us password salt disk_ok).0
unfolding load_users migrate
loaded c s raw [] password salt true d f done =
    elim (Option-cases (legacy_hash c raw.password_hash password salt)) [
      | inl e ↦ ground arith
      | inr (hash, e) ↦ rw (e, migrate) (saved-IsSound _ (one_admin _ hash))
    ]
loaded c s raw [] password salt false d f done =
    elim (Option-cases (legacy_hash c raw.password_hash password salt)) [
      | inl e ↦ ground arith
      | inr (hash, e) ↦ ground arith
    ]
loaded c s raw (u ∷ us) password salt disk_ok d (inl e) done = cc
loaded c s raw (u ∷ us) password salt disk_ok d (inr k) done = record { memory = k; file = d }

created :
    (s : Auth) (hash : Text) (disk_ok : Bool)
    → (create_config s hash disk_ok).1 ≡ none
    → IsSound (create_config s hash disk_ok).0
unfolding create_config saved
created s hash true done = record { memory = one_admin _ hash; file = one_admin _ hash }
created s hash false done = cc

-- A start that succeeds leaves an administrator and distinct names, in memory and in the file: on the
-- first start, when an old single-user configuration is migrated, and when a configuration that has
-- them is loaded.
pub new_auth_manager-IsSound :
    (c : Crypto) (disk : Option Config) (file : ConfigFile) (password salt : Option Text)
    (disk_ok : Bool)
    → DiskOk disk
    → FileOk file
    → (new_auth_manager c disk file password salt disk_ok).1 ≡ none
    → IsSound (new_auth_manager c disk file password salt disk_ok).0
unfolding new_auth_manager load_or_create_config
new_auth_manager-IsSound c disk missing password salt disk_ok d f done =
    elim (Option-cases (draw_hash c password salt)) [
      | inl e ↦ ground arith
      | inr (hash, e) ↦
          rw (e, load_or_create_config) (created (empty_auth disk) hash disk_ok (ground arith))
    ]
new_auth_manager-IsSound c disk not_readable password salt disk_ok d f done = cc
new_auth_manager-IsSound c disk not_json password salt disk_ok d f done = cc
new_auth_manager-IsSound c disk (parsed raw) password salt disk_ok d f done =
    loaded c (empty_auth disk) raw raw.users password salt disk_ok d f done
