-- ===== src/Auth/Accounts.antt =====
-- Passwords and the user accounts of AuthManager (backend/auth.go): the check of credentials with
-- the migration of old hashes, creating, changing and deleting users, server and node assignments.
-- A change is made in memory first; a failing write of the configuration undoes it where the code
-- does. Go's nil slices are empty lists.
pub mod Admins
pub mod Deleting
use linuxgsm_dashboard.Base.{
  ℕ, ◌-◌, Text, codes, List, [], ◌∷◌, ◌++◌, Bool, true, false, not, ◌&&◌, ◌||◌, Option, none, some,
  ok, err, Result, ltb, leb, ◌==◌, if◌then◌else◌, eqt, Dict, put, remove, keep_if, no_keys,
  find_index, count_if, set, remove_at, take, length, all_of, keep, is_some,
}
use linuxgsm_dashboard.User.{User, role_admin, role_user}
use linuxgsm_dashboard.Authz.{is_assignable_permission, assignable_permissions}
use linuxgsm_dashboard.Ids.{split_server_id, is_valid_node_id}
use linuxgsm_dashboard.Passwords.{
  Crypto, hash_password, verify_password, is_legacy_password_hash, min_password_length,
}
use linuxgsm_dashboard.Auth.{
  Auth, Config, Failure, LoginChallenge, saved, find_user, admin_count, is_named,
  invalidate_user_sessions, invalid_credentials, save_failed, invalid_role, invalid_permission,
  short_password, random_failed, user_exists, user_not_found, last_admin, wrong_password,
  changed_concurrently, invalid_node, unreadable, malformed,
}

-- The second lookup of verifyCredentials, for the user whose hash is still the one that was checked.
abbrev pub holds_hash : Text → Text → User → Bool
holds_hash username hash u = eqt u.username username && eqt u.password_hash hash

-- Replaces a legacy hash; a failing write puts the old one back and is no error.
unfoldable pub migrate_hash : Auth → Text → Text → Text → Bool → Auth
migrate_hash s username stored new_hash disk_ok =
    elim (find_index (holds_hash username stored) s.users) [
      | none ↦ s
      | some (i, u) ↦
          let s' = record s { users = set s.users i (record u { password_hash = new_hash }) } in
          if disk_ok
          then saved s'
          else record s' { users = set s'.users i (record u { password_hash = stored }) }
    ]

unfoldable pub upgrade_hash : Crypto → Auth → Text → Text → Text → Option Text → Bool → Auth
upgrade_hash c s username password stored salt disk_ok =
    if is_legacy_password_hash stored
    then elim (hash_password c password salt) [
      | none ↦ s
      | some new_hash ↦ migrate_hash s username stored new_hash disk_ok
    ]
    else s

unfoldable pub verify_credentials :
    Crypto → Auth → Text → Text → Option Text → Bool → Auth × Option Failure
verify_credentials c s username password salt disk_ok = elim (find_user username s.users) [
  | none ↦ (s, some invalid_credentials)
  | some (i, u) ↦
      if not (verify_password c password u.password_hash)
      then (s, some invalid_credentials)
      else (upgrade_hash c s username password u.password_hash salt disk_ok, none)
]

unfoldable pub validate_role_and_permissions : Text → List Text → Option Failure
validate_role_and_permissions role permissions =
    if not (eqt role role_admin) && not (eqt role role_user)
    then some invalid_role
    else if not (all_of is_assignable_permission permissions)
    then some invalid_permission
    else none

abbrev pub new_user : Text → Text → Text → List Text → List Text → User
new_user username hash role servers permissions = record {
  username = username;
  password_hash = hash;
  role = role;
  servers = servers;
  nodes = [];
  permissions = permissions;
  totp_enabled = false;
  totp_secret = [];
  totp_last_step = 0;
  recovery_codes = [];
  notes_seen = [];
}

-- The part of CreateUser under the lock.
unfoldable pub add_user : Auth → User → Bool → Auth × Option Failure
add_user s u disk_ok =
    if is_some (find_user u.username s.users)
    then (s, some user_exists)
    else let s' = record s { users = s.users ++ (u ∷ []) } in
      if disk_ok
      then (saved s', none)
      else (record s' { users = take (length s'.users - 1) s'.users }, some save_failed)

unfoldable pub create_user :
    Crypto
    → Auth
    → Text
    → Text
    → Text
    → List Text
    → List Text
    → Option Text
    → Bool
    → Auth × Option Failure
create_user c s username password role servers permissions salt disk_ok =
    if ltb (length password) min_password_length
    then (s, some short_password)
    else elim (validate_role_and_permissions role permissions) [
      | some e ↦ (s, some e)
      | none ↦ elim (hash_password c password salt) [
        | none ↦ (s, some random_failed)
        | some hash ↦ add_user s (new_user username hash role servers permissions) disk_ok
      ]
    ]

-- The record that UpdateUser writes; an empty new hash keeps the old one.
abbrev pub changed_user : User → Text → Text → List Text → List Text → User
changed_user u new_hash role servers permissions = record u {
  password_hash = if eqt new_hash [] then u.password_hash else new_hash;
  role = role;
  servers = servers;
  permissions = permissions;
}

-- The part of UpdateUser under the lock.
unfoldable pub change_user :
    Auth → Text → Text → Text → List Text → List Text → Bool → Auth × Option Failure
change_user s username new_hash role servers permissions disk_ok =
    elim (find_user username s.users) [
      | none ↦ (s, some user_not_found)
      | some (i, u) ↦
          if eqt u.role role_admin && (not (eqt role role_admin) && leb (admin_count s.users) 1)
          then (s, some last_admin)
          else let s' = record s {
            users = set s.users i (changed_user u new_hash role servers permissions);
          } in
            if not disk_ok
            then (record s' { users = set s'.users i u }, some save_failed)
            else if eqt new_hash []
            then (saved s', none)
            else (invalidate_user_sessions (saved s') username [], none)
    ]

-- A password is only hashed when one was given.
unfoldable pub hash_if_given : Crypto → Text → Option Text → Option Text
hash_if_given c password salt = if eqt password [] then some [] else hash_password c password salt

unfoldable pub update_user :
    Crypto
    → Auth
    → Text
    → Text
    → Text
    → List Text
    → List Text
    → Option Text
    → Bool
    → Auth × Option Failure
update_user c s username password role servers permissions salt disk_ok =
    if not (eqt password []) && ltb (length password) min_password_length
    then (s, some short_password)
    else elim (validate_role_and_permissions role permissions) [
      | some e ↦ (s, some e)
      | none ↦ elim (hash_if_given c password salt) [
        | none ↦ (s, some random_failed)
        | some new_hash ↦ change_user s username new_hash role servers permissions disk_ok
      ]
    ]

-- The loops of RemoveServerFromUsers and RemoveNodeFromUsers write a user only when a list became
-- shorter; otherwise the filtered lists are those that the user has.
unfoldable pub without_server : Text → User → User
without_server id u =
    let kept = keep (λ s. not (eqt s id)) u.servers in
    if length kept == length u.servers then u else record u { servers = kept }

unfoldable pub loses_server : Text → User → Bool
loses_server id u = not (length (keep (λ s. not (eqt s id)) u.servers) == length u.servers)

abbrev pub map_users : (User → User) → List User → List User
map_users f [] = []
map_users f (u ∷ us) = f u ∷ map_users f us

abbrev pub any_user : (User → Bool) → List User → Bool
any_user p [] = false
any_user p (u ∷ us) = p u || any_user p us

-- Saves when something changed; the change stays in memory when the write fails.
unfoldable pub save_if : Bool → Bool → Auth → Auth × Option Failure
save_if changed disk_ok s =
    if not changed then (s, none) else if disk_ok then (saved s, none) else (s, some save_failed)

unfoldable pub remove_server_from_users : Auth → Text → Bool → Auth × Option Failure
remove_server_from_users s id disk_ok =
    save_if (any_user (loses_server id) s.users) disk_ok
      (record s { users = map_users (without_server id) s.users })

unfoldable pub set_user_nodes : Auth → Text → List Text → Bool → Auth × Option Failure
set_user_nodes s username nodes disk_ok =
    if not (all_of is_valid_node_id nodes)
    then (s, some invalid_node)
    else elim (find_user username s.users) [
      | none ↦ (s, some user_not_found)
      | some (i, u) ↦
          let s' = record s { users = set s.users i (record u { nodes = nodes }) } in
          if disk_ok then (saved s', none) else (s', some save_failed)
    ]

abbrev pub off_node : Text → Text → Bool
off_node node id = not (eqt (split_server_id id).0 node)

abbrev pub node_servers : Text → User → List Text
node_servers node u = keep (off_node node) u.servers

abbrev pub node_nodes : Text → User → List Text
node_nodes node u = keep (λ n. not (eqt n node)) u.nodes

unfoldable pub loses_node : Text → User → Bool
loses_node node u =
    not (length (node_servers node u) == length u.servers)
    || not (length (node_nodes node u) == length u.nodes)

unfoldable pub without_node : Text → User → User
without_node node u =
    if loses_node node u
    then record u { servers = node_servers node u; nodes = node_nodes node u }
    else u

unfoldable pub remove_node_from_users : Auth → Text → Bool → Auth × Option Failure
remove_node_from_users s node disk_ok =
    save_if (any_user (loses_node node) s.users) disk_ok
      (record s { users = map_users (without_node node) s.users })

abbrev pub drop_challenges : Text → Auth → Auth
drop_challenges username s = record s {
  challenges = keep_if (λ token (c : LoginChallenge). not (eqt c.username username)) s.challenges;
}

unfoldable pub delete_user : Auth → Text → Bool → Auth × Option Failure
delete_user s username disk_ok = elim (find_user username s.users) [
  | none ↦ (s, some user_not_found)
  | some (i, u) ↦
      if eqt u.role role_admin && leb (admin_count s.users) 1
      then (s, some last_admin)
      else let previous = s.users in
        let s' = record s { users = remove_at s.users i } in
        if not disk_ok then (record s' { users = previous }, some save_failed) else (
          let t = invalidate_user_sessions (saved s') username [] in
              drop_challenges username (record t { setups = remove username t.setups }),
          none,
        )
]

-- ChangeUserPassword reads the stored hash, lets go of the lock to hash the new password, and writes
-- under the lock again; another request may run in between. The first part gives the stored and the
-- new hash, the second gets them.
unfoldable pub check_password_change :
    Crypto → Auth → Text → Text → Text → Option Text → Result Failure (Text × Text)
check_password_change c s username old_password new_password salt =
    if ltb (length new_password) min_password_length
    then err short_password
    else elim (find_user username s.users) [
      | none ↦ err user_not_found
      | some (i, u) ↦
          if not (verify_password c old_password u.password_hash)
          then err wrong_password
          else elim (hash_password c new_password salt) [
            | none ↦ err random_failed
            | some new_hash ↦ ok (u.password_hash, new_hash)
          ]
    ]

unfoldable pub commit_password_change :
    Auth → Text → Text → Text → Text → Bool → Auth × Option Failure
commit_password_change s username stored new_hash keep_session disk_ok =
    elim (find_user username s.users) [
      | none ↦ (s, some user_not_found)
      | some (i, u) ↦
          if not (eqt u.password_hash stored)
          then (s, some changed_concurrently)
          else let s' = record s {
            users = set s.users i (record u { password_hash = new_hash });
          } in
            if not disk_ok
            then (
              record s' { users = set s'.users i (record u { password_hash = stored }) },
              some save_failed,
            )
            else (invalidate_user_sessions (saved s') username keep_session, none)
    ]

-- With nothing in between.
unfoldable pub change_user_password :
    Crypto → Auth → Text → Text → Text → Text → Option Text → Bool → Auth × Option Failure
change_user_password c s username old_password new_password keep_session salt disk_ok =
    elim (check_password_change c s username old_password new_password salt) [
      | err e ↦ (s, some e)
      | ok (stored, new_hash) ↦
          commit_password_change s username stored new_hash keep_session disk_ok
    ]
