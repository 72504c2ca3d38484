-- ===== src/Authz.antt =====
-- Authorization: backend/authz.go, and the access modes of agents from backend/agent_access.go.
-- A permission or action is its text; `nil` for serverExists is `none`; the Go errors that the
-- handlers map to status codes are the constructors of `AuthError`, no error is `none`.
pub mod Granted
pub mod Actions
pub mod Examples
use linuxgsm_dashboard.Base.{
  ℕ, Text, codes, List, [], ◌∷◌, Bool, true, false, not, ◌&&◌, ◌||◌, Option, none, some,
  if◌then◌else◌, eqt, text_mem,
}
use linuxgsm_dashboard.User.{User, is_admin}
use linuxgsm_dashboard.Ids.{is_valid_server_id, split_server_id}

abbrev pub perm_start : Text
perm_start = codes "start"

abbrev pub perm_stop : Text
perm_stop = codes "stop"

abbrev pub perm_restart : Text
perm_restart = codes "restart"

abbrev pub perm_console : Text
perm_console = codes "console"

abbrev pub perm_config : Text
perm_config = codes "config"

abbrev pub perm_files : Text
perm_files = codes "files"

abbrev pub perm_backup : Text
perm_backup = codes "backup"

abbrev pub perm_schedule : Text
perm_schedule = codes "schedule"

abbrev pub perm_alerts : Text
perm_alerts = codes "alerts"

abbrev pub perm_view : Text
perm_view = codes "view"

abbrev pub perm_admin : Text
perm_admin = codes "admin"

abbrev pub assignable_permissions : List Text
assignable_permissions =
    perm_start ∷ perm_stop ∷ perm_restart ∷ perm_console ∷ perm_config ∷ perm_files ∷ perm_backup
    ∷ perm_schedule ∷ perm_alerts ∷ []

unfoldable pub is_assignable_permission : Text → Bool
is_assignable_permission p = text_mem p assignable_permissions

pub data AuthError : Type 0 where
  unauthenticated forbidden server_not_found : AuthError

-- The node test of CanAccessServer, made when the ID has a node part.
unfoldable pub node_access : User → Text → Bool
node_access u [] = false
node_access u (c ∷ node) = text_mem (c ∷ node) u.nodes

unfoldable pub can_access_server : User → Text → Bool
can_access_server u id =
    if is_admin u
    then true
    else if text_mem id u.servers
    then true
    else node_access u (split_server_id id).0

unfoldable pub has_permission : User → Text → Bool
has_permission u perm =
    if is_admin u
    then true
    else if eqt perm perm_admin
    then false
    else if eqt perm perm_view
    then true
    else text_mem perm u.permissions

-- `serverExists != nil && !serverExists(serverID)`
abbrev pub is_missing : Option (Text → Bool) → Text → Bool
is_missing none id = false
is_missing (some there) id = not (there id)

unfoldable pub authorize_user : User → Text → Text → Option (Text → Bool) → Option AuthError
authorize_user u id perm server_exists =
    if eqt u.username []
    then some unauthenticated
    else if not (is_valid_server_id id)
    then some server_not_found
    else if not (can_access_server u id)
    then some forbidden
    else if is_missing server_exists id
    then some server_not_found
    else if eqt perm [] || not (has_permission u perm)
    then some forbidden
    else none

unfoldable pub authorize_server_action :
    Option User → Text → Text → Option (Text → Bool) → Option AuthError
authorize_server_action none id perm server_exists = some unauthenticated
authorize_server_action (some u) id perm server_exists = authorize_user u id perm server_exists

abbrev pub admin_actions : List Text
admin_actions =
    codes "update"
    ∷ codes "validate"
    ∷ codes "update-lgsm"
    ∷ codes "force-update"
    ∷ codes "test-alert"
    ∷ codes "map-wipe"
    ∷ codes "full-wipe"
    ∷ codes "change-password"
    ∷ codes "check-update"
    ∷ codes "mods-install"
    ∷ codes "mods-update"
    ∷ codes "mods-remove"
    ∷ codes "fastdl"
    ∷ codes "map-compressor"
    ∷ codes "skeleton"
    ∷ codes "install-default-resources"
    ∷ codes "postdetails"
    ∷ codes "workshop-update"
    ∷ []

unfoldable pub action_permission : Text → Option Text
action_permission action =
    if eqt action (codes "start")
    then some perm_start
    else if eqt action (codes "stop")
    then some perm_stop
    else if eqt action (codes "restart")
    then some perm_restart
    else if eqt action (codes "backup")
    then some perm_backup
    else if eqt action (codes "details")
    then some perm_config
    else if text_mem action admin_actions
    then some perm_admin
    else none

abbrev pub bulk_actions : List Text
bulk_actions = codes "start" ∷ codes "stop" ∷ codes "restart" ∷ codes "update" ∷ codes "backup" ∷ []

unfoldable pub bulk_action_permission : Text → Option Text
bulk_action_permission action =
    if text_mem action bulk_actions then action_permission action else none

-- Access classes and modes of an agent.
abbrev pub access_read : Text
access_read = codes "read"

abbrev pub access_control : Text
access_control = codes "control"

abbrev pub access_write : Text
access_write = codes "write"

unfoldable pub action_access : Text → Text
action_access action =
    if text_mem action (codes "start" ∷ codes "stop" ∷ codes "restart" ∷ [])
    then access_control
    else if eqt action (codes "details")
    then access_read
    else access_write

-- AgentModeReadOnly and AgentModeReadWrite of backend/agent_nodes.go.
abbrev pub mode_read_only : Text
mode_read_only = codes "read-only"

abbrev pub mode_read_write : Text
mode_read_write = codes "read-write"

unfoldable pub agent_mode_allows : Text → Text → Bool
agent_mode_allows mode access =
    if eqt access access_read || eqt access access_control
    then eqt mode mode_read_only || eqt mode mode_read_write
    else eqt mode mode_read_write
