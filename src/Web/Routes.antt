-- ===== src/Web/Routes.antt =====
-- The routes of one server in main.go: the table serverRoutes, serverRoutePermission, and what
-- handleServer checks before it calls the handler of a route.
use linuxgsm_dashboard.Base.{
  ℕ, ◌==◌, Text, codes, List, [], ◌∷◌, ◌++◌, Bool, true, false, not, ◌&&◌, ◌||◌, Option, none, some,
  Result, ok, err, if◌then◌else◌, eqt, has_prefix, text_mem, split_on, any_of,
}
use linuxgsm_dashboard.Base.Tables.{Table, lookup}
use linuxgsm_dashboard.Ids.{split_server_id}
use linuxgsm_dashboard.Authz.{
  AuthError, unauthenticated, forbidden, server_not_found, authorize_server_action,
  agent_mode_allows, access_read, access_write, perm_console, perm_config, perm_files, perm_backup,
  perm_schedule, perm_alerts, perm_view, perm_admin,
}
use linuxgsm_dashboard.Web.{App, refused, UserHandler}

abbrev pub perm_by_action : Text
perm_by_action = codes "by-action"

-- backend.AccessByAction
abbrev pub access_by_action : Text
access_by_action = codes "by-action"

pub record RoutePolicy : Type 0 where
  pub perm : Text
  pub access : Text

abbrev reads : Text → RoutePolicy
reads perm = record { perm = perm; access = access_read }

abbrev writes : Text → RoutePolicy
writes perm = record { perm = perm; access = access_write }

unfoldable pub server_routes : Table RoutePolicy
server_routes =
    (codes "delete POST", writes perm_admin)
    ∷ (codes "portcheck GET", reads perm_view)
    ∷ (codes "action POST", record { perm = perm_by_action; access = access_by_action })
    ∷ (codes "console GET", reads perm_console)
    ∷ (codes "console/send POST", writes perm_console)
    ∷ (codes "rcon POST", writes perm_console)
    ∷ (codes "configs GET", reads perm_config)
    ∷ (codes "configs/file GET", reads perm_config)
    ∷ (codes "configs/file POST", writes perm_config)
    ∷ (codes "tag POST", writes perm_admin)
    ∷ (codes "cron GET", reads perm_view)
    ∷ (codes "cron POST", writes perm_schedule)
    ∷ (codes "cron/install POST", writes perm_admin)
    ∷ (codes "backups GET", reads perm_backup)
    ∷ (codes "backups/delete POST", writes perm_backup)
    ∷ (codes "backups/upload POST", writes perm_backup)
    ∷ (codes "backups/download GET", reads perm_backup)
    ∷ (codes "backups/restore POST", writes perm_backup)
    ∷ (codes "backups/settings GET", reads perm_backup)
    ∷ (codes "backups/settings POST", writes perm_backup)
    ∷ (codes "alerts GET", reads perm_alerts)
    ∷ (codes "alerts POST", writes perm_alerts)
    ∷ (codes "systemd/install POST", writes perm_admin)
    ∷ (codes "files GET", reads perm_files)
    ∷ (codes "files POST", writes perm_files)
    ∷ (codes "files/download GET", reads perm_files)
    ∷ (codes "files/content GET", reads perm_files)
    ∷ (codes "files/upload POST", writes perm_files)
    ∷ (codes "mods GET", reads perm_view)
    ∷ (codes "mods/available GET", reads perm_admin)
    ∷ (codes "stopmode GET", reads perm_view)
    ∷ (codes "stopmode POST", writes perm_admin)
    ∷ (codes "clone POST", writes perm_admin)
    ∷ (codes "cloudbackup/settings GET", reads perm_backup)
    ∷ (codes "cloudbackup/settings POST", writes perm_admin)
    ∷ (codes "cloudbackup/sync POST", writes perm_backup)
    ∷ (codes "fastdl GET", reads perm_view)
    ∷ (codes "fastdl POST", writes perm_admin)
    ∷ []

abbrev pub starts_route : Text → Text × RoutePolicy → Bool
starts_route route row = has_prefix row.0 (route ++ codes " ")

-- The policy, or the status for a route that is unknown or has other methods only.
unfoldable pub server_route_permission : Text → Text → Result ℕ RoutePolicy
server_route_permission route method =
    elim (lookup (route ++ (codes " " ++ method)) server_routes) [
      | some p ↦ ok p
      | none ↦ if any_of (starts_route route) server_routes then err 405 else err 404
    ]

unfoldable pub trim_slash_left : Text → Text
trim_slash_left [] = []
trim_slash_left (c ∷ s) = if c == b'/' then trim_slash_left s else c ∷ s

unfoldable pub trim_slash_right : Text → Text
trim_slash_right [] = []
trim_slash_right (c ∷ s) = elim (trim_slash_right s) [
  | [] ↦ if c == b'/' then [] else c ∷ []
  | d ∷ t ↦ c ∷ d ∷ t
]

-- The server ID and the route of the parts of a path; the first two parts are not looked at.
unfoldable pub path_route : List Text → Option (Text × Text)
path_route (api ∷ servers ∷ id ∷ route ∷ []) = some (id, route)
path_route (api ∷ servers ∷ id ∷ route ∷ sub ∷ []) = some (id, route ++ (b'/' ∷ sub))
path_route _ = none

-- writeAuthzError
unfoldable pub authz_status : AuthError → ℕ
authz_status unauthenticated = 401
authz_status server_not_found = 404
authz_status forbidden = 403

abbrev pub no_servers : List Text → Bool
no_servers [] = true
no_servers (s ∷ ss) = false

unfoldable pub agent_allows_server : App → Text → Bool
agent_allows_server a id = no_servers a.servers || text_mem id a.servers

unfoldable pub agent_allows : App → Text → Bool
agent_allows a class = agent_mode_allows a.mode class

-- The permission that is asked for before the action is known.
unfoldable pub auth_perm : RoutePolicy → Text
auth_perm p = if eqt p.perm perm_by_action then perm_view else p.perm

-- The servers that exist here and on the nodes, and the handlers of the routes of a server here and
-- on a node.
pub record Servers : Type 0 where
  pub here : Text → Bool
  pub on_nodes : Text → Bool
  pub local : Text → Text → UserHandler
  pub remote : Text → Text → UserHandler

-- app.serverExists
unfoldable pub server_exists : Servers → Text → Bool
server_exists env id = if eqt (split_server_id id).0 [] then env.here id else env.on_nodes id

-- The route of a server on a node.
unfoldable pub remote_route : Servers → Text → Text → RoutePolicy → UserHandler
remote_route env id route p u sid a r now =
    if a.agent_mode
    then (a, refused 404)
    else elim (authorize_server_action (some u) id (auth_perm p) (some (server_exists env))) [
      | some e ↦ (a, refused (authz_status e))
      | none ↦ env.remote id route u sid a r now
    ]

unfoldable pub local_route : Servers → Text → Text → RoutePolicy → UserHandler
local_route env id route p u sid a r now =
    elim (authorize_server_action (some u) id (auth_perm p) (some env.here)) [
      | some e ↦ (a, refused (authz_status e))
      | none ↦
          if a.agent_mode && (not (eqt p.access access_by_action) && not (agent_allows a p.access))
          then (a, refused 403)
          else env.local id route u sid a r now
    ]

unfoldable pub server_route : Servers → Text → Text → UserHandler
server_route env id route u sid a r now = elim (server_route_permission route r.method) [
  | err status ↦ (a, refused status)
  | ok p ↦
      if a.agent_mode && not (agent_allows_server a id)
      then (a, refused 404)
      else if not (eqt (split_server_id id).0 [])
      then remote_route env id route p u sid a r now
      else local_route env id route p u sid a r now
]

unfoldable pub handle_server : Servers → UserHandler
handle_server env u sid a r now =
    elim (path_route (split_on b'/' (trim_slash_right (trim_slash_left r.path)))) [
      | none ↦ (a, refused 404)
      | some (id, route) ↦ server_route env id route u sid a r now
    ]
