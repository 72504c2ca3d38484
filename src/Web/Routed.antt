-- ===== src/Web/Routed.antt =====
-- About handleServer of main.go: which requests on a server reach the handler of a route.
use linuxgsm_dashboard.Base.{
  ℕ, ◌≡◌, ◌⊎◌, inl, inr, sym, subst, ◌∙◌, Text, [], true, false, not, ◌&&◌, Option, some, ok, arith,
  if◌then◌else◌, eqt, eqt_iff, split_on, Bool-cases, Option-cases, Result-cases,
}
use linuxgsm_dashboard.User.{User}
use linuxgsm_dashboard.Ids.{split_server_id}
use linuxgsm_dashboard.Authz.{authorize_server_action}
use linuxgsm_dashboard.Authz.Granted.{Granted, authorize_iff-Granted}
use linuxgsm_dashboard.Web.{App, Request, Answer, refused, UserHandler}
use linuxgsm_dashboard.Web.Routes.{
  RoutePolicy, Servers, access_by_action, server_route_permission, path_route, trim_slash_left,
  trim_slash_right, auth_perm, authz_status, agent_allows_server, agent_allows, server_exists,
  remote_route, local_route, server_route, handle_server,
}

-- The node part of the ID says where the handler runs.
abbrev pub route_handler : Servers → Text → Text → UserHandler
route_handler env id = if eqt (split_server_id id).0 [] then env.local id else env.remote id

-- What the agent's own policy asks for.
pub record AgentLets (a : App) (id : Text) (p : RoutePolicy) : Type 0 where
  pub server : agent_allows_server a id ≡ true
  pub own : (split_server_id id).0 ≡ []
  pub mode : (p.access ≡ access_by_action) ⊎ (agent_allows a p.access ≡ true)

pub record IsRouted (env : Servers) (a : App) (r : Request) (u : User) (id route : Text)
    (p : RoutePolicy) : Type 0 where
  pub policy : server_route_permission route r.method ≡ ok p
  pub granted : Granted u id (auth_perm p) (some (server_exists env))
  pub agent : a.agent_mode ≡ true → AgentLets a id p

-- A refusal that leaves the state, or the call of the handler of a route on a server, for a request
-- that may pass.
abbrev pub GuardedAt :
    Servers → User → Text → App → Request → ℕ → Text → Text → App × Answer → Type 0
GuardedAt env u sid a r now id route result =
    ((status : ℕ) × (result ≡ (a, refused status)))
    ⊎ ((p : RoutePolicy) × (result ≡ route_handler env id route u sid a r now)
        × IsRouted env a r u id route p)

-- The server ID and the route that the path names.
abbrev pub parts : Request → Option (Text × Text)
parts r = path_route (split_on b'/' (trim_slash_right (trim_slash_left r.path)))

-- The same for the whole request, whose path names the server and the route.
abbrev pub Guarded : Servers → User → Text → App → Request → ℕ → App × Answer → Type 0
Guarded env u sid a r now result =
    ((status : ℕ) × (result ≡ (a, refused status)))
    ⊎ ((id : Text) × (route : Text) × (p : RoutePolicy) × (parts r ≡ some (id, route))
        × (result ≡ route_handler env id route u sid a r now)
        × IsRouted env a r u id route p)

Granted-here :
    (env : Servers) (u : User) (id perm : Text)
    → (split_server_id id).0 ≡ []
    → Granted u id perm (some env.here)
    → Granted u id perm (some (server_exists env))
unfolding server_exists
Granted-here env u id perm own g = record {
  named = g.named;
  valid = g.valid;
  reaches = g.reaches;
  existing = ground (arith, (eqt_iff (split_server_id id).0 []).1 own, g.existing);
  asks = g.asks;
  holds = g.holds;
}

module _ (env : Servers) (u : User) (sid : Text) (a : App) (r : Request) (now : ℕ) where
  remote-Guarded :
      (id route : Text) (p : RoutePolicy)
      → server_route_permission route r.method ≡ ok p
      → eqt (split_server_id id).0 [] ≡ false
      → GuardedAt env u sid a r now id route (remote_route env id route p u sid a r now)
  unfolding remote_route
  remote-Guarded id route p e other = elim (Bool-cases a.agent_mode) [
    | inl agent ↦ inl (404, ground (arith, agent))
    | inr free ↦
        elim (Option-cases
          (authorize_server_action (some u) id (auth_perm p) (some (server_exists env)))) [
            | inr (f, refusal) ↦ inl (authz_status f, ground (arith, free, refusal))
            | inl passes ↦ inr (
              p,
              ground (arith, free, passes, other),
              record {
                policy = e;
                granted =
                    (authorize_iff-Granted u id (auth_perm p) (some (server_exists env))).0 passes;
                agent = λ agent. cc;
              },
            )
          ]
  ]

  local-Guarded :
      (id route : Text) (p : RoutePolicy)
      → server_route_permission route r.method ≡ ok p
      → eqt (split_server_id id).0 [] ≡ true
      → (a.agent_mode ≡ true → agent_allows_server a id ≡ true)
      → GuardedAt env u sid a r now id route (local_route env id route p u sid a r now)
  unfolding local_route
  local-Guarded id route p e own allowed =
      elim (Option-cases (authorize_server_action (some u) id (auth_perm p) (some env.here))) [
        | inr (f, refusal) ↦ inl (authz_status f, ground (arith, refusal))
        | inl passes ↦
            let here : (split_server_id id).0 ≡ [] = (eqt_iff (split_server_id id).0 []).0 own in
            let g : Granted u id (auth_perm p) (some (server_exists env)) =
              Granted-here env u id (auth_perm p) here
                ((authorize_iff-Granted u id (auth_perm p) (some env.here)).0 passes) in
            elim (Bool-cases (
              a.agent_mode
              && (not (eqt p.access access_by_action) && not (agent_allows a p.access)))) [
                | inl held ↦ inl (403, ground (arith, passes, held))
                | inr fine ↦ inr (
                  p,
                  ground (arith, passes, fine, own),
                  record {
                    policy = e;
                    granted = g;
                    agent = λ agent. record {
                      server = allowed agent;
                      own = here;
                      mode = elim (Bool-cases (eqt p.access access_by_action)) [
                        | inl by ↦ inl ((eqt_iff p.access access_by_action).0 by)
                        | inr other ↦ inr (ground arith)
                      ];
                    };
                  },
                )
              ]
      ]

  server_route-Guarded :
      (id route : Text)
      → GuardedAt env u sid a r now id route (server_route env id route u sid a r now)
  unfolding server_route
  server_route-Guarded id route = elim (Result-cases (server_route_permission route r.method)) [
    | inr (status, e) ↦ inl (status, ground (arith, e))
    | inl (p, e) ↦ elim (Bool-cases (a.agent_mode && not (agent_allows_server a id))) [
      | inl hidden ↦ inl (404, ground (arith, e, hidden))
      | inr shown ↦ elim (Bool-cases (eqt (split_server_id id).0 [])) [
        | inl own ↦
            let q : server_route env id route u sid a r now
                ≡ local_route env id route p u sid a r now =
              ground (arith, e, shown, own) in
            subst (GuardedAt env u sid a r now id route) (sym q)
              (local-Guarded id route p e own (λ agent. ground (arith, agent, shown)))
        | inr other ↦
            let q : server_route env id route u sid a r now
                ≡ remote_route env id route p u sid a r now =
              ground (arith, e, shown, other) in
            subst (GuardedAt env u sid a r now id route) (sym q) (remote-Guarded id route p e other)
      ]
    ]
  ]

  Granted-own :
      (id perm : Text)
      → (split_server_id id).0 ≡ []
      → Granted u id perm (some (server_exists env))
      → Granted u id perm (some env.here)
  unfolding server_exists
  Granted-own id perm own g = record {
    named = g.named;
    valid = g.valid;
    reaches = g.reaches;
    existing = ground (arith, (eqt_iff (split_server_id id).0 []).1 own, g.existing);
    asks = g.asks;
    holds = g.holds;
  }

  route_reached :
      (id route : Text) (p : RoutePolicy)
      → IsRouted env a r u id route p
      → server_route env id route u sid a r now ≡ route_handler env id route u sid a r now
  unfolding server_route local_route remote_route
  route_reached id route p t = elim (Bool-cases (eqt (split_server_id id).0 [])) [
    | inl own ↦
        let here : (split_server_id id).0 ≡ [] = (eqt_iff (split_server_id id).0 []).0 own in
        let passes =
          (authorize_iff-Granted u id (auth_perm p) (some env.here)).1
            (Granted-own id (auth_perm p) here t.granted) in
        elim (Bool-cases a.agent_mode) [
          | inr free ↦ ground (arith, t.policy, own, passes, free)
          | inl agent ↦
              let lets = t.agent agent in
              elim lets.mode [
                | inl by ↦ ground (
                  arith,
                  t.policy,
                  own,
                  passes,
                  agent,
                  lets.server,
                  (eqt_iff p.access access_by_action).1 by,
                )
                | inr allows ↦ ground (arith, t.policy, own, passes, agent, lets.server, allows)
              ]
        ]
    | inr other ↦
        let passes =
          (authorize_iff-Granted u id (auth_perm p) (some (server_exists env))).1 t.granted in
        elim (Bool-cases a.agent_mode) [
          | inr free ↦ ground (arith, t.policy, other, passes, free)
          | inl agent ↦
              ground (arith, (eqt_iff (split_server_id id).0 []).1 (t.agent agent).own, other)
        ]
  ]

widen :
    (env : Servers) (u : User) (sid : Text) (a : App) (r : Request) (now : ℕ) (id route : Text)
    (result : App × Answer)
    → parts r ≡ some (id, route)
    → GuardedAt env u sid a r now id route result
    → Guarded env u sid a r now result
widen env u sid a r now id route result e (inl refusal) = inl refusal
widen env u sid a r now id route result e (inr (p, same, t)) = inr (id, route, p, e, same, t)

handle-Guarded :
    (env : Servers) (u : User) (sid : Text) (a : App) (r : Request) (now : ℕ)
    → Guarded env u sid a r now (handle_server env u sid a r now)
unfolding handle_server
handle-Guarded env u sid a r now = elim (Option-cases (parts r)) [
  | inl e ↦ inl (404, ground (arith, e))
  | inr ((id, route), e) ↦
      let q : handle_server env u sid a r now ≡ server_route env id route u sid a r now =
        ground (arith, e) in
      subst (Guarded env u sid a r now) (sym q) (
        widen env u sid a r now id route (server_route env id route u sid a r now) e
          (server_route-Guarded env u sid a r now id route))
]

-- A request on a server is refused with a status and leaves the state, or it reaches the handler of the
-- route that its path names, which serves its method, for a user to whom the permission of that route is granted on a server
-- that exists; on an agent the agent's own policy must let it pass too. And a request whose path names
-- such a server and route, for such a user, does reach the handler: on the node that the server ID
-- names, or here.
pub server_gate :
    (env : Servers) (u : User) (sid : Text) (a : App) (r : Request) (now : ℕ)
    → Guarded env u sid a r now (handle_server env u sid a r now)
      × ((id route : Text) (p : RoutePolicy)
          → parts r ≡ some (id, route)
          → IsRouted env a r u id route p
          → handle_server env u sid a r now ≡ route_handler env id route u sid a r now)
unfolding handle_server
server_gate env u sid a r now = (
  handle-Guarded env u sid a r now,
  λ id route p e t.
      let q : handle_server env u sid a r now ≡ server_route env id route u sid a r now =
        ground (arith, e) in
      q ∙ route_reached env u sid a r now id route p t,
)
