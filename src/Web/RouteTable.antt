-- ===== src/Web/RouteTable.antt =====
-- About the table serverRoutes of main.go: what it asks for a request that changes something.
use linuxgsm_dashboard.Base.{
  ℕ, ◌+◌, ◌⊎◌, length, length-append, take, ◌≡◌, ◌≢◌, refl, inl, inr, sym, subst, ◌∙◌, ap, Text,
  codes, List, [], ◌∷◌, ◌++◌, Bool, true, not, ◌&&◌, ◌||◌, some, ok, arith, eqt, eqt_iff, eqt_refl,
  has_suffix, text_mem, all_of, Bool-cases, Option-cases,
}
use linuxgsm_dashboard.Base.Tables.{Table, lookup}
use linuxgsm_dashboard.User.{User, role_admin}
use linuxgsm_dashboard.Authz.{access_read, perm_view}
use linuxgsm_dashboard.Authz.Granted.{In, In-text_mem, as_admin, viewing, listed}
use linuxgsm_dashboard.Web.{App, Request, refused}
use linuxgsm_dashboard.Web.Routes.{
  handle_server, RoutePolicy, Servers, perm_by_action, server_routes, server_route_permission,
  auth_perm,
}
use linuxgsm_dashboard.Web.Routed.{IsRouted, parts, route_handler, server_gate}

lookup-row :
    (row : Text × RoutePolicy → Bool) (k : Text) (m : Table RoutePolicy) (p : RoutePolicy)
    → all_of row m ≡ true
    → lookup k m ≡ some p
    → row (k, p) ≡ true
unfolding lookup
lookup-row row k [] p h e = cc
lookup-row row k ((j, q) ∷ m) p h e = elim (Bool-cases (eqt j k)) [
  | inl same ↦
      let a : j ≡ k = (eqt_iff j k).0 same in
      let b : q ≡ p = ground arith in
      let c : row (j, q) ≡ true = ground arith in
      subst (λ x. row (x, p) ≡ true) a (subst (λ x. row (j, x) ≡ true) b c)
  | inr other ↦ lookup-row row k m p (ground arith) (ground arith)
]

has_suffix-append : (s t : Text) → has_suffix (s ++ t) t ≡ true
unfolding has_suffix
has_suffix-append [] [] = refl
has_suffix-append [] (c ∷ t) = ground (arith, eqt_refl (c ∷ t))
has_suffix-append (c ∷ s) t = ground (arith, has_suffix-append s t)

-- A key that ends in GET reads; one that ends in POST asks for more than to view; only the POST of the
-- actions asks by the action.
abbrev good_row : Text × RoutePolicy → Bool
good_row row =
    (not (has_suffix row.0 (codes " GET")) || eqt row.1.access access_read)
    && (not (has_suffix row.0 (codes " POST"))
        || (not (eqt row.1.access access_read)
            && (not (eqt row.1.perm perm_view)
                && (not (eqt row.1.perm perm_by_action) || eqt row.0 (codes "action POST")))))

all_good : all_of good_row server_routes ≡ true
unfolding server_routes has_suffix eqt
all_good = refl

policy_row :
    (route method : Text) (p : RoutePolicy)
    → server_route_permission route method ≡ ok p
    → good_row (route ++ (codes " " ++ method), p) ≡ true
unfolding server_route_permission
policy_row route method p h =
    elim (Option-cases (lookup (route ++ (codes " " ++ method)) server_routes)) [
      | inl e ↦ ground arith
      | inr (q, e) ↦
          let same : q ≡ p = ground arith in
          lookup-row good_row (route ++ (codes " " ++ method)) server_routes p all_good
            (e ∙ ap some same)
    ]

-- A route's policy asks for the class of reading exactly when the method is GET, as far as GET and POST
-- go, and a POST never gets by with the permission to view.
pub routes_by_method :
    (route : Text) (p : RoutePolicy)
    → (server_route_permission route (codes "GET") ≡ ok p → p.access ≡ access_read)
      × (server_route_permission route (codes "POST") ≡ ok p
          → (p.access ≢ access_read) × (p.perm ≢ perm_view))
routes_by_method route p = (
  λ h.
      let row = policy_row route (codes "GET") p h in
      let suffix = has_suffix-append route (codes " GET") in
      (eqt_iff p.access access_read).0 (ground (arith, row, suffix)),
  λ h.
      let row = policy_row route (codes "POST") p h in
      let suffix = has_suffix-append route (codes " POST") in
      (
        (λ e. ground (arith, row, suffix, (eqt_iff p.access access_read).1 e)),
        (λ e. ground (arith, row, suffix, (eqt_iff p.perm perm_view).1 e)),
      ),
)

no_member : (t : Text) (ts : List Text) → ts ≡ [] → In t ts → ⊥
unfolding text_mem
no_member t ts e i = let h = In-text_mem t ts i in ground (arith, e, h)

take_whole : (s t : Text) → take (length s) (s ++ t) ≡ s
take_whole [] t = refl
take_whole (c ∷ s) t = ap (λ x. c ∷ x) (take_whole s t)

action_key : (route : Text) → route ++ codes " POST" ≡ codes "action POST" → route ≡ codes "action"
action_key route e =
    let n : length route + 5 ≡ 11 = sym (length-append route (codes " POST")) ∙ ap length e in
    let six : length route ≡ 6 = omega arith in
    sym (take_whole route (codes " POST"))
    ∙ ap (take (length route)) e
    ∙ ap (λ k. take k (codes "action POST")) six

-- Only the route of the actions leaves its permission to the action.
by_action_route :
    (route : Text) (p : RoutePolicy)
    → server_route_permission route (codes "POST") ≡ ok p
    → p.perm ≡ perm_by_action
    → route ≡ codes "action"
by_action_route route p h by =
    let row = policy_row route (codes "POST") p h in
    let suffix = has_suffix-append route (codes " POST") in
    action_key route (
      (eqt_iff (route ++ codes " POST") (codes "action POST")).0
        (ground (arith, row, suffix, (eqt_iff p.perm perm_by_action).1 by)))

viewer_route :
    (env : Servers) (a : App) (r : Request) (u : User) (id route : Text) (p : RoutePolicy)
    → u.role ≢ role_admin
    → u.permissions ≡ []
    → r.method ≡ codes "POST"
    → IsRouted env a r u id route p
    → route ≡ codes "action"
unfolding auth_perm
viewer_route env a r u id route p other bare post t =
    let served : server_route_permission route (codes "POST") ≡ ok p =
      ap (server_route_permission route) (sym post) ∙ t.policy in
    elim (Bool-cases (eqt p.perm perm_by_action)) [
      | inl by ↦ by_action_route route p served ((eqt_iff p.perm perm_by_action).0 by)
      | inr fixed ↦
          let asked : auth_perm p ≡ p.perm = ground (arith, fixed) in
          elim t.granted.holds [
            | as_admin e ↦ absurd (other e)
            | viewing e ↦ absurd (((routes_by_method route p).1 served).1 (sym asked ∙ e))
            | listed _ i ↦ absurd (no_member (auth_perm p) u.permissions bare i)
          ]
    ]

-- A POST on a server by a user who is no administrator and has no permission is refused and leaves the
-- state, or its path names the route of the actions, whose permission is asked for once the action is
-- known, and that route's handler gets it.
pub viewers_post :
    (env : Servers) (a : App) (r : Request) (u : User) (sid : Text) (now : ℕ)
    → u.role ≢ role_admin
    → u.permissions ≡ []
    → r.method ≡ codes "POST"
    → ((status : ℕ) × (handle_server env u sid a r now ≡ (a, refused status)))
      ⊎ ((id : Text) × (parts r ≡ some (id, codes "action"))
          × (handle_server env u sid a r now ≡ route_handler env id (codes "action") u sid a r now))
viewers_post env a r u sid now other bare post = elim (server_gate env u sid a r now).0 [
  | inl refusal ↦ inl refusal
  | inr (id, route, p, e, q, t) ↦
      let action = viewer_route env a r u id route p other bare post t in
      inr (
        id,
        e ∙ ap (λ x. some (id, x)) action,
        q ∙ ap (λ x. route_handler env id x u sid a r now) action,
      )
]
