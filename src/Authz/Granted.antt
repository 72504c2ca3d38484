-- ===== src/Authz/Granted.antt =====
-- Who may do what on a server, stated by itself, and the decision of backend/authz.go against it.
use linuxgsm_dashboard.Base.{
  Text, List, [], ◌∷◌, Bool, true, false, Option, none, some, ◌≡◌, ◌≢◌, refl, sym, inl, inr, ◌↔◌,
  arith, eqt, eqt_iff, eqt_of_ne, text_mem, Bool-cases,
}
use linuxgsm_dashboard.User.{User, is_admin, role_admin}
use linuxgsm_dashboard.Ids.{is_valid_server_id, split_server_id}
use linuxgsm_dashboard.Authz.{
  perm_admin, perm_view, node_access, can_access_server, has_permission, is_missing, authorize_user,
  authorize_server_action,
}

-- Membership of a list of texts.
pub data In (t : Text) : List Text → Type 0 where
  here : (s : Text) (ss : List Text) → s ≡ t → In t (s ∷ ss)
  later : (s : Text) (ss : List Text) → In t ss → In t (s ∷ ss)

pub text_mem-In : (t : Text) (ss : List Text) → text_mem t ss ≡ true → In t ss
unfolding text_mem
text_mem-In t [] h = cc
text_mem-In t (s ∷ ss) h = elim (Bool-cases (eqt t s)) [
  | inl e ↦ here s ss (sym ((eqt_iff t s).0 e))
  | inr e ↦ later s ss (text_mem-In t ss (rw e at h))
]

pub In-text_mem : (t : Text) (ss : List Text) → In t ss → text_mem t ss ≡ true
unfolding text_mem
In-text_mem t ss (here s rest e) = ground (arith, eqt_iff t s)
In-text_mem t ss (later s rest i) = ground (arith, In-text_mem t rest i)

-- A user reaches a server as administrator, by name, or through its node.
pub data Reaches (u : User) (id : Text) : Type 0 where
  as_admin : u.role ≡ role_admin → Reaches u id
  by_name : In id u.servers → Reaches u id
  by_node : (split_server_id id).0 ≢ [] → In (split_server_id id).0 u.nodes → Reaches u id

-- A user holds a permission as administrator; or it is not the administrators' own, and is that of
-- viewing or one of the user's.
pub data Holds (u : User) (perm : Text) : Type 0 where
  as_admin : u.role ≡ role_admin → Holds u perm
  viewing : perm ≡ perm_view → Holds u perm
  listed : perm ≢ perm_admin → In perm u.permissions → Holds u perm

pub record Granted (u : User) (id perm : Text) (server_exists : Option (Text → Bool)) : Type 0 where
  pub named : u.username ≢ []
  pub valid : is_valid_server_id id ≡ true
  pub reaches : Reaches u id
  pub existing : is_missing server_exists id ≡ false
  pub asks : perm ≢ []
  pub holds : Holds u perm

node_access-In :
    (u : User) (node : Text) → node_access u node ≡ true → (node ≢ []) × In node u.nodes
unfolding node_access
node_access-In u [] h = cc
node_access-In u (c ∷ node) h = ((λ e. cc), text_mem-In (c ∷ node) u.nodes h)

In-node_access : (u : User) (node : Text) → node ≢ [] → In node u.nodes → node_access u node ≡ true
unfolding node_access
In-node_access u [] n i = absurd (n refl)
In-node_access u (c ∷ node) n i = In-text_mem (c ∷ node) u.nodes i

access-Reaches : (u : User) (id : Text) → can_access_server u id ≡ true → Reaches u id
unfolding can_access_server is_admin
access-Reaches u id h = elim (Bool-cases (eqt u.role role_admin)) [
  | inl a ↦ as_admin ((eqt_iff u.role role_admin).0 a)
  | inr b ↦ elim (Bool-cases (text_mem id u.servers)) [
    | inl s ↦ by_name (text_mem-In id u.servers s)
    | inr t ↦ let (n, i) = node_access-In u (split_server_id id).0 (ground arith) in by_node n i
  ]
]

Reaches-access : (u : User) (id : Text) → Reaches u id → can_access_server u id ≡ true
unfolding can_access_server is_admin
Reaches-access u id (as_admin e) = ground (arith, eqt_iff u.role role_admin)
Reaches-access u id (by_name i) = ground (arith, In-text_mem id u.servers i)
Reaches-access u id (by_node n i) = ground (arith, In-node_access u (split_server_id id).0 n i)

has_permission-Holds : (u : User) (perm : Text) → has_permission u perm ≡ true → Holds u perm
unfolding has_permission is_admin
has_permission-Holds u perm h = elim (Bool-cases (eqt u.role role_admin)) [
  | inl a ↦ as_admin ((eqt_iff u.role role_admin).0 a)
  | inr b ↦ elim (Bool-cases (eqt perm perm_view)) [
    | inl v ↦ viewing ((eqt_iff perm perm_view).0 v)
    | inr w ↦
        listed (λ e. ground (arith, eqt_iff perm perm_admin))
          (text_mem-In perm u.permissions (ground arith))
  ]
]

Holds-has_permission : (u : User) (perm : Text) → Holds u perm → has_permission u perm ≡ true
unfolding has_permission is_admin
Holds-has_permission u perm (as_admin e) = ground (arith, eqt_iff u.role role_admin)
Holds-has_permission u perm (viewing e) =
    ground (arith, eqt_iff perm perm_view, eqt_iff perm perm_admin)
Holds-has_permission u perm (listed n i) =
    ground (arith, eqt_iff perm perm_admin, In-text_mem perm u.permissions i)

granted :
    (u : User) (id perm : Text) (server_exists : Option (Text → Bool))
    → authorize_server_action (some u) id perm server_exists ≡ none
    → Granted u id perm server_exists
unfolding authorize_server_action authorize_user
granted u id perm server_exists h = record {
  named = ground (arith, eqt_iff u.username []);
  valid = ground arith;
  reaches = access-Reaches u id (ground arith);
  existing = ground arith;
  asks = ground (arith, eqt_iff perm []);
  holds = has_permission-Holds u perm (ground arith);
}

let_through :
    (u : User) (id perm : Text) (server_exists : Option (Text → Bool))
    → Granted u id perm server_exists
    → authorize_server_action (some u) id perm server_exists ≡ none
unfolding authorize_server_action authorize_user
let_through u id perm server_exists g = ground (
  arith,
  eqt_of_ne u.username [] g.named,
  eqt_of_ne perm [] g.asks,
  Reaches-access u id g.reaches,
  Holds-has_permission u perm g.holds,
)

-- The decision lets the request of a user through exactly when it is granted: the user has a name, the
-- server ID is valid, the user reaches the server, the server exists as far as that is asked, and the
-- user holds the permission, which is not empty.
pub authorize_iff-Granted :
    (u : User) (id perm : Text) (server_exists : Option (Text → Bool))
    → (authorize_server_action (some u) id perm server_exists ≡ none)
      ↔ Granted u id perm server_exists
authorize_iff-Granted u id perm server_exists =
    (λ h. granted u id perm server_exists h, λ g. let_through u id perm server_exists g)
