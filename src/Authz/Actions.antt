-- ===== src/Authz/Actions.antt =====
-- The permission and the access class of LinuxGSM actions.
use linuxgsm_dashboard.Base.{
  Text, codes, List, [], ◌∷◌, Bool, true, false, ◌||◌, Option, none, some, ◌≡◌, ◌≢◌, refl, ◌⊎◌, inl,
  inr, ◌↔◌, arith, eqt, eqt_refl, All, subst, text_mem, Bool-cases,
}
use linuxgsm_dashboard.User.{User, is_admin}
use linuxgsm_dashboard.Authz.{
  perm_admin, perm_start, perm_stop, perm_restart, perm_backup, perm_config,
  is_assignable_permission, has_permission, can_access_server, authorize_user,
  authorize_server_action, action_permission, bulk_action_permission, bulk_actions, admin_actions,
  action_access, agent_mode_allows, mode_read_only, access_write, access_read, access_control,
}
use linuxgsm_dashboard.Authz.Granted.{In, here, later, text_mem-In, In-text_mem}

-- Whether a server exists does not show to a user without access to it: the answer is the same for
-- every set of existing servers, and it is a refusal.
pub no_enumeration :
    (u : User) (id perm : Text) (known known' : Option (Text → Bool))
    → can_access_server u id ≡ false
    → (authorize_server_action (some u) id perm known
        ≡ authorize_server_action (some u) id perm known')
      × (authorize_server_action (some u) id perm known ≢ none)
unfolding authorize_server_action authorize_user
no_enumeration u id perm known known' h = (ground arith, λ e. ground arith)

assignable :
    (is_assignable_permission perm_start ≡ true)
    × (is_assignable_permission perm_stop ≡ true)
    × (is_assignable_permission perm_restart ≡ true)
    × (is_assignable_permission perm_backup ≡ true)
    × (is_assignable_permission perm_config ≡ true)
unfolding is_assignable_permission text_mem eqt
assignable = (refl, refl, refl, refl, refl)

-- The permission that an action needs is the administrators' own or one that can be assigned.
pub action_permission_range :
    (action : Text) {perm : Text}
    → action_permission action ≡ some perm
    → (perm ≡ perm_admin) ⊎ (is_assignable_permission perm ≡ true)
unfolding action_permission
action_permission_range action {perm} h = ground (arith, assignable)

All-In : (P : Text → Type 0) (t : Text) (ss : List Text) → All P ss → In t ss → P t
All-In P t ss h (here s rest e) = subst P e h.0
All-In P t ss h (later s rest i) = All-In P t rest h.1 i

admin_only : All (λ a. action_permission a ≡ some perm_admin) admin_actions
unfolding action_permission text_mem eqt
admin_only = (
  refl,
  (
    refl,
    (
      refl,
      (
        refl,
        (
          refl,
          (
            refl,
            (
              refl,
              (
                refl,
                (refl, (refl, (refl, (refl, (refl, (refl, (refl, (refl, (refl, (refl, tt)))))))))),
              ),
            ),
          ),
        ),
      ),
    ),
  ),
)

-- Each of the administrators' actions needs a permission, and a user who is no administrator is
-- refused under it, whatever permissions the user record lists.
pub admin_action_refused :
    (u : User) (id action : Text) (known : Option (Text → Bool))
    → is_admin u ≡ false
    → In action admin_actions
    → (perm : Text) × (action_permission action ≡ some perm)
      × (authorize_server_action (some u) id perm known ≢ none)
unfolding authorize_server_action authorize_user has_permission
admin_action_refused u id action known h i = (
  perm_admin,
  All-In (λ a. action_permission a ≡ some perm_admin) action admin_actions admin_only i,
  λ e. ground (arith, eqt_refl perm_admin),
)

-- A bulk action has a permission exactly when it is on the list of five, and then it is the
-- permission that the action needs by itself.
pub bulk_action_iff :
    (action perm : Text)
    → (bulk_action_permission action ≡ some perm)
      ↔ (In action bulk_actions × (action_permission action ≡ some perm))
unfolding bulk_action_permission
bulk_action_iff action perm = (
  (λ h. (text_mem-In action bulk_actions (ground arith), ground arith)),
  λ h. ground (arith, In-text_mem action bulk_actions h.0),
)

abbrev pub read_only_actions : List Text
read_only_actions = codes "start" ∷ codes "stop" ∷ codes "restart" ∷ codes "details" ∷ []

control_class :
    (agent_mode_allows mode_read_only access_control ≡ true)
    × (agent_mode_allows mode_read_only access_read ≡ true)
    × (agent_mode_allows mode_read_only access_write ≡ false)
unfolding agent_mode_allows eqt
control_class = (refl, refl, refl)

abbrev control_actions : List Text
control_actions = codes "start" ∷ codes "stop" ∷ codes "restart" ∷ []

read_only_mem :
    (action : Text)
    → text_mem action read_only_actions
      ≡ (text_mem action control_actions || eqt action (codes "details"))
unfolding text_mem
read_only_mem action = ground arith

read_only_test :
    (action : Text)
    → agent_mode_allows mode_read_only (action_access action) ≡ text_mem action read_only_actions
unfolding action_access
read_only_test action = elim (Bool-cases (text_mem action control_actions)) [
  | inl c ↦ rw (read_only_mem, c, action_access) (control_class.0)
  | inr d ↦
      rw (read_only_mem, d, action_access)
        (elim (Bool-cases (eqt action (codes "details"))) [
          | inl e ↦ rw e (control_class.1)
          | inr e ↦ rw e (control_class.2)
        ])
]

-- A read-only node runs exactly the actions start, stop, restart and details.
pub read_only_runs :
    (action : Text)
    → (agent_mode_allows mode_read_only (action_access action) ≡ true) ↔ In action read_only_actions
read_only_runs action =
    rw read_only_test (text_mem-In action read_only_actions, In-text_mem action read_only_actions)
