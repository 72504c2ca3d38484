-- ===== src/Authz/Examples.antt =====
-- A user of one node at a server of it, and the theorems on authorization at this input.
use linuxgsm_dashboard.Base.{
  codes, [], ◌∷◌, false, none, some, ◌≡◌, ◌≢◌, refl, eqt, text_mem, cut, contains, has_prefix,
  has_suffix,
}
use linuxgsm_dashboard.User.{User, role_user, is_admin}
use linuxgsm_dashboard.Ids.{
  is_valid_server_id, split_server_id, is_valid_node_id, is_valid_local_server_id, matches,
}
use linuxgsm_dashboard.Authz.{
  perm_start, perm_config, can_access_server, node_access, has_permission, authorize_user,
  authorize_server_action, action_permission,
}
use linuxgsm_dashboard.Authz.Granted.{Granted, authorize_iff-Granted}
use linuxgsm_dashboard.Authz.Actions.{no_enumeration}

abbrev pub guest : User
guest = record {
  username = codes "guest";
  password_hash = [];
  role = role_user;
  servers = [];
  nodes = codes "lxc-1" ∷ [];
  permissions = perm_start ∷ [];
  totp_enabled = false;
  totp_secret = [];
  totp_last_step = 0;
  recovery_codes = [];
  notes_seen = [];
}

guest_starts : authorize_server_action (some guest) (codes "lxc-1~vhserver") perm_start none ≡ none
unfolding authorize_server_action authorize_user is_valid_server_id is_valid_node_id
    is_valid_local_server_id matches contains has_prefix has_suffix can_access_server node_access
    has_permission is_admin split_server_id cut eqt text_mem
guest_starts = refl

authorize_iff-Granted_example : Granted guest (codes "lxc-1~vhserver") perm_start none
authorize_iff-Granted_example =
    (authorize_iff-Granted guest (codes "lxc-1~vhserver") perm_start none).0 guest_starts

no_access : can_access_server guest (codes "vhserver") ≡ false
unfolding can_access_server node_access is_admin split_server_id cut eqt text_mem
no_access = refl

no_enumeration_example :
    (authorize_server_action (some guest) (codes "vhserver") perm_start none
      ≡ authorize_server_action (some guest) (codes "vhserver") perm_start (some (λ _. false)))
    × (authorize_server_action (some guest) (codes "vhserver") perm_start none ≢ none)
no_enumeration_example =
    no_enumeration guest (codes "vhserver") perm_start none (some (λ _. false)) no_access

details_needs_config : action_permission (codes "details") ≡ some perm_config
unfolding action_permission eqt
details_needs_config = refl

no_admin : is_admin guest ≡ false
unfolding is_admin eqt
no_admin = refl
