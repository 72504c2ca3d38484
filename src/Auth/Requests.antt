-- ===== src/Auth/Requests.antt =====
-- Every request that reaches the AuthManager, one after another, on the state that starting left.
use linuxgsm_dashboard.Base.{ℕ, ◌≡◌, Text, List, [], ◌∷◌, Bool, Option, arith}
use linuxgsm_dashboard.Passwords.{Crypto}
use linuxgsm_dashboard.Auth.{Auth, set_notes_seen, get_session, logout, cleanup}
use linuxgsm_dashboard.Auth.Accounts.{
  create_user, update_user, delete_user, commit_password_change, set_user_nodes,
  remove_server_from_users, remove_node_from_users,
}
use linuxgsm_dashboard.Auth.Accounts.Admins.{IsSound, set_notes_seen-IsSound, create_user-IsSound}
use linuxgsm_dashboard.Auth.Accounts.Deleting.{
  update_user-IsSound, delete_user-IsSound, commit_password_change-IsSound, set_user_nodes-IsSound,
  remove_server_from_users-IsSound, remove_node_from_users-IsSound,
}
use linuxgsm_dashboard.Auth.TwoFactor.{
  Draws, Writes, begin_login, complete_login, start_two_factor_setup, confirm_two_factor_setup,
  disable_two_factor, reset_two_factor, regenerate_recovery_codes,
}
use linuxgsm_dashboard.Auth.TwoFactor.Sound.{complete_login-IsSound}
use linuxgsm_dashboard.Auth.TwoFactor.Managed.{
  begin_login-IsSound, start_two_factor_setup-IsSound, confirm_two_factor_setup-IsSound,
  clear_two_factor-IsSound, disable_two_factor-IsSound, regenerate_recovery_codes-IsSound,
}

-- A password change commits with the hashes that an earlier check gave, at any later time.
pub data Request : Type 0 where
  begins : Text → Text → ℕ → Draws → Bool → Request
  completes : Text → Text → ℕ → Draws → Bool → Request
  visits_with : Text → ℕ → Request
  logs_out : Text → Request
  cleans_up : ℕ → Request
  sees_notes : Text → Text → Bool → Request
  creates : Text → Text → Text → List Text → List Text → Option Text → Bool → Request
  updates : Text → Text → Text → List Text → List Text → Option Text → Bool → Request
  deletes : Text → Bool → Request
  commits_password : Text → Text → Text → Text → Bool → Request
  assigns_nodes : Text → List Text → Bool → Request
  drops_server : Text → Bool → Request
  drops_node : Text → Bool → Request
  starts_setup : Text → Text → ℕ → Option Text → Option Text → Bool → Request
  confirms_setup : Text → Text → Text → ℕ → Option (List Text) → Bool → Request
  disables : Text → Text → Text → Text → ℕ → Option Text → Writes → Request
  regenerates : Text → Text → Text → ℕ → Option Text → Option (List Text) → Writes → Request
  resets : Text → Bool → Request

unfoldable pub step : Crypto → Auth → Request → Auth
step c s (begins n password now draws disk_ok) = (begin_login c s n password now draws disk_ok).0
step c s (completes token code now draws disk_ok) =
    (complete_login c s token code now draws disk_ok).0
step c s (visits_with id now) = (get_session s id now).0
step c s (logs_out id) = logout s id
step c s (cleans_up now) = cleanup s now
step c s (sees_notes n version disk_ok) = (set_notes_seen s n version disk_ok).0
step c s (creates n password role servers permissions salt disk_ok) =
    (create_user c s n password role servers permissions salt disk_ok).0
step c s (updates n password role servers permissions salt disk_ok) =
    (update_user c s n password role servers permissions salt disk_ok).0
step c s (deletes n disk_ok) = (delete_user s n disk_ok).0
step c s (commits_password n stored new_hash keep_session disk_ok) =
    (commit_password_change s n stored new_hash keep_session disk_ok).0
step c s (assigns_nodes n nodes disk_ok) = (set_user_nodes s n nodes disk_ok).0
step c s (drops_server id disk_ok) = (remove_server_from_users s id disk_ok).0
step c s (drops_node node disk_ok) = (remove_node_from_users s node disk_ok).0
step c s (starts_setup n password now salt bytes disk_ok) =
    (start_two_factor_setup c s n password now salt bytes disk_ok).0
step c s (confirms_setup n code keep_session now bufs disk_ok) =
    (confirm_two_factor_setup c s n code keep_session now bufs disk_ok).0
step c s (disables n password code keep_session now salt writes) =
    (disable_two_factor c s n password code keep_session now salt writes).0
step c s (regenerates n password code now salt bufs writes) =
    (regenerate_recovery_codes c s n password code now salt bufs writes).0
step c s (resets n disk_ok) = (reset_two_factor s n disk_ok).0

unfoldable pub run : Crypto → Auth → List Request → Auth
run c s [] = s
run c s (r ∷ rs) = run c (step c s r) rs

users-get_session :
    (s : Auth) (id : Text) (now : ℕ)
    → ((get_session s id now).0.users ≡ s.users) × ((get_session s id now).0.disk ≡ s.disk)
unfolding get_session
users-get_session s id now = ground arith

step-IsSound : (c : Crypto) (s : Auth) (r : Request) → IsSound s → IsSound (step c s r)
unfolding step
step-IsSound c s (begins n p now draws w) h = begin_login-IsSound c s n p now draws w h
step-IsSound c s (completes token code now draws w) h =
    complete_login-IsSound c s token code now draws w h
step-IsSound c s (visits_with id now) h = record {
  memory = rw (users-get_session s id now).0 h.memory;
  file = rw (users-get_session s id now).1 h.file;
}
step-IsSound c s (logs_out id) h = unfold logout in record { memory = h.memory; file = h.file }
step-IsSound c s (cleans_up now) h = unfold cleanup in record { memory = h.memory; file = h.file }
step-IsSound c s (sees_notes n v w) h = set_notes_seen-IsSound s n v w h
step-IsSound c s (creates n p role servers perms salt w) h =
    create_user-IsSound c s n p role servers perms salt w h
step-IsSound c s (updates n p role servers perms salt w) h =
    update_user-IsSound c s n p role servers perms salt w h
step-IsSound c s (deletes n w) h = delete_user-IsSound s n w h
step-IsSound c s (commits_password n o p k w) h = commit_password_change-IsSound s n o p k w h
step-IsSound c s (assigns_nodes n ns w) h = set_user_nodes-IsSound s n ns w h
step-IsSound c s (drops_server id w) h = remove_server_from_users-IsSound s id w h
step-IsSound c s (drops_node id w) h = remove_node_from_users-IsSound s id w h
step-IsSound c s (starts_setup n p now salt bytes w) h =
    start_two_factor_setup-IsSound c s n p now salt bytes w h
step-IsSound c s (confirms_setup n code k now bufs w) h =
    confirm_two_factor_setup-IsSound c s n code k now bufs w h
step-IsSound c s (disables n p code k now salt w) h =
    disable_two_factor-IsSound c s n p code k now salt w h
step-IsSound c s (regenerates n p code now salt bufs w) h =
    regenerate_recovery_codes-IsSound c s n p code now salt bufs w h
step-IsSound c s (resets n w) h = unfold reset_two_factor in clear_two_factor-IsSound s n [] w h

-- Whatever requests arrive, and whichever writes of the file fail: if there was an administrator and
-- the user names were distinct, in memory and in config.json, they still are.
pub run-IsSound : (c : Crypto) (s : Auth) (rs : List Request) → IsSound s → IsSound (run c s rs)
unfolding run
run-IsSound c s [] h = h
run-IsSound c s (r ∷ rs) h = run-IsSound c (step c s r) rs (step-IsSound c s r h)
