-- ===== src/Auth/Accounts/Deleting.antt =====
-- About UpdateUser, DeleteUser, ChangeUserPassword and the assignments of backend/auth.go under
-- IsSound.
use linuxgsm_dashboard.Base.{
  ℕ, ◌≡◌, refl, ap, inl, inr, Text, List, [], ◌∷◌, Bool, true, false, not, ◌&&◌, Option, some,
  arith, leb, ltb, eqt, count_if, get_elem?, remove_at, length, all_of, Option-cases, Bool-cases,
}
use linuxgsm_dashboard.Base.Finds.{count_if-remove_at}
use linuxgsm_dashboard.User.{User, role_admin}
use linuxgsm_dashboard.Ids.{is_valid_node_id}
use linuxgsm_dashboard.Passwords.{Crypto, min_password_length}
use linuxgsm_dashboard.Auth.{
  Auth, saved, find_user, admin_count, is_admin_role, is_named, invalidate_user_sessions,
}
use linuxgsm_dashboard.Auth.Accounts.{
  hash_if_given, update_user, delete_user, commit_password_change, set_user_nodes,
  validate_role_and_permissions, map_users, save_if, without_server, remove_server_from_users,
  without_node, remove_node_from_users,
}
use linuxgsm_dashboard.Auth.Accounts.Admins.{
  UsersOk, IsSound, saved-IsSound, same-UsersOk, twice-UsersOk, named_at, kept, change_user-IsSound,
}

pub update_user-IsSound :
    (c : Crypto) (s : Auth) (username password role : Text) (servers permissions : List Text)
    (salt : Option Text) (disk_ok : Bool)
    → IsSound s
    → IsSound (update_user c s username password role servers permissions salt disk_ok).0
unfolding update_user
update_user-IsSound c s n password role servers permissions salt disk_ok h =
    elim (Bool-cases (not (eqt password []) && ltb (length password) min_password_length)) [
      | inl short ↦ rw (short, update_user) h
      | inr long ↦ elim (Option-cases (validate_role_and_permissions role permissions)) [
        | inr (f, e) ↦ rw (long, e, update_user) h
        | inl e ↦ elim (Option-cases (hash_if_given c password salt)) [
          | inl d ↦ rw (long, e, d, update_user) h
          | inr (hash, d) ↦
              rw (long, e, d, update_user)
                (change_user-IsSound s n hash role servers permissions disk_ok h)
        ]
      ]
    ]

removed-UsersOk :
    (us : List User) (i : ℕ) (u : User)
    → get_elem? us i ≡ some u
    → (eqt u.role role_admin && leb (admin_count us) 1) ≡ false
    → UsersOk us
    → UsersOk (remove_at us i)
unfolding admin_count
removed-UsersOk us i u at g h = record {
  has_admin = ground (arith, count_if-remove_at is_admin_role us i u at, h.has_admin);
  unique = λ m. ground (arith, count_if-remove_at (is_named m) us i u at, h.unique m);
}

pub delete_user-IsSound :
    (s : Auth) (username : Text) (disk_ok : Bool)
    → IsSound s
    → IsSound (delete_user s username disk_ok).0
unfolding delete_user
delete_user-IsSound s n false h = elim (Option-cases (find_user n s.users)) [
  | inl e ↦ rw (e, delete_user) h
  | inr ((i, u), e) ↦ elim (Bool-cases (eqt u.role role_admin && leb (admin_count s.users) 1)) [
    | inl g ↦ rw (e, g, delete_user) h
    | inr g ↦ rw (e, g, delete_user) (record { memory = h.memory; file = h.file })
  ]
]
delete_user-IsSound s n true h = elim (Option-cases (find_user n s.users)) [
  | inl e ↦ rw (e, delete_user) h
  | inr ((i, u), e) ↦ elim (Bool-cases (eqt u.role role_admin && leb (admin_count s.users) 1)) [
    | inl g ↦ rw (e, g, delete_user) h
    | inr g ↦
        let m = removed-UsersOk s.users i u (named_at n s.users i u e) g h.memory in
        rw (e, g, delete_user)
          (unfold saved invalidate_user_sessions in record { memory = m; file = m })
  ]
]

pub commit_password_change-IsSound :
    (s : Auth) (username stored new_hash keep_session : Text) (disk_ok : Bool)
    → IsSound s
    → IsSound (commit_password_change s username stored new_hash keep_session disk_ok).0
unfolding commit_password_change
commit_password_change-IsSound s n stored new_hash keep_session false h =
    elim (Option-cases (find_user n s.users)) [
      | inl e ↦ rw (e, commit_password_change) h
      | inr ((i, u), e) ↦ elim (Bool-cases (not (eqt u.password_hash stored))) [
        | inl g ↦ rw (e, g, commit_password_change) h
        | inr g ↦
            rw (e, g, commit_password_change)
              (kept s _
                (twice-UsersOk s.users i u _ _ (named_at n s.users i u e) refl refl refl refl
                  h.memory)
                h)
      ]
    ]
commit_password_change-IsSound s n stored new_hash keep_session true h =
    elim (Option-cases (find_user n s.users)) [
      | inl e ↦ rw (e, commit_password_change) h
      | inr ((i, u), e) ↦ elim (Bool-cases (not (eqt u.password_hash stored))) [
        | inl g ↦ rw (e, g, commit_password_change) h
        | inr g ↦
            let m =
              same-UsersOk s.users i u (record u { password_hash = new_hash })
                (named_at n s.users i u e) refl refl h.memory in
            rw (e, g, commit_password_change)
              (unfold saved invalidate_user_sessions in record { memory = m; file = m })
      ]
    ]

pub set_user_nodes-IsSound :
    (s : Auth) (username : Text) (nodes : List Text) (disk_ok : Bool)
    → IsSound s
    → IsSound (set_user_nodes s username nodes disk_ok).0
unfolding set_user_nodes
set_user_nodes-IsSound s n nodes disk_ok h =
    elim (Bool-cases (not (all_of is_valid_node_id nodes))) [
      | inl bad ↦ rw (bad, set_user_nodes) h
      | inr good ↦ elim (Option-cases (find_user n s.users)) [
        | inl e ↦ rw (good, e, set_user_nodes) h
        | inr ((i, u), e) ↦
            let m =
              same-UsersOk s.users i u (record u { nodes = nodes }) (named_at n s.users i u e) refl
                refl h.memory in
            elim (Bool-cases disk_ok) [
              | inl k ↦ rw (good, e, k, set_user_nodes) (saved-IsSound _ m)
              | inr k ↦ rw (good, e, k, set_user_nodes) (kept s _ m h)
            ]
      ]
    ]

count_if-map_users :
    (q : User → Bool) (f : User → User) (us : List User)
    → ((u : User) → q (f u) ≡ q u)
    → count_if q (map_users f us) ≡ count_if q us
count_if-map_users q f [] same = refl
count_if-map_users q f (u ∷ us) same = ground (arith, same u, count_if-map_users q f us same)

-- A change of every user that keeps names and roles.
mapped-UsersOk :
    (f : User → User) (us : List User)
    → ((u : User) → (f u).username ≡ u.username)
    → ((u : User) → (f u).role ≡ u.role)
    → UsersOk us
    → UsersOk (map_users f us)
unfolding admin_count
mapped-UsersOk f us name role h = record {
  has_admin =
      rw (count_if-map_users is_admin_role f us (λ u. ap (λ r. eqt r role_admin) (role u)))
        h.has_admin;
  unique =
      λ m. rw (count_if-map_users (is_named m) f us (λ u. ap (λ r. eqt r m) (name u))) (h.unique m);
}

save_if-IsSound :
    (changed disk_ok : Bool) (s : Auth) → IsSound s → IsSound (save_if changed disk_ok s).0
unfolding save_if
save_if-IsSound false disk_ok s h = h
save_if-IsSound true false s h = h
save_if-IsSound true true s h = saved-IsSound s h.memory

pub remove_server_from_users-IsSound :
    (s : Auth) (id : Text) (disk_ok : Bool)
    → IsSound s
    → IsSound (remove_server_from_users s id disk_ok).0
unfolding remove_server_from_users without_server
remove_server_from_users-IsSound s id disk_ok h = save_if-IsSound _ disk_ok _ (
    kept s _
      (mapped-UsersOk (without_server id) s.users (λ u. ground arith) (λ u. ground arith) h.memory)
      h)

pub remove_node_from_users-IsSound :
    (s : Auth) (node : Text) (disk_ok : Bool)
    → IsSound s
    → IsSound (remove_node_from_users s node disk_ok).0
unfolding remove_node_from_users without_node
remove_node_from_users-IsSound s node disk_ok h = save_if-IsSound _ disk_ok _ (
    kept s _
      (mapped-UsersOk (without_node node) s.users (λ u. ground arith) (λ u. ground arith) h.memory)
      h)
