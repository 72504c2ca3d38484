-- ===== src/Auth/Accounts/Admins.antt =====
-- About the users in memory and in config.json: the predicate IsSound, and the operations of
-- backend/auth.go up to UpdateUser under it.
use linuxgsm_dashboard.Base.{
  ℕ, ◌≤◌, ◌≡◌, refl, sym, inl, inr, Text, List, [], ◌∷◌, ◌++◌, Bool, true, false, not, Option, none,
  some, arith, leb, ltb, ◌&&◌, eqt, eqt_iff, count_if, find_index, get_elem?, set, length,
  Option-cases, Bool-cases, count_if-append, subst,
}
use linuxgsm_dashboard.Base.Finds.{
  find_index-get, set-set_self, get_elem?-set_self, count_if_absent, count_if-set, take-append_one,
}
use linuxgsm_dashboard.User.{User, role_admin}
use linuxgsm_dashboard.Passwords.{
  Crypto, hash_password, min_password_length, is_legacy_password_hash, verify_password,
}
use linuxgsm_dashboard.Auth.{
  Auth, Config, saved, find_user, admin_count, is_admin_role, is_named, invalidate_user_sessions,
  set_notes_seen,
}
use linuxgsm_dashboard.Auth.Accounts.{
  migrate_hash, upgrade_hash, verify_credentials, holds_hash, add_user, create_user, new_user,
  change_user, changed_user, validate_role_and_permissions,
}

pub record UsersOk (us : List User) : Type 0 where
  pub has_admin : 1 ≤ admin_count us
  pub unique : (n : Text) → count_if (is_named n) us ≤ 1

abbrev pub DiskOk : Option Config → Type 0
DiskOk none = Unit
DiskOk (some config) = UsersOk config.users

pub record IsSound (s : Auth) : Type 0 where
  pub memory : UsersOk s.users
  pub file : DiskOk s.disk

pub saved-IsSound : (s : Auth) → UsersOk s.users → IsSound (saved s)
unfolding saved
saved-IsSound s h = record { memory = h; file = h }

-- Writing a user of the same name and role over one.
pub same-UsersOk :
    (us : List User) (i : ℕ) (u v : User)
    → get_elem? us i ≡ some u
    → v.username ≡ u.username
    → v.role ≡ u.role
    → UsersOk us
    → UsersOk (set us i v)
unfolding admin_count
same-UsersOk us i u v at n r h = record {
  has_admin = ground (arith, count_if-set is_admin_role us i u v at, h.has_admin);
  unique = λ m. ground (arith, count_if-set (is_named m) us i u v at, h.unique m);
}

pub named_at :
    (n : Text) (us : List User) (i : ℕ) (u : User)
    → find_user n us ≡ some (i, u)
    → get_elem? us i ≡ some u
unfolding find_user
named_at n us i u e = (find_index-get (is_named n) us i u e).0

-- A write that is undone when the file could not be written.
pub undone :
    (s : Auth) (i : ℕ) (u v : User)
    → get_elem? s.users i ≡ some u
    → IsSound s
    → IsSound (record s { users = set (set s.users i v) i u })
undone s i u v at h = record {
  memory = subst UsersOk (sym (set-set_self s.users i u v at)) h.memory;
  file = h.file;
}

-- The same, written twice.
pub twice-UsersOk :
    (us : List User) (i : ℕ) (u v w : User)
    → get_elem? us i ≡ some u
    → v.username ≡ u.username
    → v.role ≡ u.role
    → w.username ≡ v.username
    → w.role ≡ v.role
    → UsersOk us
    → UsersOk (set (set us i v) i w)
twice-UsersOk us i u v w at n r n' r' h =
    same-UsersOk (set us i v) i v w (get_elem?-set_self us i u v at) n' r'
      (same-UsersOk us i u v at n r h)

-- What is left in memory, with the file as it was or rewritten.
pub kept : (s : Auth) (us : List User) → UsersOk us → IsSound s → IsSound (record s { users = us })
kept s us m h = record { memory = m; file = h.file }

pub set_notes_seen-IsSound :
    (s : Auth) (username version : Text) (disk_ok : Bool)
    → IsSound s
    → IsSound (set_notes_seen s username version disk_ok).0
unfolding set_notes_seen
set_notes_seen-IsSound s username version true h =
    elim (Option-cases (find_user username s.users)) [
      | inl e ↦ rw (e, set_notes_seen) h
      | inr ((i, u), e) ↦
          rw (e, set_notes_seen)
            (saved-IsSound _
              (same-UsersOk s.users i u _ (named_at username s.users i u e) refl refl h.memory))
    ]
set_notes_seen-IsSound s username version false h =
    elim (Option-cases (find_user username s.users)) [
      | inl e ↦ rw (e, set_notes_seen) h
      | inr ((i, u), e) ↦
          rw (e, set_notes_seen)
            (kept s _
              (same-UsersOk s.users i u _ (named_at username s.users i u e) refl refl h.memory) h)
    ]

migrate_hash-IsSound :
    (s : Auth) (username stored new_hash : Text) (disk_ok : Bool)
    → IsSound s
    → IsSound (migrate_hash s username stored new_hash disk_ok)
unfolding migrate_hash
migrate_hash-IsSound s n stored new_hash true h =
    elim (Option-cases (find_index (holds_hash n stored) s.users)) [
      | inl e ↦ rw (e, migrate_hash) h
      | inr ((i, u), e) ↦
          rw (e, migrate_hash)
            (saved-IsSound _ (
              same-UsersOk s.users i u _ (find_index-get (holds_hash n stored) s.users i u e).0 refl
                refl h.memory))
    ]
migrate_hash-IsSound s n stored new_hash false h =
    elim (Option-cases (find_index (holds_hash n stored) s.users)) [
      | inl e ↦ rw (e, migrate_hash) h
      | inr ((i, u), e) ↦
          let at = (find_index-get (holds_hash n stored) s.users i u e).0 in
          rw (e, migrate_hash)
            (kept s _ (twice-UsersOk s.users i u _ _ at refl refl refl refl h.memory) h)
    ]

upgrade_hash-IsSound :
    (c : Crypto) (s : Auth) (username password stored : Text) (salt : Option Text) (disk_ok : Bool)
    → IsSound s
    → IsSound (upgrade_hash c s username password stored salt disk_ok)
unfolding upgrade_hash
upgrade_hash-IsSound c s n password stored salt disk_ok h =
    elim (Bool-cases (is_legacy_password_hash stored)) [
      | inr fresh ↦ rw (fresh, upgrade_hash) h
      | inl old ↦ elim (Option-cases (hash_password c password salt)) [
        | inl e ↦ rw (old, e, upgrade_hash) h
        | inr (new_hash, e) ↦
            rw (old, e, upgrade_hash) (migrate_hash-IsSound s n stored new_hash disk_ok h)
      ]
    ]

pub verify_credentials-IsSound :
    (c : Crypto) (s : Auth) (username password : Text) (salt : Option Text) (disk_ok : Bool)
    → IsSound s
    → IsSound (verify_credentials c s username password salt disk_ok).0
unfolding verify_credentials
verify_credentials-IsSound c s username password salt disk_ok h =
    elim (Option-cases (find_user username s.users)) [
      | inl e ↦ rw (e, verify_credentials) h
      | inr ((i, u), e) ↦ elim (Bool-cases (verify_password c password u.password_hash)) [
        | inl good ↦
            rw (e, good, verify_credentials)
              (upgrade_hash-IsSound c s username password u.password_hash salt disk_ok h)
        | inr bad ↦ rw (e, bad, verify_credentials) h
      ]
    ]

added-UsersOk :
    (us : List User) (u : User)
    → find_user u.username us ≡ none
    → UsersOk us
    → UsersOk (us ++ (u ∷ []))
unfolding admin_count find_user
added-UsersOk us u new h = record {
  has_admin = ground (arith, count_if-append is_admin_role us (u ∷ []), h.has_admin);
  unique = λ n. ground (
    arith,
    count_if-append (is_named n) us (u ∷ []),
    h.unique n,
    eqt_iff u.username n,
    count_if_absent (is_named n) us,
  );
}

add_user-IsSound :
    (s : Auth) (u : User) (disk_ok : Bool) → IsSound s → IsSound (add_user s u disk_ok).0
unfolding add_user
add_user-IsSound s u true h = elim (Option-cases (find_user u.username s.users)) [
  | inl e ↦ rw (e, add_user) (saved-IsSound _ (added-UsersOk s.users u e h.memory))
  | inr (f, e) ↦ rw (e, add_user) h
]
add_user-IsSound s u false h = elim (Option-cases (find_user u.username s.users)) [
  | inl e ↦ rw (e, add_user) (kept s _ (rw take-append_one h.memory) h)
  | inr (f, e) ↦ rw (e, add_user) h
]

pub create_user-IsSound :
    (c : Crypto) (s : Auth) (username password role : Text) (servers permissions : List Text)
    (salt : Option Text) (disk_ok : Bool)
    → IsSound s
    → IsSound (create_user c s username password role servers permissions salt disk_ok).0
unfolding create_user
create_user-IsSound c s n password role servers permissions salt disk_ok h =
    elim (Bool-cases (ltb (length password) min_password_length)) [
      | inl short ↦ rw (short, create_user) h
      | inr long ↦ elim (Option-cases (validate_role_and_permissions role permissions)) [
        | inr (f, e) ↦ rw (long, e, create_user) h
        | inl e ↦ elim (Option-cases (hash_password c password salt)) [
          | inl d ↦ rw (long, e, d, create_user) h
          | inr (hash, d) ↦
              rw (long, e, d, create_user)
                (add_user-IsSound s (new_user n hash role servers permissions) disk_ok h)
        ]
      ]
    ]

-- Writing a user of the same name over one, when an administrator is left.
changed-UsersOk :
    (us : List User) (i : ℕ) (u v : User)
    → get_elem? us i ≡ some u
    → v.username ≡ u.username
    → (eqt u.role role_admin && (not (eqt v.role role_admin) && leb (admin_count us) 1)) ≡ false
    → UsersOk us
    → UsersOk (set us i v)
unfolding admin_count
changed-UsersOk us i u v at n g h = record {
  has_admin = ground (arith, count_if-set is_admin_role us i u v at, h.has_admin);
  unique = λ m. ground (arith, count_if-set (is_named m) us i u v at, h.unique m);
}

-- The guard of UpdateUser: the only administrator would lose the role.
abbrev demotes : List User → User → Text → Bool
demotes us u role = eqt u.role role_admin && (not (eqt role role_admin) && leb (admin_count us) 1)

pub change_user-IsSound :
    (s : Auth) (username new_hash role : Text) (servers permissions : List Text) (disk_ok : Bool)
    → IsSound s
    → IsSound (change_user s username new_hash role servers permissions disk_ok).0
unfolding change_user
change_user-IsSound s n new_hash role servers permissions false h =
    elim (Option-cases (find_user n s.users)) [
      | inl e ↦ rw (e, change_user) h
      | inr ((i, u), e) ↦ elim (Bool-cases (demotes s.users u role)) [
        | inl g ↦ rw (e, g, change_user) h
        | inr g ↦ rw (e, g, change_user) (undone s i u _ (named_at n s.users i u e) h)
      ]
    ]
change_user-IsSound s n new_hash role servers permissions true h =
    elim (Option-cases (find_user n s.users)) [
      | inl e ↦ rw (e, change_user) h
      | inr ((i, u), e) ↦ elim (Bool-cases (demotes s.users u role)) [
        | inl g ↦ rw (e, g, change_user) h
        | inr g ↦
            let m =
              changed-UsersOk s.users i u (changed_user u new_hash role servers permissions)
                (named_at n s.users i u e) refl g h.memory in
            elim (Bool-cases (eqt new_hash [])) [
              | inl k ↦
                  rw (e, g, k, change_user)
                    (unfold saved in record { memory = rw k at m; file = rw k at m })
              | inr k ↦
                  rw (e, g, k, change_user)
                    (unfold saved invalidate_user_sessions in
                      record { memory = rw k at m; file = rw k at m })
            ]
      ]
    ]
