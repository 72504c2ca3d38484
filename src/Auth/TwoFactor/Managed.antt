-- ===== src/Auth/TwoFactor/Managed.antt =====
-- About the first login step and the management of second factors (backend/twofactor.go) under
-- IsSound.
use linuxgsm_dashboard.Base.{
  ℕ, refl, inl, inr, Text, List, [], Bool, false, not, Option, ok, err, Result, ltb, Option-cases,
  Bool-cases, Result-cases,
}
use linuxgsm_dashboard.Passwords.{Crypto}
use linuxgsm_dashboard.Totp.{verify_totp, generate_totp_secret, generate_recovery_codes}
use linuxgsm_dashboard.Auth.{Auth, Failure, saved, find_user, invalidate_user_sessions}
use linuxgsm_dashboard.Auth.Accounts.{verify_credentials}
use linuxgsm_dashboard.Auth.Accounts.Admins.{
  IsSound, saved-IsSound, same-UsersOk, named_at, undone, verify_credentials-IsSound,
}
use linuxgsm_dashboard.Auth.TwoFactor.{
  Draws, Writes, begin_login, as_session, totp_on, consume_second_factor, start_two_factor_setup,
  two_factor_status_for, enroll, enrolled, hashed_codes, confirm_two_factor_setup, clear_two_factor,
  disable_two_factor, replace_codes, regenerate_recovery_codes,
}
use linuxgsm_dashboard.Auth.TwoFactor.Sound.{
  create_session-IsSound, open_challenge-IsSound, consume_second_factor-IsSound,
}

as_session-IsSound : (r : Auth × Result Failure Text) → IsSound r.0 → IsSound (as_session r).0
as_session-IsSound (s, ok id) h = h
as_session-IsSound (s, err e) h = h

pub begin_login-IsSound :
    (c : Crypto) (s : Auth) (n password : Text) (now : ℕ) (draws : Draws) (disk_ok : Bool)
    → IsSound s
    → IsSound (begin_login c s n password now draws disk_ok).0
unfolding begin_login
begin_login-IsSound c s n password now draws disk_ok h =
    let r = verify_credentials c s n password draws.salt disk_ok in
    let k : IsSound r.0 = verify_credentials-IsSound c s n password draws.salt disk_ok h in
    elim (Option-cases r.1) [
      | inr (f, e) ↦ rw (e, begin_login) k
      | inl e ↦ elim (Bool-cases (totp_on (find_user n r.0.users))) [
        | inl on ↦ rw (e, on, begin_login) (open_challenge-IsSound r.0 n now draws.token k)
        | inr off ↦
            rw (e, off, begin_login)
              (as_session-IsSound _ (create_session-IsSound r.0 n now draws.session draws.csrf k))
      ]
    ]

pub start_two_factor_setup-IsSound :
    (c : Crypto) (s : Auth) (n password : Text) (now : ℕ) (salt bytes : Option Text)
    (disk_ok : Bool)
    → IsSound s
    → IsSound (start_two_factor_setup c s n password now salt bytes disk_ok).0
unfolding start_two_factor_setup
start_two_factor_setup-IsSound c s n password now salt bytes disk_ok h =
    let r = verify_credentials c s n password salt disk_ok in
    let k : IsSound r.0 = verify_credentials-IsSound c s n password salt disk_ok h in
    elim (Option-cases r.1) [
      | inr (f, e) ↦ rw (e, start_two_factor_setup) k
      | inl e ↦ elim (Bool-cases (two_factor_status_for r.0 n).enabled) [
        | inl on ↦ rw (e, on, start_two_factor_setup) k
        | inr off ↦ elim (Option-cases (generate_totp_secret c bytes)) [
          | inl g ↦ rw (e, off, g, start_two_factor_setup) k
          | inr (secret, g) ↦
              rw (e, off, g, start_two_factor_setup) (record { memory = k.memory; file = k.file })
        ]
      ]
    ]

enroll-IsSound :
    (c : Crypto) (s : Auth) (n secret : Text) (step : ℕ) (recovery : List Text)
    (keep_session : Text) (disk_ok : Bool)
    → IsSound s
    → IsSound (enroll c s n secret step recovery keep_session disk_ok).0
unfolding enroll
enroll-IsSound c s n secret step recovery keep_session disk_ok h =
    elim (Option-cases (find_user n s.users)) [
      | inl e ↦ rw (e, enroll) h
      | inr ((i, u), e) ↦ elim (Bool-cases u.totp_enabled) [
        | inl on ↦ rw (e, on, enroll) h
        | inr off ↦
            let at = named_at n s.users i u e in
            let m =
              same-UsersOk s.users i u (enrolled c u n secret step recovery) at refl refl
                h.memory in
            elim (Bool-cases disk_ok) [
              | inl k ↦
                  rw (e, off, k, enroll)
                    (unfold saved invalidate_user_sessions in record { memory = m; file = m })
              | inr k ↦ rw (e, enroll) (simp (off, k) (undone s i u _ at h))
            ]
      ]
    ]

pub confirm_two_factor_setup-IsSound :
    (c : Crypto) (s : Auth) (n code keep_session : Text) (now : ℕ) (bufs : Option (List Text))
    (disk_ok : Bool)
    → IsSound s
    → IsSound (confirm_two_factor_setup c s n code keep_session now bufs disk_ok).0
unfolding confirm_two_factor_setup
confirm_two_factor_setup-IsSound c s n code keep_session now bufs disk_ok h =
    elim (Option-cases (s.setups n)) [
      | inl e ↦ rw (e, confirm_two_factor_setup) (record { memory = h.memory; file = h.file })
      | inr (setup, e) ↦ elim (Bool-cases (ltb setup.expiry now)) [
        | inl late ↦
            rw (e, late, confirm_two_factor_setup) (record { memory = h.memory; file = h.file })
        | inr fine ↦ elim (Option-cases (verify_totp c setup.secret code now 0)) [
          | inl d ↦ rw (e, fine, d, confirm_two_factor_setup) h
          | inr (step, d) ↦ elim (Option-cases (generate_recovery_codes bufs)) [
            | inl g ↦ rw (e, fine, d, g, confirm_two_factor_setup) h
            | inr (recovery, g) ↦
                rw (e, fine, d, g, confirm_two_factor_setup)
                  (enroll-IsSound c s n setup.secret step recovery keep_session disk_ok h)
          ]
        ]
      ]
    ]

pub clear_two_factor-IsSound :
    (s : Auth) (n keep_session : Text) (disk_ok : Bool)
    → IsSound s
    → IsSound (clear_two_factor s n keep_session disk_ok).0
unfolding clear_two_factor
clear_two_factor-IsSound s n keep_session disk_ok h = elim (Option-cases (find_user n s.users)) [
  | inl e ↦ rw (e, clear_two_factor) h
  | inr ((i, u), e) ↦ elim (Bool-cases (not u.totp_enabled)) [
    | inl off ↦ rw (e, off, clear_two_factor) h
    | inr on ↦
        let at = named_at n s.users i u e in
        let v = record u {
          totp_enabled = false;
          totp_secret = [];
          totp_last_step = 0;
          recovery_codes = [];
        } in
        let m = same-UsersOk s.users i u v at refl refl h.memory in
        elim (Bool-cases disk_ok) [
          | inl k ↦
              rw (e, on, k, clear_two_factor)
                (unfold saved invalidate_user_sessions in record { memory = m; file = m })
          | inr k ↦ rw (e, on, k, clear_two_factor) (undone s i u _ at h)
        ]
  ]
]

replace_codes-IsSound :
    (c : Crypto) (s : Auth) (n : Text) (recovery : List Text) (disk_ok : Bool)
    → IsSound s
    → IsSound (replace_codes c s n recovery disk_ok).0
unfolding replace_codes
replace_codes-IsSound c s n recovery disk_ok h = elim (Option-cases (find_user n s.users)) [
  | inl e ↦ rw (e, replace_codes) h
  | inr ((i, u), e) ↦
      let at = named_at n s.users i u e in
      let m =
        same-UsersOk s.users i u (record u { recovery_codes = hashed_codes c n recovery }) at refl
          refl h.memory in
      elim (Bool-cases disk_ok) [
        | inl k ↦ rw (e, k, replace_codes) (saved-IsSound _ m)
        | inr k ↦ rw (e, k, replace_codes) (undone s i u _ at h)
      ]
]

pub disable_two_factor-IsSound :
    (c : Crypto) (s : Auth) (n password code keep_session : Text) (now : ℕ) (salt : Option Text)
    (writes : Writes)
    → IsSound s
    → IsSound (disable_two_factor c s n password code keep_session now salt writes).0
unfolding disable_two_factor
disable_two_factor-IsSound c s n password code keep_session now salt writes h =
    let r = verify_credentials c s n password salt writes.migration in
    let k : IsSound r.0 = verify_credentials-IsSound c s n password salt writes.migration h in
    let t = consume_second_factor c r.0 n code now writes.factor in
    let l : IsSound t.0 = consume_second_factor-IsSound c r.0 n code now writes.factor k in
    elim (Option-cases r.1) [
      | inr (f, e) ↦ rw (e, disable_two_factor) k
      | inl e ↦ elim (Result-cases t.1) [
        | inl (used, d) ↦
            rw (e, d, disable_two_factor)
              (clear_two_factor-IsSound t.0 n keep_session writes.change l)
        | inr (f, d) ↦ rw (e, d, disable_two_factor) l
      ]
    ]

pub regenerate_recovery_codes-IsSound :
    (c : Crypto) (s : Auth) (n password code : Text) (now : ℕ) (salt : Option Text)
    (bufs : Option (List Text)) (writes : Writes)
    → IsSound s
    → IsSound (regenerate_recovery_codes c s n password code now salt bufs writes).0
unfolding regenerate_recovery_codes
regenerate_recovery_codes-IsSound c s n password code now salt bufs writes h =
    let r = verify_credentials c s n password salt writes.migration in
    let k : IsSound r.0 = verify_credentials-IsSound c s n password salt writes.migration h in
    let t = consume_second_factor c r.0 n code now writes.factor in
    let l : IsSound t.0 = consume_second_factor-IsSound c r.0 n code now writes.factor k in
    elim (Option-cases r.1) [
      | inr (f, e) ↦ rw (e, regenerate_recovery_codes) k
      | inl e ↦ elim (Result-cases t.1) [
        | inr (f, d) ↦ rw (e, d, regenerate_recovery_codes) l
        | inl (used, d) ↦ elim (Option-cases (generate_recovery_codes bufs)) [
          | inl g ↦ rw (e, d, g, regenerate_recovery_codes) l
          | inr (recovery, g) ↦
              rw (e, d, g, regenerate_recovery_codes)
                (replace_codes-IsSound c t.0 n recovery writes.change l)
        ]
      ]
    ]
