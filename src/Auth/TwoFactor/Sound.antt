-- ===== src/Auth/TwoFactor/Sound.antt =====
-- About CompleteLogin and consumeSecondFactorLocked of backend/twofactor.go under IsSound.
use linuxgsm_dashboard.Base.{
  ℕ, ◌+◌, ◌≡◌, refl, inl, inr, Text, Bool, true, false, not, Option, none, some, ok, err, Result,
  ltb, eqt, get_elem?, find_index, Option-cases, Bool-cases,
}
use linuxgsm_dashboard.User.{User}
use linuxgsm_dashboard.Passwords.{Crypto}
use linuxgsm_dashboard.Totp.{verify_totp, hash_recovery_code}
use linuxgsm_dashboard.Auth.{Auth, Failure, LoginChallenge, find_user, create_session}
use linuxgsm_dashboard.Auth.Accounts.Admins.{IsSound, saved-IsSound, same-UsersOk, named_at, undone}
use linuxgsm_dashboard.Auth.TwoFactor.{
  Draws, open_challenge, write_user, consume_for, consume_second_factor, finish_login,
  complete_login, forget_challenge, with_flag, challenge_attempts, factor_result,
}

pub create_session-IsSound :
    (s : Auth) (n : Text) (now : ℕ) (id csrf : Option Text)
    → IsSound s
    → IsSound (create_session s n now id csrf).0
unfolding create_session
create_session-IsSound s n now none csrf h = h
create_session-IsSound s n now (some id) none h = h
create_session-IsSound s n now (some id) (some csrf) h = record { memory = h.memory; file = h.file }

pub open_challenge-IsSound :
    (s : Auth) (n : Text) (now : ℕ) (token : Option Text)
    → IsSound s
    → IsSound (open_challenge s n now token).0
unfolding open_challenge
open_challenge-IsSound s n now none h = h
open_challenge-IsSound s n now (some token) h = record { memory = h.memory; file = h.file }

write_user-IsSound :
    (s : Auth) (i : ℕ) (u v : User) (disk_ok : Bool)
    → get_elem? s.users i ≡ some u
    → v.username ≡ u.username
    → v.role ≡ u.role
    → IsSound s
    → IsSound (write_user s i u v disk_ok).0
unfolding write_user
write_user-IsSound s i u v true at n r h =
    saved-IsSound _ (same-UsersOk s.users i u v at n r h.memory)
write_user-IsSound s i u v false at n r h = undone s i u v at h

factor_result-IsSound :
    (used : Bool) (r : Auth × Option Failure) → IsSound r.0 → IsSound (factor_result used r).0
factor_result-IsSound used (s, none) h = h
factor_result-IsSound used (s, some e) h = h

consume_for-IsSound :
    (c : Crypto) (s : Auth) (i : ℕ) (u : User) (n code : Text) (now : ℕ) (disk_ok : Bool)
    → get_elem? s.users i ≡ some u
    → IsSound s
    → IsSound (consume_for c s i u n code now disk_ok).0
unfolding consume_for
consume_for-IsSound c s i u n code now disk_ok at h =
    elim (Option-cases (verify_totp c u.totp_secret code now u.totp_last_step)) [
      | inr (step, e) ↦
          rw (e, consume_for)
            (factor_result-IsSound false _ (write_user-IsSound s i u _ disk_ok at refl refl h))
      | inl e ↦
          elim (Option-cases
            (find_index (λ x. eqt x (hash_recovery_code c n code)) u.recovery_codes)) [
              | inl d ↦ rw (e, d, consume_for) h
              | inr ((j, x), d) ↦
                  rw (e, d, consume_for)
                    (factor_result-IsSound true _
                      (write_user-IsSound s i u _ disk_ok at refl refl h))
            ]
    ]

pub consume_second_factor-IsSound :
    (c : Crypto) (s : Auth) (n code : Text) (now : ℕ) (disk_ok : Bool)
    → IsSound s
    → IsSound (consume_second_factor c s n code now disk_ok).0
unfolding consume_second_factor
consume_second_factor-IsSound c s n code now disk_ok h = elim (Option-cases (find_user n s.users)) [
  | inl e ↦ rw (e, consume_second_factor) h
  | inr ((i, u), e) ↦ elim (Bool-cases (not u.totp_enabled)) [
    | inl off ↦ rw (e, off, consume_second_factor) h
    | inr on ↦
        rw (e, on, consume_second_factor)
          (consume_for-IsSound c s i u n code now disk_ok (named_at n s.users i u e) h)
  ]
]

finish_login-IsSound :
    (token : Text) (ch : LoginChallenge) (now : ℕ) (draws : Draws) (r : Auth × Result Failure Bool)
    → IsSound r.0
    → IsSound (finish_login token ch now draws r).0
unfolding finish_login
finish_login-IsSound token ch now draws (s, err e) h = h
finish_login-IsSound token ch now draws (s, ok used) h =
    flagged (create_session (forget_challenge token s) ch.username now draws.session draws.csrf) (
      create_session-IsSound _ ch.username now draws.session draws.csrf
        (record { memory = h.memory; file = h.file }))
  where
    flagged : (r : Auth × Result Failure Text) → IsSound r.0 → IsSound (with_flag used r).0
    flagged (t, ok id) k = k
    flagged (t, err e) k = k

pub complete_login-IsSound :
    (c : Crypto) (s : Auth) (token code : Text) (now : ℕ) (draws : Draws) (disk_ok : Bool)
    → IsSound s
    → IsSound (complete_login c s token code now draws disk_ok).0
unfolding complete_login
complete_login-IsSound c s token code now draws disk_ok h =
    elim (Option-cases (s.challenges token)) [
      | inl e ↦ rw (e, complete_login) (record { memory = h.memory; file = h.file })
      | inr (ch, e) ↦ elim (Bool-cases (ltb ch.expiry now)) [
        | inl late ↦ rw (e, late, complete_login) (record { memory = h.memory; file = h.file })
        | inr fine ↦ elim (Bool-cases (ltb challenge_attempts (ch.attempts + 1))) [
          | inl many ↦
              rw (e, fine, many, complete_login) (record { memory = h.memory; file = h.file })
          | inr few ↦
              rw (e, fine, few, complete_login)
                (finish_login-IsSound token ch now draws _ (
                  consume_second_factor-IsSound c _ ch.username code now disk_ok
                    (record { memory = h.memory; file = h.file })))
        ]
      ]
    ]
