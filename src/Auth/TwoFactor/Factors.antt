-- ===== src/Auth/TwoFactor/Factors.antt =====
-- About consumeSecondFactorLocked of backend/twofactor.go: what an accepted code changes.
use linuxgsm_dashboard.Base.{
  ℕ, ◌≡◌, refl, ap, ◌∙◌, inl, inr, Text, Bool, true, false, not, some, ok, arith, eqt, eqt_iff,
  get_elem?, set, remove_at, find_index, Option-cases, Bool-cases,
}
use linuxgsm_dashboard.Base.Finds.{find_index-get}
use linuxgsm_dashboard.User.{User}
use linuxgsm_dashboard.Passwords.{Crypto}
use linuxgsm_dashboard.Totp.{verify_totp, hash_recovery_code}
use linuxgsm_dashboard.Totp.Replay.{IsFresh, verify_totp-IsFresh}
use linuxgsm_dashboard.Auth.{Auth, saved, find_user}
use linuxgsm_dashboard.Auth.TwoFactor.{
  write_user, factor_result, consume_for, consume_second_factor,
}

-- What accepting a code changes in the user `u` that it belongs to: the step of a one-time password
-- is stored, and it is fresh; or the recovery code is struck off the list.
pub data UsedUp (c : Crypto) (u : User) (n code : Text) (now : ℕ) : Bool → User → Type 0 where
  by_totp :
      {used : Bool} {v : User} (step : ℕ)
      → used ≡ false
      → IsFresh c u.totp_secret code now u.totp_last_step step
      → v ≡ record u { totp_last_step = step }
      → UsedUp c u n code now used v
  by_recovery :
      {used : Bool} {v : User} (j : ℕ)
      → used ≡ true
      → get_elem? u.recovery_codes j ≡ some (hash_recovery_code c n code)
      → v ≡ record u { recovery_codes = remove_at u.recovery_codes j }
      → UsedUp c u n code now used v

abbrev pub Recorded : Auth → ℕ → User → Auth → Type 0
Recorded s i v t =
    (t.users ≡ set s.users i v)
    × (t.disk ≡ some (record { users = set s.users i v; port = s.port }))

recorded :
    (used : Bool) (s : Auth) (i : ℕ) (u v : User) (disk_ok : Bool) (out : Bool)
    → (factor_result used (write_user s i u v disk_ok)).1 ≡ ok out
    → (out ≡ used) × Recorded s i v (factor_result used (write_user s i u v disk_ok)).0
unfolding write_user saved
recorded used s i u v true out h = (ground arith, (refl, refl))
recorded used s i u v false out h = cc

used_for :
    (c : Crypto) (s : Auth) (i : ℕ) (u : User) (n code : Text) (now : ℕ) (disk_ok used : Bool)
    → (consume_for c s i u n code now disk_ok).1 ≡ ok used
    → (v : User) × UsedUp c u n code now used v
      × Recorded s i v (consume_for c s i u n code now disk_ok).0
unfolding consume_for
used_for c s i u n code now disk_ok used h =
    elim (Option-cases (verify_totp c u.totp_secret code now u.totp_last_step)) [
      | inr (step, e) ↦
          let v = record u { totp_last_step = step } in
          let (same, r) = recorded false s i u v disk_ok used (rw (e, consume_for) at h) in
          (
            v,
            by_totp step same (verify_totp-IsFresh c u.totp_secret code now u.totp_last_step step e)
                refl,
            rw (e, consume_for) r,
          )
      | inl e ↦
          elim (Option-cases
            (find_index (λ x. eqt x (hash_recovery_code c n code)) u.recovery_codes)) [
              | inl d ↦ ground arith
              | inr ((j, x), d) ↦
                  let v = record u { recovery_codes = remove_at u.recovery_codes j } in
                  let (same, r) =
                    recorded true s i u v disk_ok used (rw (e, d, consume_for) at h) in
                  let (at, hit) =
                    find_index-get (λ x. eqt x (hash_recovery_code c n code)) u.recovery_codes j x
                      d in
                  (
                    v,
                    by_recovery j same
                        (at ∙ ap some ((eqt_iff x (hash_recovery_code c n code)).0 hit)) refl,
                    rw (e, d, consume_for) r,
                  )
            ]
    ]

-- An accepted second factor of a user is used up, in memory and in config.json: either the step of a
-- one-time password, which is later than every step used before, is stored as used, or the recovery
-- code is removed from the user's list. Nothing else changes among the users.
pub consume_uses_up :
    (c : Crypto) (s : Auth) (n code : Text) (now : ℕ) (disk_ok used : Bool) (i : ℕ) (u : User)
    → find_user n s.users ≡ some (i, u)
    → (consume_second_factor c s n code now disk_ok).1 ≡ ok used
    → (v : User) × UsedUp c u n code now used v
      × Recorded s i v (consume_second_factor c s n code now disk_ok).0
unfolding consume_second_factor
consume_uses_up c s n code now disk_ok used i u e h = elim (Bool-cases (not u.totp_enabled)) [
  | inl off ↦ ground arith
  | inr on ↦
      let (v, up, r) =
        used_for c s i u n code now disk_ok used (rw (e, on, consume_second_factor) at h) in
      (v, up, rw (e, on, consume_second_factor) r)
]
