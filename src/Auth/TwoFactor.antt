-- ===== src/Auth/TwoFactor.antt =====
-- The login in two steps and the management of two-factor authentication: the AuthManager part of
-- backend/twofactor.go, and Login of backend/auth.go. An operation runs by itself; where the code
-- lets go of the lock inside one, nothing happens in between here.
pub mod Login
pub mod Factors
pub mod Sound
pub mod Managed
use linuxgsm_dashboard.Base.{
  ℕ, suc, ◌+◌, ◌*◌, Text, codes, List, [], ◌∷◌, ◌++◌, Bool, true, false, not, ◌&&◌, ◌||◌, Option,
  none, some, ok, err, Result, ltb, leb, ◌==◌, if◌then◌else◌, eqt, Dict, put, remove, keep_if,
  find_index, set, remove_at, length, map,
}
use linuxgsm_dashboard.User.{User}
use linuxgsm_dashboard.Passwords.{Crypto}
use linuxgsm_dashboard.Totp.{
  verify_totp, hash_recovery_code, generate_totp_secret, generate_recovery_codes,
}
use linuxgsm_dashboard.Auth.{
  Auth, Failure, LoginChallenge, PendingSetup, saved, find_user, create_session,
  invalidate_user_sessions, second, random_failed, save_failed, user_not_found, wrong_password,
  two_factor_required, invalid_code, challenge_expired, two_factor_enabled, two_factor_disabled,
  setup_expired,
}
use linuxgsm_dashboard.Auth.Accounts.{verify_credentials, drop_challenges}

-- 5 minutes
abbrev pub challenge_lifetime : ℕ
challenge_lifetime = 300 * second

abbrev pub challenge_attempts : ℕ
challenge_attempts = 5

-- 15 minutes
abbrev pub setup_lifetime : ℕ
setup_lifetime = 900 * second

-- A session ID, or a token for the second step.
pub data LoginResult : Type 0 where
  session_id : Text → LoginResult
  challenge : Text → LoginResult

-- What a login draws: the salt for a migrated hash, the session ID and its CSRF token, and the token
-- of a challenge.
pub record Draws : Type 0 where
  pub salt : Option Text
  pub session : Option Text
  pub csrf : Option Text
  pub token : Option Text

abbrev pub totp_on : Option (ℕ × User) → Bool
totp_on none = false
totp_on (some (i, u)) = u.totp_enabled

abbrev pub as_session : Auth × Result Failure Text → Auth × Result Failure LoginResult
as_session (s, ok id) = (s, ok (session_id id))
as_session (s, err e) = (s, err e)

-- The challenge for the second step.
unfoldable pub open_challenge : Auth → Text → ℕ → Option Text → Auth × Result Failure LoginResult
open_challenge s username now none = (s, err random_failed)
open_challenge s username now (some token) = (
  record s {
    challenges =
        put token (record { username = username; expiry = now + challenge_lifetime; attempts = 0 })
          s.challenges;
  },
  ok (challenge token),
)

unfoldable pub begin_login :
    Crypto → Auth → Text → Text → ℕ → Draws → Bool → Auth × Result Failure LoginResult
begin_login c s username password now draws disk_ok =
    let (s', failed) = verify_credentials c s username password draws.salt disk_ok in
    elim failed [
      | some e ↦ (s', err e)
      | none ↦
          if totp_on (find_user username s'.users)
          then open_challenge s' username now draws.token
          else as_session (create_session s' username now draws.session draws.csrf)
    ]

abbrev pub session_only : Auth × Result Failure LoginResult → Auth × Result Failure Text
session_only (s, err e) = (s, err e)
session_only (s, ok (session_id id)) = (s, ok id)
session_only (s, ok (challenge token)) = (s, err two_factor_required)

unfoldable pub login : Crypto → Auth → Text → Text → ℕ → Draws → Bool → Auth × Result Failure Text
login c s username password now draws disk_ok =
    session_only (begin_login c s username password now draws disk_ok)

unfoldable pub challenge_user : Auth → Text → ℕ → Option Text
challenge_user s token now = elim (s.challenges token) [
  | none ↦ none
  | some c ↦ if ltb c.expiry now then none else some c.username
]

-- Writes the user at an index; a failing write of the file puts the old record back.
unfoldable pub write_user : Auth → ℕ → User → User → Bool → Auth × Option Failure
write_user s i old new disk_ok =
    let s' = record s { users = set s.users i new } in
    if disk_ok
    then (saved s', none)
    else (record s' { users = set s'.users i old }, some save_failed)

abbrev pub factor_result : Bool → Auth × Option Failure → Auth × Result Failure Bool
factor_result used (s, none) = (s, ok used)
factor_result used (s, some e) = (s, err e)

-- `true` in the result says that a recovery code was used.
unfoldable pub consume_for :
    Crypto → Auth → ℕ → User → Text → Text → ℕ → Bool → Auth × Result Failure Bool
consume_for c s i u username code now disk_ok =
    elim (verify_totp c u.totp_secret code now u.totp_last_step) [
      | some step ↦
          factor_result false (write_user s i u (record u { totp_last_step = step }) disk_ok)
      | none ↦
          elim (find_index (λ h. eqt h (hash_recovery_code c username code)) u.recovery_codes) [
            | none ↦ (s, err invalid_code)
            | some (j, h) ↦ factor_result true (
                write_user s i u (record u { recovery_codes = remove_at u.recovery_codes j })
                  disk_ok)
          ]
    ]

unfoldable pub consume_second_factor :
    Crypto → Auth → Text → Text → ℕ → Bool → Auth × Result Failure Bool
consume_second_factor c s username code now disk_ok = elim (find_user username s.users) [
  | none ↦ (s, err invalid_code)
  | some (i, u) ↦
      if not u.totp_enabled
      then (s, err invalid_code)
      else consume_for c s i u username code now disk_ok
]

abbrev pub forget_challenge : Text → Auth → Auth
forget_challenge token s = record s { challenges = remove token s.challenges }

abbrev pub with_flag : Bool → Auth × Result Failure Text → Auth × Result Failure (Text × Bool)
with_flag used (s, ok id) = (s, ok (id, used))
with_flag used (s, err e) = (s, err e)

-- The session of a completed login.
unfoldable pub finish_login :
    Text
    → LoginChallenge
    → ℕ
    → Draws
    → Auth × Result Failure Bool
    → Auth × Result Failure (Text × Bool)
finish_login token ch now draws (s, err e) = (s, err e)
finish_login token ch now draws (s, ok used) =
    with_flag used
      (create_session (forget_challenge token s) ch.username now draws.session draws.csrf)

unfoldable pub complete_login :
    Crypto → Auth → Text → Text → ℕ → Draws → Bool → Auth × Result Failure (Text × Bool)
complete_login c s token code now draws disk_ok = elim (s.challenges token) [
  | none ↦ (forget_challenge token s, err challenge_expired)
  | some ch ↦
      if ltb ch.expiry now
      then (forget_challenge token s, err challenge_expired)
      else if ltb challenge_attempts (ch.attempts + 1)
      then (forget_challenge token s, err challenge_expired)
      else let counted = record s {
        challenges = put token (record ch { attempts = ch.attempts + 1 }) s.challenges;
      } in
        finish_login token ch now draws
          (consume_second_factor c counted ch.username code now disk_ok)
]

pub record TwoFactorStatus : Type 0 where
  pub enabled : Bool
  pub recovery_codes_left : ℕ

unfoldable pub two_factor_status_for : Auth → Text → TwoFactorStatus
two_factor_status_for s username = elim (find_user username s.users) [
  | none ↦ record { enabled = false; recovery_codes_left = 0 }
  | some (i, u) ↦ record { enabled = u.totp_enabled; recovery_codes_left = length u.recovery_codes }
]

-- The result is the secret; the otpauth URI made of it for the QR code is left out.
unfoldable pub start_two_factor_setup :
    Crypto → Auth → Text → Text → ℕ → Option Text → Option Text → Bool → Auth × Result Failure Text
start_two_factor_setup c s username password now salt bytes disk_ok =
    let (s', failed) = verify_credentials c s username password salt disk_ok in
    elim failed [
      | some e ↦ (s', err wrong_password)
      | none ↦
          if (two_factor_status_for s' username).enabled
          then (s', err two_factor_enabled)
          else elim (generate_totp_secret c bytes) [
            | none ↦ (s', err random_failed)
            | some secret ↦ (
              record s' {
                setups =
                    put username (record { secret = secret; expiry = now + setup_lifetime })
                      s'.setups;
              },
              ok secret,
            )
          ]
    ]

abbrev pub hashed_codes : Crypto → Text → List Text → List Text
hashed_codes c username [] = []
hashed_codes c username (code ∷ rest) =
    hash_recovery_code c username code ∷ hashed_codes c username rest

abbrev pub enrolled : Crypto → User → Text → Text → ℕ → List Text → User
enrolled c u username secret step recovery = record u {
  totp_enabled = true;
  totp_secret = secret;
  totp_last_step = step;
  recovery_codes = hashed_codes c username recovery;
}

-- The loop over the users of ConfirmTwoFactorSetup.
unfoldable pub enroll :
    Crypto → Auth → Text → Text → ℕ → List Text → Text → Bool → Auth × Result Failure (List Text)
enroll c s username secret step recovery keep_session disk_ok = elim (find_user username s.users) [
  | none ↦ (s, err user_not_found)
  | some (i, u) ↦
      if u.totp_enabled
      then (s, err two_factor_enabled)
      else let s' = record s {
        users = set s.users i (enrolled c u username secret step recovery);
      } in
        if not disk_ok then (record s' { users = set s'.users i u }, err save_failed) else (
          let t = saved s' in
              invalidate_user_sessions (record t { setups = remove username t.setups }) username
                keep_session,
          ok recovery,
        )
]

unfoldable pub confirm_two_factor_setup :
    Crypto
    → Auth
    → Text
    → Text
    → Text
    → ℕ
    → Option (List Text)
    → Bool
    → Auth × Result Failure (List Text)
confirm_two_factor_setup c s username code keep_session now bufs disk_ok =
    elim (s.setups username) [
      | none ↦ (record s { setups = remove username s.setups }, err setup_expired)
      | some setup ↦
          if ltb setup.expiry now
          then (record s { setups = remove username s.setups }, err setup_expired)
          else elim (verify_totp c setup.secret code now 0) [
            | none ↦ (s, err invalid_code)
            | some step ↦ elim (generate_recovery_codes bufs) [
              | none ↦ (s, err random_failed)
              | some recovery ↦ enroll c s username setup.secret step recovery keep_session disk_ok
            ]
          ]
    ]

unfoldable pub clear_two_factor : Auth → Text → Text → Bool → Auth × Option Failure
clear_two_factor s username keep_session disk_ok = elim (find_user username s.users) [
  | none ↦ (s, some user_not_found)
  | some (i, u) ↦
      if not u.totp_enabled
      then (s, some two_factor_disabled)
      else let s' = record s {
        users = set s.users i (record u {
          totp_enabled = false;
          totp_secret = [];
          totp_last_step = 0;
          recovery_codes = [];
        });
      } in
        if not disk_ok then (record s' { users = set s'.users i u }, some save_failed) else (
          drop_challenges username (invalidate_user_sessions (saved s') username keep_session),
          none,
        )
]

unfoldable pub reset_two_factor : Auth → Text → Bool → Auth × Option Failure
reset_two_factor s username disk_ok = clear_two_factor s username [] disk_ok

-- Each write of the configuration may fail by itself.
pub record Writes : Type 0 where
  pub migration : Bool
  pub factor : Bool
  pub change : Bool

unfoldable pub disable_two_factor :
    Crypto → Auth → Text → Text → Text → Text → ℕ → Option Text → Writes → Auth × Option Failure
disable_two_factor c s username password code keep_session now salt writes =
    let (s', failed) = verify_credentials c s username password salt writes.migration in
    elim failed [
      | some e ↦ (s', some wrong_password)
      | none ↦
          let (t, factor) = consume_second_factor c s' username code now writes.factor in
          elim factor [
            | err e ↦ (t, some e)
            | ok used ↦ clear_two_factor t username keep_session writes.change
          ]
    ]

-- The loop over the users of RegenerateRecoveryCodes.
unfoldable pub replace_codes :
    Crypto → Auth → Text → List Text → Bool → Auth × Result Failure (List Text)
replace_codes c s username recovery disk_ok = elim (find_user username s.users) [
  | none ↦ (s, err user_not_found)
  | some (i, u) ↦
      let s' = record s {
        users = set s.users i (record u { recovery_codes = hashed_codes c username recovery });
      } in
      if disk_ok
      then (saved s', ok recovery)
      else (record s' { users = set s'.users i u }, err save_failed)
]

unfoldable pub regenerate_recovery_codes :
    Crypto
    → Auth
    → Text
    → Text
    → Text
    → ℕ
    → Option Text
    → Option (List Text)
    → Writes
    → Auth × Result Failure (List Text)
regenerate_recovery_codes c s username password code now salt bufs writes =
    let (s', failed) = verify_credentials c s username password salt writes.migration in
    elim failed [
      | some e ↦ (s', err wrong_password)
      | none ↦
          let (t, factor) = consume_second_factor c s' username code now writes.factor in
          elim factor [
            | err e ↦ (t, err e)
            | ok used ↦ elim (generate_recovery_codes bufs) [
              | none ↦ (t, err random_failed)
              | some recovery ↦ replace_codes c t username recovery writes.change
            ]
          ]
    ]
