-- ===== src/Totp/Examples.antt =====
-- One-time passwords with a stand-in MAC.
use linuxgsm_dashboard.Base.{◌≡◌, codes, refl, some, eqt}
use linuxgsm_dashboard.Passwords.Examples.{toy}
use linuxgsm_dashboard.Totp.{
  verify_totp, totp_code, typed_code, current_step, trim_space, trim_left, trim_right, truncated,
  uint32_at, six_digits,
}
use linuxgsm_dashboard.Totp.Replay.{IsFresh, verify_totp-IsFresh}

-- The MAC of the stand-in is twenty bytes 8, so every code is that of 0x08080808.
accepted_now : verify_totp toy (codes "key") (codes "744 072 ") 90_000_000_000 1 ≡ some 2
unfolding verify_totp totp_code typed_code current_step trim_space trim_left trim_right truncated
    uint32_at six_digits eqt
accepted_now = refl

verify_totp-IsFresh_example : IsFresh toy (codes "key") (codes "744 072 ") 90_000_000_000 1 2
verify_totp-IsFresh_example =
    verify_totp-IsFresh toy (codes "key") (codes "744 072 ") 90_000_000_000 1 2 accepted_now
