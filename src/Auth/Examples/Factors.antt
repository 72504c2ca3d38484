-- ===== src/Auth/Examples/Factors.antt =====
-- A login with a second factor on the small state.
use linuxgsm_dashboard.Base.{
  ℕ, ◌≤◌, ◌<◌, ◌≡◌, refl, Text, codes, List, [], ◌∷◌, true, false, none, some, ok, err, eqt, put,
}
use linuxgsm_dashboard.User.{User}
use linuxgsm_dashboard.Passwords.Examples.{toy}
use linuxgsm_dashboard.Totp.{
  verify_totp, totp_code, typed_code, current_step, trim_space, trim_left, trim_right, truncated,
  uint32_at, six_digits,
}
use linuxgsm_dashboard.Auth.{Auth, LoginChallenge, find_user, create_session, challenge_expired}
use linuxgsm_dashboard.Auth.Examples.{boss, small}
use linuxgsm_dashboard.Auth.TwoFactor.{
  begin_login, session_id, totp_on, Draws, complete_login, consume_second_factor, consume_for,
  write_user, finish_login,
}
use linuxgsm_dashboard.Passwords.{
  verify_password, hash_password, is_legacy_password_hash, hex_encode, to_lower,
}
use linuxgsm_dashboard.Auth.Accounts.{verify_credentials, upgrade_hash}
use linuxgsm_dashboard.Auth.TwoFactor.Login.{
  begin_login_session, Guess, tries, AllWrong, after, complete_login_once, counted,
  wrong_codes_lock,
}
use linuxgsm_dashboard.Auth.TwoFactor.Factors.{UsedUp, Recorded, consume_uses_up}

abbrev pub draws : Draws
draws = record { salt = none; session = some (codes "s"); csrf = some (codes "x"); token = none }

abbrev pub good_code : Text
good_code = codes "744072"

abbrev pub time : ℕ
time = 90_000_000_000

boss_found : find_user (codes "boss") small.users ≡ some (0, boss)
unfolding find_user eqt
boss_found = refl

code_taken : (consume_second_factor toy small (codes "boss") good_code time true).1 ≡ ok false
unfolding consume_second_factor consume_for write_user find_user eqt verify_totp totp_code
    typed_code current_step trim_space trim_left trim_right truncated uint32_at six_digits
code_taken = refl

consume_uses_up_example :
    (v : User) × UsedUp toy boss (codes "boss") good_code time false v
    × Recorded small 0 v (consume_second_factor toy small (codes "boss") good_code time true).0
consume_uses_up_example =
    consume_uses_up toy small (codes "boss") good_code time true false 0 boss boss_found code_taken

logged_in :
    (complete_login toy small (codes "tok") good_code time draws true).1 ≡ ok (codes "s", false)
unfolding complete_login finish_login create_session put consume_second_factor consume_for
    write_user find_user eqt verify_totp totp_code typed_code current_step trim_space trim_left
    trim_right truncated uint32_at six_digits
logged_in = refl

complete_login_once_example :
    (ch : LoginChallenge) × (small.challenges (codes "tok") ≡ some ch)
    × (time ≤ ch.expiry)
    × (ch.attempts < 5)
    × ((consume_second_factor toy
          (counted small (codes "tok") ch)
          ch.username
          good_code
          time
          true).1
        ≡ ok false)
    × ((complete_login toy small (codes "tok") good_code time draws true).0.challenges (codes "tok")
        ≡ none)
complete_login_once_example =
    complete_login_once toy small (codes "tok") good_code time draws true (codes "s", false)
      logged_in

abbrev guess : Guess
guess = record { code = codes "000000"; now = time; draws = draws; disk_ok = true }

abbrev guesses : List Guess
guesses = guess ∷ guess ∷ guess ∷ guess ∷ guess ∷ []

abbrev try_again : LoginChallenge
try_again = record { username = codes "boss"; expiry = 500_000_000_000; attempts = 0 }

challenge_open : small.challenges (codes "tok") ≡ some try_again
unfolding put eqt
challenge_open = refl

all_wrong : AllWrong toy small (codes "tok") guesses
unfolding complete_login finish_login create_session put consume_second_factor consume_for
    write_user find_user eqt verify_totp totp_code typed_code current_step trim_space trim_left
    trim_right truncated uint32_at six_digits
all_wrong = (refl, (refl, (refl, (refl, (refl, tt)))))

wrong_codes_lock_example :
    (tries toy (after toy small (codes "tok") guesses) (codes "tok") guess).1
    ≡ err challenge_expired
wrong_codes_lock_example =
    wrong_codes_lock toy small (codes "tok") guesses try_again guess challenge_open all_wrong refl

abbrev pub plain : User
plain = record boss {
  password_hash = codes "0808080808080808080808080808080808080808080808080808080808080808";
  totp_enabled = false;
}

abbrev pub calm : Auth
calm = record small { users = plain ∷ [] }

pub signed_in :
    (begin_login toy calm (codes "boss") (codes "secret12") time draws true).1
    ≡ ok (session_id (codes "s"))
unfolding begin_login verify_credentials upgrade_hash verify_password hash_password
    is_legacy_password_hash hex_encode to_lower find_user eqt create_session put
signed_in = refl

begin_login_session_example :
    ((verify_credentials toy calm (codes "boss") (codes "secret12") draws.salt true).1 ≡ none)
    × (totp_on (
          find_user
            (codes "boss")
            (verify_credentials toy calm (codes "boss") (codes "secret12") draws.salt true).0.users)
        ≡ false)
begin_login_session_example =
    begin_login_session toy calm (codes "boss") (codes "secret12") time draws true (codes "s")
      signed_in
