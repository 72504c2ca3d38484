-- ===== src/Web/Login.antt =====
-- The login handlers of main.go: handleLogin, handleLoginSecondFactor, finishLogin and limitReverify,
-- which bring together the limiter, the password check, the second factor, sessions and the audit log.
-- The body of a request is what decodeJSON gives: an error says whether the body was too large.
use linuxgsm_dashboard.Base.{
  ℕ, ◌+◌, ◌/◌, Text, codes, List, [], ◌∷◌, ◌++◌, Bool, true, false, ◌||◌, Option, none, some,
  Result, ok, err, ltb, if◌then◌else◌, eqt, length, map,
}
use linuxgsm_dashboard.Passwords.{Crypto, to_lower_byte}
use linuxgsm_dashboard.Audit.{log_audit}
use linuxgsm_dashboard.Limiter.{Limiter, reserve, done}
use linuxgsm_dashboard.Auth.{Auth, Session, Failure, second, get_session, logout}
use linuxgsm_dashboard.Auth.TwoFactor.{
  Draws, LoginResult, session_id, challenge, begin_login, challenge_user, complete_login,
}
use linuxgsm_dashboard.Web.{
  App, Request, Answer, refused, retry, logged_in, second_factor, with_auth,
}

-- What a login meets: the time at which it asks the limiter and the time after the check of its
-- password or code, the drawn values, the order in which the limiter's map is ranged over, the
-- clock's text for the audit log, and whether the two files can be written.
pub record LoginMoment : Type 0 where
  pub now : ℕ
  pub later : ℕ
  pub draws : Draws
  pub order : List Text
  pub stamp : Text
  pub config_ok : Bool
  pub log_ok : Bool

unfoldable pub audited : LoginMoment → Text → Text → Text → Text → App → App
audited m username ip action details a = record a {
  audit_log =
      log_audit a.audit_log
        (record {
          timestamp = m.stamp;
          username = username;
          ip = ip;
          action = action;
          details = details;
          server_id = [];
        })
        m.log_ok;
}

-- What decodeJSON answers by itself.
abbrev pub decode_error : Bool → Answer
decode_error too_large = if too_large then refused 413 else refused 400

-- strings.ToLower
abbrev pub lower : Text → Text
lower = map to_lower_byte

abbrev pub login_keys : Text → Text → List Text
login_keys ip username = (codes "ip:" ++ ip) ∷ (codes "user:" ++ lower username) ∷ []

abbrev pub code_keys : Text → Text → List Text
code_keys ip username = (codes "ip:" ++ ip) ∷ (codes "2fa:" ++ lower username) ∷ []

-- Retry-After in whole seconds
abbrev pub retry_seconds : ℕ → ℕ
retry_seconds wait = wait / second + 1

-- The session that the browser presented before logging in.
unfoldable pub discard_old : Option Text → Text → Auth → Auth
discard_old none id s = s
discard_old (some old) id s = if eqt old id then s else logout s old

abbrev pub csrf_of : Option Session → Text
csrf_of none = []
csrf_of (some session) = session.csrf_token

unfoldable pub finish_login : LoginMoment → Text → Text → Text → App → Request → App × Answer
finish_login m username id details a r =
    let (s, session) = get_session (discard_old r.cookie id a.auth) id m.later in
    (
      audited m username r.ip (codes "LOGIN") details (with_auth s a),
      logged_in id (csrf_of session),
    )

abbrev pub succeeded {ℓ κ} : {E : Type ℓ} {A : Type κ} → Result E A → Bool
succeeded (ok _) = true
succeeded (err _) = false

unfoldable pub login_result :
    LoginMoment → Text → App → Request → Result Failure LoginResult → App × Answer
login_result m username a r (err e) = (
  audited m username r.ip (codes "LOGIN_FAILED") (codes "Invalid username or password") a,
  refused 401,
)
login_result m username a r (ok (challenge token)) = (a, second_factor token)
login_result m username a r (ok (session_id id)) =
    finish_login m username id (codes "User logged in successfully") a r

-- The part of handleLogin behind Reserve.
unfoldable pub attempt_login :
    Crypto → Text → Text → LoginMoment → App → Request → Limiter × Bool × ℕ → App × Answer
attempt_login c username password m a r (l, false, wait) =
    (record a { limiter = l }, retry 429 (retry_seconds wait))
attempt_login c username password m a r (l, true, wait) =
    let (s, result) = begin_login c a.auth username password m.later m.draws m.config_ok in
    login_result m username
      (record a {
        auth = s;
        limiter = done l m.later m.order (login_keys r.ip username) (succeeded result);
      })
      r result

abbrev pub bad_credentials : Text → Text → Bool
bad_credentials username password =
    eqt username [] || (ltb 64 (length username) || ltb 1024 (length password))

unfoldable pub handle_login :
    Crypto → Result Bool (Text × Text) → LoginMoment → App → Request → App × Answer
handle_login c (err too_large) m a r = (a, decode_error too_large)
handle_login c (ok (username, password)) m a r =
    if bad_credentials username password
    then (a, refused 401)
    else attempt_login c username password m a r
        (reserve a.limiter m.now (login_keys r.ip username))

abbrev pub recovery_details : Bool → Text
recovery_details true = codes "User logged in with a recovery code"
recovery_details false = codes "User logged in with two-factor authentication"

unfoldable pub code_result :
    LoginMoment → Text → App → Request → Result Failure (Text × Bool) → App × Answer
code_result m username a r (err e) = (
  audited m username r.ip (codes "LOGIN_2FA_FAILED") (codes "Invalid two-factor code") a,
  refused 401,
)
code_result m username a r (ok (id, used_recovery)) =
    finish_login m username id (recovery_details used_recovery) a r

unfoldable pub attempt_code :
    Crypto → Text → Text → Text → LoginMoment → App → Request → Limiter × Bool × ℕ → App × Answer
attempt_code c username token code m a r (l, false, wait) =
    (record a { limiter = l }, retry 429 (retry_seconds wait))
attempt_code c username token code m a r (l, true, wait) =
    let (s, result) = complete_login c a.auth token code m.later m.draws m.config_ok in
    code_result m username
      (record a {
        auth = s;
        limiter = done l m.later m.order (code_keys r.ip username) (succeeded result);
      })
      r result

unfoldable pub handle_login_second_factor :
    Crypto → Result Bool (Text × Text) → LoginMoment → App → Request → App × Answer
handle_login_second_factor c (err too_large) m a r = (a, decode_error too_large)
handle_login_second_factor c (ok (token, code)) m a r = elim (challenge_user a.auth token m.now) [
  | none ↦ (a, refused 401)
  | some username ↦
      attempt_code c username token code m a r (reserve a.limiter m.now (code_keys r.ip username))
]

-- limitReverify: the state, and the answer if the user has to wait.
unfoldable pub limit_reverify : App → Text → ℕ → App × Option Answer
limit_reverify a username now =
    let (l, allowed, wait) = reserve a.limiter now ((codes "user:" ++ lower username) ∷ []) in
    (record a { limiter = l }, if allowed then none else some (retry 429 (retry_seconds wait)))
