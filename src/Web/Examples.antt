-- ===== src/Web/Examples.antt =====
-- Requests and logins on a small server.
use linuxgsm_dashboard.Base.{
  ℕ, ◌+◌, ◌*◌, ◌≡◌, ◌⊎◌, refl, Text, codes, [], ◌∷◌, true, false, none, some, ok, arith, eqt, put,
  remove,
}
use linuxgsm_dashboard.User.{User}
use linuxgsm_dashboard.Passwords.{
  verify_password, hash_password, is_legacy_password_hash, hex_encode, to_lower,
}
use linuxgsm_dashboard.Passwords.Examples.{toy}
use linuxgsm_dashboard.Totp.{
  verify_totp, totp_code, typed_code, current_step, trim_space, trim_left, trim_right, truncated,
  uint32_at, six_digits,
}
use linuxgsm_dashboard.Limiter.{
  Entry, new_login_limiter, lookup, allow, allow_loop, any_busy, reserve,
}
use linuxgsm_dashboard.Auth.{
  get_user, LoginChallenge, find_user, create_session, get_session, session_over, logout,
}
use linuxgsm_dashboard.Auth.Accounts.{verify_credentials, upgrade_hash}
use linuxgsm_dashboard.Auth.TwoFactor
use linuxgsm_dashboard.Auth.TwoFactor.{
  begin_login, challenge_user, complete_login, consume_second_factor, consume_for, write_user,
}
use linuxgsm_dashboard.Auth.Examples.{small}
use linuxgsm_dashboard.Auth.Examples.Factors.{plain, calm, draws, good_code, time}
use linuxgsm_dashboard.Authz.Examples.{guest}
use linuxgsm_dashboard.Web.{
  current_user, with_auth, App, Request, refused, retry, logged_in, served, UserHandler,
  csrf_protect, require_admin,
}
use linuxgsm_dashboard.Web.Visits.{day, after_requests, current_user_iff}
use linuxgsm_dashboard.Web.Gate.{Decided, admin_gate}
use linuxgsm_dashboard.Web.Login.{
  LoginMoment, handle_login, attempt_login, login_result, finish_login, handle_login_second_factor,
  attempt_code, code_result, discard_old, login_keys, code_keys,
}
use linuxgsm_dashboard.Web.LoggedIn.{SignedIn, handle_login-SignedIn}
use linuxgsm_dashboard.Web.SecondStep.{handle_login_second_factor-SignedIn}
use linuxgsm_dashboard.Web.LockedOut.{locked_out, user_key}
use linuxgsm_dashboard.Web.Routes.{RoutePolicy, Servers, handle_server}
use linuxgsm_dashboard.Web.Routed.{IsRouted, Guarded, server_gate, parts, route_handler}
use linuxgsm_dashboard.Web.RouteTable.{viewers_post}

abbrev app : App
app = record {
  auth = calm;
  limiter = new_login_limiter;
  audit_log = none;
  agent_mode = false;
  mode = [];
  servers = [];
}

abbrev post : Request
post = record {
  method = codes "POST";
  path = codes "/api/servers/lxc-1~vhserver/action";
  host = codes "panel";
  origin = codes "panel";
  referer = [];
  cookie = some (codes "id");
  csrf_token = codes "t";
  actor = [];
  ip = codes "10.0.0.1";
}

abbrev answers : UserHandler
answers u id a r now = (a, served u.username)

admin_gate_example :
    Decided some answers app post 50 (csrf_protect some (require_admin answers) app post 50)
admin_gate_example = admin_gate some answers app post 50 refl

abbrev moment : LoginMoment
moment = record {
  now = time;
  later = time;
  draws = draws;
  order = [];
  stamp = codes "2026-01-01 00:00:00";
  config_ok = true;
  log_ok = true;
}

signs_in :
    (handle_login toy (ok (codes "boss", codes "secret12")) moment app post).1
    ≡ logged_in (codes "s") (codes "x")
unfolding handle_login attempt_login login_result finish_login discard_old logout reserve allow
    allow_loop lookup any_busy new_login_limiter begin_login verify_credentials upgrade_hash
    verify_password hash_password is_legacy_password_hash hex_encode to_lower find_user eqt
    create_session get_session session_over put remove
signs_in = refl

handle_login-SignedIn_example :
    ((reserve app.limiter moment.now (login_keys post.ip (codes "boss"))).1 ≡ true)
    × ((verify_credentials toy app.auth
          (codes "boss")
          (codes "secret12")
          moment.draws.salt
          moment.config_ok).1
        ≡ none)
    × SignedIn
        (handle_login toy (ok (codes "boss", codes "secret12")) moment app post).0.auth
        moment
        post
        (codes "boss")
        (codes "s")
        (codes "x")
handle_login-SignedIn_example =
    handle_login-SignedIn toy (codes "boss") (codes "secret12") moment app post (codes "s")
      (codes "x") (λ e. cc) signs_in

abbrev with_code : App
with_code = record app { auth = small }

code_signs_in :
    (handle_login_second_factor toy (ok (codes "tok", good_code)) moment with_code post).1
    ≡ logged_in (codes "s") (codes "x")
unfolding handle_login_second_factor challenge_user attempt_code code_result finish_login
    discard_old logout reserve allow allow_loop lookup any_busy new_login_limiter complete_login
    TwoFactor.finish_login create_session put consume_second_factor consume_for write_user find_user
    eqt verify_totp totp_code typed_code current_step trim_space trim_left trim_right truncated
    uint32_at six_digits get_session session_over remove
code_signs_in = refl

handle_login_second_factor-SignedIn_example :
    (ch : LoginChallenge) × (with_code.auth.challenges (codes "tok") ≡ some ch)
    × ((reserve with_code.limiter moment.now (code_keys post.ip ch.username)).1 ≡ true)
    × SignedIn
        (handle_login_second_factor toy (ok (codes "tok", good_code)) moment with_code post).0.auth
        moment
        post
        ch.username
        (codes "s")
        (codes "x")
handle_login_second_factor-SignedIn_example =
    handle_login_second_factor-SignedIn toy (codes "tok") good_code moment with_code post
      (codes "s") (codes "x") (λ e. cc) code_signs_in

abbrev five_failures : Entry
five_failures = record { failures = 5; last_failure = 10; blocked_till = 0 }

abbrev guessed : App
guessed = record app {
  limiter = record new_login_limiter { entries = (user_key (codes "boss"), five_failures) ∷ [] };
}

wrong_password :
    (handle_login toy (ok (codes "boss", codes "wrong")) moment guessed post).1 ≡ refused 401
unfolding handle_login attempt_login login_result reserve allow allow_loop lookup any_busy
    new_login_limiter begin_login verify_credentials verify_password hash_password
    is_legacy_password_hash hex_encode to_lower find_user eqt
wrong_password = refl

abbrev next_try : LoginMoment
next_try = record moment { now = time + 1000 }

locked_out_example :
    ((wait : ℕ) × ((handle_login toy
          (ok (codes "BOSS", codes "secret12"))
          next_try
          (handle_login toy (ok (codes "boss", codes "wrong")) moment guessed post).0
          post).1
        ≡ retry 429 wait))
    × ((handle_login toy
          (ok (codes "BOSS", codes "secret12"))
          next_try
          (handle_login toy (ok (codes "boss", codes "wrong")) moment guessed post).0
          post).0.auth
        ≡ (handle_login toy (ok (codes "boss", codes "wrong")) moment guessed post).0.auth)
unfolding lookup eqt new_login_limiter
locked_out_example =
    locked_out toy (codes "boss") (codes "wrong") (codes "BOSS") (codes "secret12") moment next_try
      guessed post post five_failures refl refl refl wrong_password refl (omega arith) (omega arith)
      (omega arith) (omega arith) (omega arith) (omega arith) (omega arith)

abbrev servers : Servers
servers = record {
  here = λ id. false;
  on_nodes = λ id. true;
  local = λ id route. answers;
  remote = λ id route. answers;
}

server_gate_example :
    Guarded servers guest
      (codes "id")
      app
      post
      50
      (handle_server servers guest (codes "id") app post 50)
    × ((id route : Text) (p : RoutePolicy)
        → parts post ≡ some (id, route)
        → IsRouted servers app post guest id route p
        → handle_server servers guest (codes "id") app post 50
          ≡ route_handler servers id route guest (codes "id") app post 50)
server_gate_example = server_gate servers guest (codes "id") app post 50

abbrev viewer : User
viewer = record guest { permissions = [] }

viewers_post_example :
    ((status : ℕ) × (handle_server servers viewer (codes "id") app post 50 ≡ (app, refused status)))
    ⊎ ((id : Text) × (parts post ≡ some (id, codes "action"))
        × (handle_server servers viewer (codes "id") app post 50
            ≡ route_handler servers id (codes "action") viewer (codes "id") app post 50))
viewers_post_example = viewers_post servers app post viewer (codes "id") 50 (λ e. cc) refl refl

abbrev returning : Request
returning = record post { cookie = some (codes "new") }

boss_known : get_user app.auth (codes "boss") ≡ some plain
unfolding get_user find_user eqt
boss_known = refl

current_user_iff_example :
    (current_user
      (after_requests
        (with_auth
          (create_session app.auth (codes "boss") 0 (some (codes "new")) (some (codes "t"))).0
          app)
        returning
        (day ∷ 2 * day ∷ []))
      returning
      (3 * day)).1
    ≡ some (plain, codes "new")
current_user_iff_example =
    (current_user_iff app returning (codes "boss") (codes "new") (codes "t") 0 (3 * day)
        (day ∷ 2 * day ∷ []) plain refl refl (λ e. cc)).1
      (boss_known, refl)
