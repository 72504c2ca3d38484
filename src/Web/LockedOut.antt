-- ===== src/Web/LockedOut.antt =====
-- About handleLogin of main.go after wrong passwords: the limiter holds the next login for that user
-- back before its password is looked at.
use linuxgsm_dashboard.Base.{
  ℕ, ◌+◌, ◌≤◌, ◌<◌, ◌≡◌, ◌≢◌, ◌∙◌, refl, ap, Text, codes, ◌++◌, Bool, true, false, some, Result, ok,
  err, length, eqt, eqt_iff,
}
use linuxgsm_dashboard.Passwords.{Crypto}
use linuxgsm_dashboard.Limiter.{Limiter, Entry, lookup, reserve, done}
use linuxgsm_dashboard.Limiter.Blocks.{IsBlocked, reserve_blocked, failed_attempt}
use linuxgsm_dashboard.Auth.{Failure}
use linuxgsm_dashboard.Auth.TwoFactor.{LoginResult, session_id, challenge, begin_login}
use linuxgsm_dashboard.Web.{App, Request, refused, retry}
use linuxgsm_dashboard.Web.Login.{
  LoginMoment, lower, login_keys, retry_seconds, audited, finish_login, succeeded, login_result,
  attempt_login, bad_credentials, handle_login,
}

abbrev pub ip_key : Request → Text
ip_key r = codes "ip:" ++ r.ip

abbrev pub user_key : Text → Text
user_key username = codes "user:" ++ lower username

keys_apart : (r : Request) (username : Text) → ip_key r ≢ user_key username
unfolding eqt
keys_apart r username e =
    let h : eqt (ip_key r) (user_key username) ≡ true =
      (eqt_iff (ip_key r) (user_key username)).1 e in
    cc

-- A login for a user whose key is blocked is told to wait, and only the limiter notices.
held_back :
    (c : Crypto) (username password : Text) (m : LoginMoment) (a : App) (r : Request)
    → bad_credentials username password ≡ false
    → IsBlocked a.limiter (user_key username) m.now
    → ((wait : ℕ) × ((handle_login c (ok (username, password)) m a r).1 ≡ retry 429 wait))
      × ((handle_login c (ok (username, password)) m a r).0.auth ≡ a.auth)
unfolding handle_login attempt_login
held_back c username password m a r fine b =
    let h =
      reserve_blocked (ip_key r) (user_key username) (keys_apart r username) a.limiter m.now b in
    rw (handle_login, fine, h)
      ((retry_seconds (reserve a.limiter m.now (login_keys r.ip username)).2, refl), refl)

finished_answer :
    (m : LoginMoment) (username id details : Text) (a : App) (r : Request)
    → (finish_login m username id details a r).1 ≢ refused 401
unfolding finish_login
finished_answer m username id details a r h = cc

-- A login answered with 401 behind the limiter had a wrong password; the state it leaves.
refused_result :
    (m : LoginMoment) (username : Text) (a : App) (r : Request)
    (result : Result Failure LoginResult)
    → (login_result m username a r result).1 ≡ refused 401
    → (succeeded result ≡ false) × ((login_result m username a r result).0.limiter ≡ a.limiter)
unfolding login_result audited
refused_result m username a r (err e) h = (refl, refl)
refused_result m username a r (ok (challenge token)) h = cc
refused_result m username a r (ok (session_id id)) h =
    absurd (finished_answer m username id (codes "User logged in successfully") a r h)

refused_attempt :
    (c : Crypto) (username password : Text) (m : LoginMoment) (a : App) (r : Request)
    (place : Limiter × Bool × ℕ)
    → (attempt_login c username password m a r place).1 ≡ refused 401
    → (place.1 ≡ true)
      × ((attempt_login c username password m a r place).0.limiter
          ≡ done place.0 m.later m.order (login_keys r.ip username) false)
unfolding attempt_login
refused_attempt c username password m a r (l, false, wait) h = cc
refused_attempt c username password m a r (l, true, wait) h =
    let begun = begin_login c a.auth username password m.later m.draws m.config_ok in
    let (failed, kept) =
      refused_result m username
        (record a {
          auth = begun.0;
          limiter = done l m.later m.order (login_keys r.ip username) (succeeded begun.1);
        })
        r begun.1 h in
    (refl, kept ∙ ap (done l m.later m.order (login_keys r.ip username)) failed)

refused_login :
    (c : Crypto) (username password : Text) (m : LoginMoment) (a : App) (r : Request)
    → bad_credentials username password ≡ false
    → (handle_login c (ok (username, password)) m a r).1 ≡ refused 401
    → ((reserve a.limiter m.now (login_keys r.ip username)).1 ≡ true)
      × ((handle_login c (ok (username, password)) m a r).0.limiter
          ≡ done
              (reserve a.limiter m.now (login_keys r.ip username)).0
              m.later
              m.order
              (login_keys r.ip username)
              false)
unfolding handle_login
refused_login c username password m a r fine h =
    rw (handle_login, fine)
      (refused_attempt c username password m a r
        (reserve a.limiter m.now (login_keys r.ip username)) (rw (handle_login, fine) at h))

-- When the free tries of a user are used up, a wrong password locks the user name out: after a login
-- that is refused with 401, any login for the same name, whatever its case, its password and the
-- address it comes from, is answered with 429 during the shortest cooldown, and its password is not
-- looked at: users and sessions stay as they are. Names and passwords have accepted lengths, the
-- limiter's table has room, its shortest cooldown is not above its longest, the answer to the first
-- login comes after its request and before the failed tries are forgotten, and so does the second
-- login's request.
pub locked_out :
    (c : Crypto) (username password username' password' : Text) (m m' : LoginMoment) (a : App)
    (r r' : Request) (e : Entry)
    → bad_credentials username password ≡ false
    → bad_credentials username' password' ≡ false
    → lower username' ≡ lower username
    → (handle_login c (ok (username, password)) m a r).1 ≡ refused 401
    → lookup (user_key username) a.limiter.entries ≡ some e
    → a.limiter.free_tries ≤ e.failures
    → length a.limiter.entries < a.limiter.max_entries
    → a.limiter.base_delay ≤ a.limiter.max_delay
    → m.now ≤ m.later
    → m.later ≤ e.last_failure + a.limiter.forget_after
    → m'.now < m.later + a.limiter.base_delay
    → m'.now ≤ m.later + a.limiter.forget_after
    → ((wait : ℕ) × ((handle_login c
            (ok (username', password'))
            m'
            (handle_login c (ok (username, password)) m a r).0
            r').1
          ≡ retry 429 wait))
      × ((handle_login c
            (ok (username', password'))
            m'
            (handle_login c (ok (username, password)) m a r).0
            r').0.auth
          ≡ (handle_login c (ok (username, password)) m a r).0.auth)
locked_out c username password username' password' m m' a r r' e fine fine' same h f used room fair
      order recent soon kept =
    let (placed, left) = refused_login c username password m a r fine h in
    let b =
      failed_attempt (ip_key r) (user_key username) (keys_apart r username) a.limiter m.now m.later
        m'.now m.order e room f order recent used fair soon kept placed in
    held_back c username' password' m' (handle_login c (ok (username, password)) m a r).0 r' fine'
      (rw (left, same) b)
