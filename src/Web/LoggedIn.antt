-- ===== src/Web/LoggedIn.antt =====
-- About a login that main.go answers with a session: what the session is, and what becomes of the one
-- that the browser had.
use linuxgsm_dashboard.Base.{
  ℕ, ◌+◌, ◌≡◌, ◌≢◌, refl, sym, subst, ◌∙◌, inl, inr, Text, codes, [], Bool, true, false, Option,
  none, some, Result, ok, err, arith, eqt_iff, eqt_refl, eqt_of_ne, put, put_self, remove,
  Bool-cases, Option-cases,
}
use linuxgsm_dashboard.Passwords.{Crypto}
use linuxgsm_dashboard.Limiter.{Limiter, reserve, done}
use linuxgsm_dashboard.Auth.{
  Auth, Session, Failure, create_session, get_session, session_over, logout, session_idle_timeout,
}
use linuxgsm_dashboard.Auth.Accounts.{verify_credentials}
use linuxgsm_dashboard.Auth.TwoFactor.{
  Draws, LoginResult, session_id, challenge, begin_login, open_challenge,
}
use linuxgsm_dashboard.Auth.TwoFactor.Login.{begin_login_session}
use linuxgsm_dashboard.Web.{App, Request, refused, logged_in}
use linuxgsm_dashboard.Web.Login.{
  LoginMoment, login_keys, discard_old, finish_login, succeeded, login_result, attempt_login,
  handle_login, bad_credentials, audited,
}

abbrev pub new_session : Text → ℕ → Text → Session
new_session username now csrf = record {
  username = username;
  expiry = now + session_idle_timeout;
  created = now;
  csrf_token = csrf;
}

-- In the state `s` the session `id` has just been created for the user, its CSRF token is `csrf`, and
-- another session that the browser presented is gone.
pub record SignedIn (s : Auth) (m : LoginMoment) (r : Request) (username id csrf : Text)
    : Type 0 where
  pub stored : s.sessions id ≡ some (new_session username m.later csrf)
  pub old_gone : (old : Text) → r.cookie ≡ some old → old ≢ id → s.sessions old ≡ none

fresh_session :
    (s : Auth) (username id csrf : Text) (now : ℕ)
    → id ≢ []
    → s.sessions id ≡ some (new_session username now csrf)
    → get_session s id now ≡ (
      record s { sessions = put id (new_session username now csrf) s.sessions },
      some (new_session username now csrf),
    )
unfolding get_session session_over
fresh_session s username id csrf now n e = ground (arith, eqt_of_ne id [] n, e)

discard_old_self :
    (cookie : Option Text) (id : Text) (s : Auth)
    → (discard_old cookie id s).sessions id ≡ s.sessions id
unfolding discard_old logout remove
discard_old_self none id s = refl
discard_old_self (some old) id s = ground (arith, eqt_iff old id)

discard_old_other :
    (old id : Text) (s : Auth) → old ≢ id → (discard_old (some old) id s).sessions old ≡ none
unfolding discard_old logout remove
discard_old_other old id s n = ground (arith, eqt_of_ne old id n, eqt_refl old)

put_other :
    (k j : Text) (v : Session) (m : Text → Option Session) → j ≢ k → m j ≡ none → put k v m j ≡ none
unfolding put
put_other k j v m n e = ground (arith, eqt_iff k j, e)

old_session_gone :
    (cookie : Option Text) (old id : Text) (s : Auth)
    → cookie ≡ some old
    → old ≢ id
    → (discard_old cookie id s).sessions old ≡ none
old_session_gone cookie old id s c n = rw c (discard_old_other old id s n)

finish_login-SignedIn :
    (m : LoginMoment) (username id csrf details : Text) (a : App) (r : Request)
    → id ≢ []
    → a.auth.sessions id ≡ some (new_session username m.later csrf)
    → ((finish_login m username id details a r).1 ≡ logged_in id csrf)
      × SignedIn (finish_login m username id details a r).0.auth m r username id csrf
unfolding finish_login audited
finish_login-SignedIn m username id csrf details a r n e =
    let s = discard_old r.cookie id a.auth in
    let kept : s.sessions id ≡ some (new_session username m.later csrf) =
      discard_old_self r.cookie id a.auth ∙ e in
    let g = fresh_session s username id csrf m.later n kept in
    rw (finish_login, g)
      (
        refl,
        record {
          stored = put_self id (new_session username m.later csrf) s.sessions;
          old_gone = λ old c d.
              put_other id old (new_session username m.later csrf) s.sessions d
                (old_session_gone r.cookie old id a.auth c d);
        },
      )

begin_login_stores :
    (c : Crypto) (s : Auth) (n password : Text) (now : ℕ) (draws : Draws) (disk_ok : Bool)
    (id : Text)
    → (begin_login c s n password now draws disk_ok).1 ≡ ok (session_id id)
    → (csrf : Text) × ((begin_login c s n password now draws disk_ok).0.sessions id
        ≡ some (new_session n now csrf))
unfolding begin_login create_session open_challenge put
begin_login_stores c s n password now draws disk_ok id h = elim (Option-cases draws.csrf) [
  | inl e ↦ ground (arith, e)
  | inr (csrf, e) ↦ (csrf, ground (arith, e, eqt_refl id))
]

finish_login_id :
    (m : LoginMoment) (username i id csrf details : Text) (a : App) (r : Request)
    → (finish_login m username i details a r).1 ≡ logged_in id csrf
    → i ≡ id
unfolding finish_login
finish_login_id m username i id csrf details a r h = cc

pub finished-SignedIn :
    (m : LoginMoment) (username i id csrf t details : Text) (a : App) (r : Request)
    → id ≢ []
    → a.auth.sessions i ≡ some (new_session username m.later t)
    → (finish_login m username i details a r).1 ≡ logged_in id csrf
    → SignedIn (finish_login m username i details a r).0.auth m r username id csrf
finished-SignedIn m username i id csrf t details a r n stored h =
    let same : id ≡ i = sym (finish_login_id m username i id csrf details a r h) in
    let given : i ≢ [] = rw same at n in
    let (answer, signed) = finish_login-SignedIn m username i t details a r given stored in
    let token : t ≡ csrf = cc in
    subst (λ x. SignedIn (finish_login m username i details a r).0.auth m r username x csrf)
      (sym same)
      (subst (λ x. SignedIn (finish_login m username i details a r).0.auth m r username i x) token
        signed)

-- A result of the password step in a state that holds the session which it names.
login_result-SignedIn :
    (m : LoginMoment) (username : Text) (a : App) (r : Request)
    (result : Result Failure LoginResult) (id csrf : Text)
    → id ≢ []
    → ((i : Text)
        → result ≡ ok (session_id i)
        → (t : Text) × (a.auth.sessions i ≡ some (new_session username m.later t)))
    → (login_result m username a r result).1 ≡ logged_in id csrf
    → SignedIn (login_result m username a r result).0.auth m r username id csrf
unfolding login_result
login_result-SignedIn m username a r (err e) id csrf n f h = cc
login_result-SignedIn m username a r (ok (challenge token)) id csrf n f h = cc
login_result-SignedIn m username a r (ok (session_id i)) id csrf n f h =
    let (t, stored) = f i refl in
    finished-SignedIn m username i id csrf t (codes "User logged in successfully") a r n stored h

session_result :
    (m : LoginMoment) (username : Text) (a : App) (r : Request)
    (result : Result Failure LoginResult) (id csrf : Text)
    → (login_result m username a r result).1 ≡ logged_in id csrf
    → (i : Text) × (result ≡ ok (session_id i))
unfolding login_result
session_result m username a r (err e) id csrf h = cc
session_result m username a r (ok (challenge token)) id csrf h = cc
session_result m username a r (ok (session_id i)) id csrf h = (i, refl)

attempt_login-SignedIn :
    (c : Crypto) (username password : Text) (m : LoginMoment) (a : App) (r : Request)
    (place : Limiter × Bool × ℕ) (id csrf : Text)
    → id ≢ []
    → (attempt_login c username password m a r place).1 ≡ logged_in id csrf
    → (place.1 ≡ true)
      × ((verify_credentials c a.auth username password m.draws.salt m.config_ok).1 ≡ none)
      × SignedIn (attempt_login c username password m a r place).0.auth m r username id csrf
unfolding attempt_login
attempt_login-SignedIn c username password m a r (l, false, wait) id csrf n h = cc
attempt_login-SignedIn c username password m a r (l, true, wait) id csrf n h =
    let begun = begin_login c a.auth username password m.later m.draws m.config_ok in
    let a' = record a {
      auth = begun.0;
      limiter = done l m.later m.order (login_keys r.ip username) (succeeded begun.1);
    } in
    let (i, e) = session_result m username a' r begun.1 id csrf h in
    let accepted = begin_login_session c a.auth username password m.later m.draws m.config_ok i e in
    (
      refl,
      accepted.0,
      login_result-SignedIn m username a' r begun.1 id csrf n
          (λ j f. begin_login_stores c a.auth username password m.later m.draws m.config_ok j f) h,
    )

-- A login with user name and password that is answered with a session, whose drawn ID is not empty:
-- the limiter let it through, the password was accepted, and the state holds a session just created
-- for that user under the ID and with the CSRF token of the answer, while any other session that the
-- browser presented is gone.
pub handle_login-SignedIn :
    (c : Crypto) (username password : Text) (m : LoginMoment) (a : App) (r : Request)
    (id csrf : Text)
    → id ≢ []
    → (handle_login c (ok (username, password)) m a r).1 ≡ logged_in id csrf
    → ((reserve a.limiter m.now (login_keys r.ip username)).1 ≡ true)
      × ((verify_credentials c a.auth username password m.draws.salt m.config_ok).1 ≡ none)
      × SignedIn (handle_login c (ok (username, password)) m a r).0.auth m r username id csrf
unfolding handle_login
handle_login-SignedIn c username password m a r id csrf n h =
    elim (Bool-cases (bad_credentials username password)) [
      | inl bad ↦ let x : refused 401 ≡ logged_in id csrf = rw bad at h in cc
      | inr fine ↦ rw fine (
          attempt_login-SignedIn c username password m a r
            (reserve a.limiter m.now (login_keys r.ip username)) id csrf n (rw fine at h))
    ]
