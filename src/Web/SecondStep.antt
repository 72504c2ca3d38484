-- ===== src/Web/SecondStep.antt =====
-- About the second step of a login in main.go, handleLoginSecondFactor: the session that it is answered
-- with.
use linuxgsm_dashboard.Base.{
  ℕ, ◌+◌, ◌≡◌, ◌≢◌, refl, sym, ap, subst, ◌∙◌, inl, inr, Text, [], Bool, true, false, some, Result,
  ok, err, arith, ltb, eqt_refl, put, Bool-cases, Option-cases,
}
use linuxgsm_dashboard.Passwords.{Crypto}
use linuxgsm_dashboard.Limiter.{Limiter, reserve, done}
use linuxgsm_dashboard.Auth.{Auth, Failure, LoginChallenge, create_session}
use linuxgsm_dashboard.Auth.TwoFactor.{
  Draws, LoginResult, session_id, challenge, begin_login, as_session, open_challenge,
  complete_login, challenge_user, challenge_attempts, consume_second_factor,
}
use linuxgsm_dashboard.Auth.TwoFactor
use linuxgsm_dashboard.Auth.TwoFactor.Login.{counted}
use linuxgsm_dashboard.Web.{App, Request, refused, logged_in}
use linuxgsm_dashboard.Web.Login.{
  LoginMoment, succeeded, code_keys, code_result, attempt_code, handle_login_second_factor,
  recovery_details,
}
use linuxgsm_dashboard.Web.LoggedIn.{SignedIn, new_session, finished-SignedIn}

-- The result of the code step; its session is that of the user of the challenge.
code_result-SignedIn :
    (m : LoginMoment) (username : Text) (a : App) (r : Request)
    (result : Result Failure (Text × Bool)) (id csrf : Text)
    → id ≢ []
    → ((out : Text × Bool)
        → result ≡ ok out
        → (t : Text) × (a.auth.sessions out.0 ≡ some (new_session username m.later t)))
    → (code_result m username a r result).1 ≡ logged_in id csrf
    → SignedIn (code_result m username a r result).0.auth m r username id csrf
unfolding code_result
code_result-SignedIn m username a r (err e) id csrf n f h = cc
code_result-SignedIn m username a r (ok (i, used)) id csrf n f h =
    let (t, stored) = f (i, used) refl in
    finished-SignedIn m username i id csrf t (recovery_details used) a r n stored h

challenge_user_lem :
    (s : Auth) (token : Text) (now : ℕ) (username : Text)
    → challenge_user s token now ≡ some username
    → (ch : LoginChallenge) × (s.challenges token ≡ some ch) × (ch.username ≡ username)
unfolding challenge_user
challenge_user_lem s token now username h = elim (Option-cases (s.challenges token)) [
  | inl e ↦ ground arith
  | inr (ch, e) ↦ (ch, e, ground arith)
]

created_stores :
    (token : Text) (ch : LoginChallenge) (now : ℕ) (draws : Draws)
    (result : Auth × Result Failure Bool) (out : Text × Bool)
    → (TwoFactor.finish_login token ch now draws result).1 ≡ ok out
    → (t : Text) × ((TwoFactor.finish_login token ch now draws result).0.sessions out.0
        ≡ some (new_session ch.username now t))
unfolding TwoFactor.finish_login create_session put
created_stores token ch now draws (s, err e) out h = cc
created_stores token ch now draws (s, ok used) out h = elim (Option-cases draws.csrf) [
  | inl e ↦ ground (arith, e)
  | inr (csrf, e) ↦ (csrf, ground (arith, e, eqt_refl out.0))
]

complete_login_stores :
    (c : Crypto) (s : Auth) (token code : Text) (now : ℕ) (draws : Draws) (disk_ok : Bool)
    (ch : LoginChallenge) (out : Text × Bool)
    → s.challenges token ≡ some ch
    → (complete_login c s token code now draws disk_ok).1 ≡ ok out
    → (t : Text) × ((complete_login c s token code now draws disk_ok).0.sessions out.0
        ≡ some (new_session ch.username now t))
unfolding complete_login
complete_login_stores c s token code now draws disk_ok ch out e h =
    let counted = counted s token ch in
    elim (Bool-cases (ltb ch.expiry now)) [
      | inl late ↦ ground (arith, e)
      | inr fine ↦ elim (Bool-cases (ltb challenge_attempts (ch.attempts + 1))) [
        | inl many ↦ ground (arith, e)
        | inr few ↦
            rw (e, fine, few, complete_login)
              (created_stores token ch now draws
                (consume_second_factor c counted ch.username code now disk_ok) out
                (rw (e, fine, few, complete_login) at h))
      ]
    ]

attempt_code-SignedIn :
    (c : Crypto) (username token code : Text) (ch : LoginChallenge) (m : LoginMoment) (a : App)
    (r : Request) (place : Limiter × Bool × ℕ) (id csrf : Text)
    → id ≢ []
    → a.auth.challenges token ≡ some ch
    → ch.username ≡ username
    → (attempt_code c username token code m a r place).1 ≡ logged_in id csrf
    → (place.1 ≡ true)
      × SignedIn (attempt_code c username token code m a r place).0.auth m r username id csrf
unfolding attempt_code
attempt_code-SignedIn c username token code ch m a r (l, false, wait) id csrf n e u h = cc
attempt_code-SignedIn c username token code ch m a r (l, true, wait) id csrf n e u h =
    let done_with = complete_login c a.auth token code m.later m.draws m.config_ok in
    (
      refl,
      code_result-SignedIn m username
          (record a {
            auth = done_with.0;
            limiter = done l m.later m.order (code_keys r.ip username) (succeeded done_with.1);
          })
          r done_with.1 id csrf n
          (λ out f.
            subst (λ x. (t : Text) × (done_with.0.sessions out.0 ≡ some (new_session x m.later t)))
              u (complete_login_stores c a.auth token code m.later m.draws m.config_ok ch out e f))
          h,
    )

-- A second step that is answered with a session, whose drawn ID is not empty: the token is that of a
-- challenge, the limiter let the code through, and the state holds a session just created for the
-- user of the challenge under the ID and with the CSRF token of the answer, while any other session
-- that the browser presented is gone.
pub handle_login_second_factor-SignedIn :
    (c : Crypto) (token code : Text) (m : LoginMoment) (a : App) (r : Request) (id csrf : Text)
    → id ≢ []
    → (handle_login_second_factor c (ok (token, code)) m a r).1 ≡ logged_in id csrf
    → (ch : LoginChallenge) × (a.auth.challenges token ≡ some ch)
      × ((reserve a.limiter m.now (code_keys r.ip ch.username)).1 ≡ true)
      × SignedIn
          (handle_login_second_factor c (ok (token, code)) m a r).0.auth
          m
          r
          ch.username
          id
          csrf
unfolding handle_login_second_factor
handle_login_second_factor-SignedIn c token code m a r id csrf n h =
    elim (Option-cases (challenge_user a.auth token m.now)) [
      | inl e ↦
          let x : refused 401 ≡ logged_in id csrf = rw (e, handle_login_second_factor) at h in cc
      | inr (username, e) ↦
          let (ch, at, u) = challenge_user_lem a.auth token m.now username e in
          let e' : challenge_user a.auth token m.now ≡ some ch.username = e ∙ ap some (sym u) in
          let (placed, signed) =
            attempt_code-SignedIn c ch.username token code ch m a r
              (reserve a.limiter m.now (code_keys r.ip ch.username)) id csrf n at refl
              (rw (e', handle_login_second_factor) at h) in
          (ch, at, placed, rw (e', handle_login_second_factor) signed)
    ]
