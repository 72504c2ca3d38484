-- ===== src/Auth/TwoFactor/Login.antt =====
-- About BeginLogin and CompleteLogin of backend/twofactor.go: challenges, their attempts and their
-- end.
use linuxgsm_dashboard.Base.{
  ℕ, ◌+◌, ◌≤◌, ◌<◌, ◌≡◌, refl, ap, ◌∙◌, inl, inr, Text, List, [], ◌∷◌, Bool, true, false, not,
  Option, none, some, ok, err, Result, arith, ltb, eqt, put, put_self, remove_self, find_index,
  Option-cases, Bool-cases, length,
}
use linuxgsm_dashboard.User.{User}
use linuxgsm_dashboard.Passwords.{Crypto}
use linuxgsm_dashboard.Totp.{verify_totp, hash_recovery_code}
use linuxgsm_dashboard.Auth.{
  Auth, Failure, LoginChallenge, saved, find_user, create_session, invalid_code, challenge_expired,
}
use linuxgsm_dashboard.Auth.Accounts.{verify_credentials}
use linuxgsm_dashboard.Auth.TwoFactor.{
  Draws, session_id, challenge, begin_login, open_challenge, as_session, totp_on, write_user,
  factor_result, consume_for, consume_second_factor, with_flag, finish_login, complete_login,
  forget_challenge, challenge_attempts,
}

as_session-challenge :
    (r : Auth × Result Failure Text) (token : Text) → (as_session r).1 ≡ ok (challenge token) → ⊥
as_session-challenge (s, ok id) token h = cc
as_session-challenge (s, err e) token h = cc

open_challenge-session :
    (s : Auth) (n : Text) (now : ℕ) (token : Option Text) (id : Text)
    → (open_challenge s n now token).1 ≡ ok (session_id id)
    → ⊥
unfolding open_challenge
open_challenge-session s n now none id h = cc
open_challenge-session s n now (some token) id h = cc

-- The password step alone gives a session only to a user without two-factor authentication: a login
-- that ends in a session had accepted credentials, and two-factor authentication was off.
pub begin_login_session :
    (c : Crypto) (s : Auth) (n password : Text) (now : ℕ) (draws : Draws) (disk_ok : Bool)
    (id : Text)
    → (begin_login c s n password now draws disk_ok).1 ≡ ok (session_id id)
    → ((verify_credentials c s n password draws.salt disk_ok).1 ≡ none)
      × (totp_on (find_user n (verify_credentials c s n password draws.salt disk_ok).0.users)
          ≡ false)
unfolding begin_login
begin_login_session c s n password now draws disk_ok id h =
    let r = verify_credentials c s n password draws.salt disk_ok in
    elim (Option-cases r.1) [
      | inr (f, e) ↦ ground arith
      | inl e ↦ elim (Bool-cases (totp_on (find_user n r.0.users))) [
        | inl on ↦
            absurd (open_challenge-session r.0 n now draws.token id (rw (e, on, begin_login) at h))
        | inr off ↦ (e, off)
      ]
    ]

-- Verifying a second factor leaves the pending challenges as they are.
challenges-write_user :
    (s : Auth) (i : ℕ) (u v : User) (disk_ok : Bool)
    → (write_user s i u v disk_ok).0.challenges ≡ s.challenges
unfolding write_user saved
challenges-write_user s i u v true = refl
challenges-write_user s i u v false = refl

factor_result_state : (used : Bool) (r : Auth × Option Failure) → (factor_result used r).0 ≡ r.0
factor_result_state used (s, none) = refl
factor_result_state used (s, some e) = refl

challenges-consume_for :
    (c : Crypto) (s : Auth) (i : ℕ) (u : User) (n code : Text) (now : ℕ) (disk_ok : Bool)
    → (consume_for c s i u n code now disk_ok).0.challenges ≡ s.challenges
unfolding consume_for
challenges-consume_for c s i u n code now disk_ok =
    elim (Option-cases (verify_totp c u.totp_secret code now u.totp_last_step)) [
      | inr (step, e) ↦
          rw (e, consume_for, factor_result_state) (challenges-write_user s i u _ disk_ok)
      | inl e ↦
          elim (Option-cases
            (find_index (λ x. eqt x (hash_recovery_code c n code)) u.recovery_codes)) [
              | inl d ↦ rw (e, d, consume_for) refl
              | inr ((j, x), d) ↦
                  rw (e, d, consume_for, factor_result_state)
                    (challenges-write_user s i u _ disk_ok)
            ]
    ]

challenges-consume :
    (c : Crypto) (s : Auth) (n code : Text) (now : ℕ) (disk_ok : Bool)
    → (consume_second_factor c s n code now disk_ok).0.challenges ≡ s.challenges
unfolding consume_second_factor
challenges-consume c s n code now disk_ok = elim (Option-cases (find_user n s.users)) [
  | inl e ↦ rw (e, consume_second_factor) refl
  | inr ((i, u), e) ↦ elim (Bool-cases (not u.totp_enabled)) [
    | inl off ↦ rw (e, off, consume_second_factor) refl
    | inr on ↦ rw (e, on, consume_second_factor) (challenges-consume_for c s i u n code now disk_ok)
  ]
]

challenges-create_session :
    (s : Auth) (n : Text) (now : ℕ) (id csrf : Option Text)
    → (create_session s n now id csrf).0.challenges ≡ s.challenges
unfolding create_session
challenges-create_session s n now none csrf = refl
challenges-create_session s n now (some id) none = refl
challenges-create_session s n now (some id) (some csrf) = refl

with_flag_state : (used : Bool) (r : Auth × Result Failure Text) → (with_flag used r).0 ≡ r.0
with_flag_state used (s, ok id) = refl
with_flag_state used (s, err e) = refl

with_flag_used :
    (used : Bool) (r : Auth × Result Failure Text) (out : Text × Bool)
    → (with_flag used r).1 ≡ ok out
    → ◌≡◌ {A = Result Failure Bool} (ok used) (ok out.1)
with_flag_used used (s, ok id) out h = ground arith
with_flag_used used (s, err e) out h = cc

-- The state in which the attempt is counted.
abbrev pub counted : Auth → Text → LoginChallenge → Auth
counted s token ch = record s {
  challenges = put token (record ch { attempts = ch.attempts + 1 }) s.challenges;
}

finished :
    (token : Text) (ch : LoginChallenge) (now : ℕ) (draws : Draws) (r : Auth × Result Failure Bool)
    (out : Text × Bool)
    → (finish_login token ch now draws r).1 ≡ ok out
    → (r.1 ≡ ok out.1) × ((finish_login token ch now draws r).0.challenges token ≡ none)
unfolding finish_login
finished token ch now draws (s, err e) out h = cc
finished token ch now draws (s, ok used) out h =
    let r = create_session (forget_challenge token s) ch.username now draws.session draws.csrf in
    (
      with_flag_used used r out h,
      rw
          (
            with_flag_state used r,
            challenges-create_session (forget_challenge token s) ch.username now draws.session
                draws.csrf,
          )
          (remove_self token s.challenges),
    )

-- A login that is completed had a pending challenge that had not expired and had fewer than five
-- codes tried, its second factor was accepted for the user of the challenge, and the challenge is
-- gone: the same token is of no use again, whatever the code.
pub complete_login_once :
    (c : Crypto) (s : Auth) (token code : Text) (now : ℕ) (draws : Draws) (disk_ok : Bool)
    (out : Text × Bool)
    → (complete_login c s token code now draws disk_ok).1 ≡ ok out
    → (ch : LoginChallenge) × (s.challenges token ≡ some ch)
      × (now ≤ ch.expiry)
      × (ch.attempts < 5)
      × ((consume_second_factor c (counted s token ch) ch.username code now disk_ok).1 ≡ ok out.1)
      × ((complete_login c s token code now draws disk_ok).0.challenges token ≡ none)
unfolding complete_login
complete_login_once c s token code now draws disk_ok out h =
    elim (Option-cases (s.challenges token)) [
      | inl e ↦ ground arith
      | inr (ch, e) ↦ elim (Bool-cases (ltb ch.expiry now)) [
        | inl late ↦ ground arith
        | inr fine ↦ elim (Bool-cases (ltb challenge_attempts (ch.attempts + 1))) [
          | inl many ↦ ground arith
          | inr few ↦
              let r = consume_second_factor c (counted s token ch) ch.username code now disk_ok in
              let (a, b) =
                finished token ch now draws r out (rw (e, fine, few, complete_login) at h) in
              (ch, e, ground arith, ground arith, a, rw (e, fine, few, complete_login) b)
        ]
      ]
    ]

-- One code tried on a challenge.
pub record Guess : Type 0 where
  pub code : Text
  pub now : ℕ
  pub draws : Draws
  pub disk_ok : Bool

abbrev pub tries : Crypto → Auth → Text → Guess → Auth × Result Failure (Text × Bool)
tries c s token g = complete_login c s token g.code g.now g.draws g.disk_ok

-- All of the codes, tried in turn, are wrong.
abbrev pub AllWrong : Crypto → Auth → Text → List Guess → Type 0
AllWrong c s token [] = Unit
AllWrong c s token (g ∷ gs) =
    ((tries c s token g).1 ≡ err invalid_code) × AllWrong c (tries c s token g).0 token gs

failed_finish :
    (token : Text) (ch : LoginChallenge) (now : ℕ) (draws : Draws) (r : Auth × Result Failure Bool)
    → (finish_login token ch now draws r).1 ≡ err invalid_code
    → (finish_login token ch now draws r).0 ≡ r.0
unfolding finish_login create_session
failed_finish token ch now draws (s, err e) h = refl
failed_finish token ch now draws (s, ok used) h = ground arith

-- A wrong code is counted.
wrong_code :
    (c : Crypto) (s : Auth) (token : Text) (g : Guess)
    → (tries c s token g).1 ≡ err invalid_code
    → (ch : LoginChallenge) × (s.challenges token ≡ some ch)
      × (ch.attempts < 5)
      × ((tries c s token g).0.challenges token ≡ some (record ch { attempts = ch.attempts + 1 }))
unfolding complete_login
wrong_code c s token g h = elim (Option-cases (s.challenges token)) [
  | inl e ↦ ground arith
  | inr (ch, e) ↦ elim (Bool-cases (ltb ch.expiry g.now)) [
    | inl late ↦ ground arith
    | inr fine ↦ elim (Bool-cases (ltb challenge_attempts (ch.attempts + 1))) [
      | inl many ↦ ground arith
      | inr few ↦
          let r = consume_second_factor c (counted s token ch) ch.username g.code g.now g.disk_ok in
          let same =
            failed_finish token ch g.now g.draws r (rw (e, fine, few, complete_login) at h) in
          (
            ch,
            e,
            ground arith,
            rw (e, fine, few, complete_login)
                (rw
                  (
                    same,
                    challenges-consume c (counted s token ch) ch.username g.code g.now g.disk_ok,
                  )
                  (put_self token _ s.challenges)),
          )
    ]
  ]
]

-- The same with the challenge at hand.
counted_wrong :
    (c : Crypto) (s : Auth) (token : Text) (g : Guess) (ch : LoginChallenge)
    → s.challenges token ≡ some ch
    → (tries c s token g).1 ≡ err invalid_code
    → (ch.attempts < 5)
      × ((tries c s token g).0.challenges token ≡ some (record ch { attempts = ch.attempts + 1 }))
counted_wrong c s token g ch e w =
    let (found, e', few, next) = wrong_code c s token g w in
    let same : found ≡ ch = cc in
    (
      rw same at few,
      next ∙ ap (λ (x : LoginChallenge). some (record x { attempts = x.attempts + 1 })) same,
    )

-- At most five wrong codes are ever tried on one challenge.
pub wrong_codes_bounded :
    (c : Crypto) (s : Auth) (token : Text) (gs : List Guess) (ch : LoginChallenge)
    → s.challenges token ≡ some ch
    → ch.attempts ≤ 5
    → AllWrong c s token gs
    → ch.attempts + length gs ≤ 5
wrong_codes_bounded c s token [] ch e b h = omega arith
wrong_codes_bounded c s token (g ∷ gs) ch e b (w, ws) =
    let (few, next) = counted_wrong c s token g ch e w in
    let rest =
      wrong_codes_bounded c (tries c s token g).0 token gs
        (record ch { attempts = ch.attempts + 1 }) next (omega arith) ws in
    omega (arith, rest)

abbrev pub after : Crypto → Auth → Text → List Guess → Auth
after c s token [] = s
after c s token (g ∷ gs) = after c (tries c s token g).0 token gs

spent :
    (c : Crypto) (s : Auth) (token : Text) (ch : LoginChallenge) (g : Guess)
    → s.challenges token ≡ some ch
    → ch.attempts ≡ 5
    → (tries c s token g).1 ≡ err challenge_expired
unfolding complete_login
spent c s token ch g e five = elim (Bool-cases (ltb ch.expiry g.now)) [
  | inl late ↦ rw (e, late, complete_login) refl
  | inr fine ↦
      let many : ltb challenge_attempts (ch.attempts + 1) ≡ true = ground arith in
      rw (e, fine, many, complete_login) refl
]

-- Once wrong codes have used up the five attempts of a challenge, it is spent: any further code, the
-- right one too, is refused.
pub wrong_codes_lock :
    (c : Crypto) (s : Auth) (token : Text) (gs : List Guess) (ch : LoginChallenge) (g : Guess)
    → s.challenges token ≡ some ch
    → AllWrong c s token gs
    → ch.attempts + length gs ≡ 5
    → (tries c (after c s token gs) token g).1 ≡ err challenge_expired
wrong_codes_lock c s token [] ch g e h five = spent c s token ch g e (omega arith)
wrong_codes_lock c s token (x ∷ gs) ch g e (w, ws) five =
    let (few, next) = counted_wrong c s token x ch e w in
    wrong_codes_lock c (tries c s token x).0 token gs (record ch { attempts = ch.attempts + 1 }) g
      next ws (omega arith)
