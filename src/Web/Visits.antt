-- ===== src/Web/Visits.antt =====
-- About requests with one session cookie, as currentUser of main.go answers them: for how long a session
-- lasts, from the login that created it.
use linuxgsm_dashboard.Base.{
  ℕ, ◌+◌, ◌*◌, ◌≡◌, ◌≢◌, ◌↔◌, ◌∙◌, refl, sym, ap, inl, inr, Text, List, [], ◌∷◌, Bool, true, false,
  ◌&&◌, Option, none, some, arith, leb, if◌then◌else◌, eqt_of_ne, put, put_self, remove,
  remove_self, Bool-cases,
}
use linuxgsm_dashboard.User.{User}
use linuxgsm_dashboard.Auth.{
  Auth, Session, create_session, get_session, get_user, find_user, session_over,
}
use linuxgsm_dashboard.Auth.Sessions.{visits}
use linuxgsm_dashboard.Web.{App, Request, with_auth, current_user, session_user}

-- 24 hours
abbrev pub day : ℕ
day = 86_400_000_000_000

-- No two of the times, from the login or the visit before on, are more than a day apart, and all of
-- them are within seven days of the login; the last one is `now`.
abbrev pub in_time : ℕ → ℕ → List ℕ → ℕ → Bool
in_time born last [] now = leb now (last + day) && leb now (born + 7 * day)
in_time born last (t ∷ ts) now =
    leb t (last + day) && (leb t (born + 7 * day) && in_time born t ts now)

-- The state after requests with the same cookie at the given times.
abbrev pub after_requests : App → Request → List ℕ → App
after_requests a r [] = a
after_requests a r (t ∷ ts) = after_requests (current_user a r t).0 r ts

-- The session of the login at `born`, last used at `last`.
abbrev session_at : Text → Text → ℕ → ℕ → Session
session_at username csrf born last = record {
  username = username;
  expiry = last + day;
  created = born;
  csrf_token = csrf;
}

ended_visits :
    (s : Auth) (id : Text) (ts : List ℕ) (now : ℕ)
    → s.sessions id ≡ none
    → (get_session (visits s id ts) id now).1 ≡ none
unfolding get_session
ended_visits s id [] now e = ground (arith, e)
ended_visits s id (t ∷ ts) now e =
    let q : (get_session s id t).0 ≡ s = ground (arith, e) in
    ap (λ x. (get_session (visits x id ts) id now).1) q ∙ ended_visits s id ts now e

module _ (id username csrf : Text) (born : ℕ) (given : id ≢ []) where
  visit_in_time :
      (s : Auth) (last t : ℕ)
      → s.sessions id ≡ some (session_at username csrf born last)
      → leb t (last + day) && leb t (born + 7 * day) ≡ true
      → get_session s id t ≡ (
        record s { sessions = put id (session_at username csrf born t) s.sessions },
        some (session_at username csrf born t),
      )
  unfolding get_session session_over
  visit_in_time s last t e h = ground (arith, e, h, eqt_of_ne id [] given)

  visit_late :
      (s : Auth) (last t : ℕ)
      → s.sessions id ≡ some (session_at username csrf born last)
      → leb t (last + day) && leb t (born + 7 * day) ≡ false
      → get_session s id t ≡ (record s { sessions = remove id s.sessions }, none)
  unfolding get_session session_over
  visit_late s last t e h = ground (arith, e, h, eqt_of_ne id [] given)

  last_visit :
      (s : Auth) (last : ℕ) (ts : List ℕ) (now : ℕ)
      → s.sessions id ≡ some (session_at username csrf born last)
      → (get_session (visits s id ts) id now).1
        ≡ (if in_time born last ts now then some (session_at username csrf born now) else none)
  last_visit s last [] now e =
      elim (Bool-cases (leb now (last + day) && leb now (born + 7 * day))) [
        | inl fine ↦ rw (visit_in_time s last now e fine, fine) refl
        | inr late ↦ rw (visit_late s last now e late, late) refl
      ]
  last_visit s last (t ∷ ts) now e =
      elim (Bool-cases (leb t (last + day) && leb t (born + 7 * day))) [
        | inl fine ↦
            let rest =
              last_visit
                (record s { sessions = put id (session_at username csrf born t) s.sessions }) t ts
                now (put_self id (session_at username csrf born t) s.sessions) in
            let q = visit_in_time s last t e fine in
            ap (λ x. (get_session (visits x id ts) id now).1) (ap (λ x. x.0) q)
            ∙ rest
            ∙ ground (arith, fine)
        | inr late ↦
            let q = visit_late s last t e late in
            ap (λ x. (get_session (visits x id ts) id now).1) (ap (λ x. x.0) q)
            ∙ ended_visits (record s { sessions = remove id s.sessions }) id ts now
                (remove_self id s.sessions)
            ∙ ground (arith, late)
      ]

users-get_session : (s : Auth) (id : Text) (t : ℕ) → (get_session s id t).0.users ≡ s.users
unfolding get_session
users-get_session s id t = ground arith

users-visits : (s : Auth) (id : Text) (ts : List ℕ) → (visits s id ts).users ≡ s.users
users-visits s id [] = refl
users-visits s id (t ∷ ts) = users-visits (get_session s id t).0 id ts ∙ users-get_session s id t

module _ (r : Request) (id : Text) (c : r.cookie ≡ some id) where
  current_visit :
      (a : App) (t : ℕ)
      → a.agent_mode ≡ false
      → current_user a r t ≡ (
        with_auth (get_session a.auth id t).0 a,
        session_user (get_session a.auth id t).0 id (get_session a.auth id t).1,
      )
  unfolding current_user
  current_visit a t mode = ground (arith, mode, c)

  after_visits :
      (a : App) (ts : List ℕ)
      → a.agent_mode ≡ false
      → after_requests a r ts ≡ with_auth (visits a.auth id ts) a
  after_visits a [] mode = refl
  after_visits a (t ∷ ts) mode =
      ap (λ x. after_requests x.0 r ts) (current_visit a t mode)
      ∙ after_visits (with_auth (get_session a.auth id t).0 a) ts mode

session_user-none : (s : Auth) (id : Text) (u : User) → session_user s id none ≢ some (u, id)
session_user-none s id u h = cc

session_user_known :
    (s : Auth) (id : Text) (session : Session) (u : User)
    → (session_user s id (some session) ≡ some (u, id)) ↔ (get_user s session.username ≡ some u)
session_user_known s id session u = (λ h. ground (arith, h), λ h. ground (arith, h))

get_user-users :
    (s s' : Auth) (name : Text) → s.users ≡ s'.users → get_user s name ≡ get_user s' name
unfolding get_user
get_user-users s s' name e =
    ap
      (λ users. elim (find_user name users) as (λ _. Option User) [
        | none ↦ none
        | some (i, u) ↦ some u
      ])
      e

-- A login gives a user a session, whose drawn ID is not empty, and requests with its cookie follow at
-- the given times, on a server that is no agent. Then a request at any time is taken for one of the
-- user `u` exactly when `u` is the record of that user and no day has passed without a request since
-- the login, neither between two of them nor up to now, and all of them and this one come within seven
-- days of the login. A request after a gap, or after the seven days, ends the session for good.
pub current_user_iff :
    (a : App) (r : Request) (username id csrf : Text) (born now : ℕ) (ts : List ℕ) (u : User)
    → a.agent_mode ≡ false
    → r.cookie ≡ some id
    → id ≢ []
    → ((current_user
          (after_requests
            (with_auth (create_session a.auth username born (some id) (some csrf)).0 a)
            r
            ts)
          r
          now).1
        ≡ some (u, id))
      ↔ ((get_user a.auth username ≡ some u) × (in_time born born ts now ≡ true))
unfolding create_session
current_user_iff a r username id csrf born now ts u mode c given =
    let s = (create_session a.auth username born (some id) (some csrf)).0 in
    let a' = with_auth s a in
    let q = after_visits r id c a' ts mode in
    let p = current_visit r id c (with_auth (visits s id ts) a) now mode in
    let found =
      last_visit id username csrf born given s born ts now
        (put_self id (session_at username csrf born born) a.auth.sessions) in
    let users : (get_session (visits s id ts) id now).0.users ≡ a.auth.users =
      users-get_session (visits s id ts) id now ∙ users-visits s id ts in
    let known = get_user-users (get_session (visits s id ts) id now).0 a.auth username users in
    rw (q, p, found)
      (elim (Bool-cases (in_time born born ts now)) [
        | inr late ↦ rw late (
          λ h. absurd (session_user-none (get_session (visits s id ts) id now).0 id u h),
          λ h. ground (arith, h.1),
        )
        | inl fine ↦
            let (to, back) =
              session_user_known (get_session (visits s id ts) id now).0 id
                (session_at username csrf born now) u in
            rw fine (λ h. (sym known ∙ to h, refl), λ h. back (known ∙ h.0))
      ])
