-- ===== src/Limiter/Runs.antt =====
-- About LoginLimiter of backend/ratelimit.go over sequences of attempts and their ends.
use linuxgsm_dashboard.Base.{
  ℕ, zero, suc, ◌+◌, ◌-◌, ◌≤◌, ◌≡◌, inl, inr, Text, List, [], ◌∷◌, Bool, true, false, not, arith,
  leb, ◌==◌, length, All, Bool-cases, Option-cases,
}
use linuxgsm_dashboard.Limiter.{
  Entry, Entries, Limiter, lookup, delete, forgotten, remaining, larger, allow_loop, allow,
  fail_key, keep_entry, prune_old, prune_half, prune, fail_loop, failure, success, any_busy,
  reserve, done,
}
use linuxgsm_dashboard.Limiter.Bounds.{
  Capped, IsSafe, IsSafe-later, fail_key-IsSafe, with_entries, length-delete-le, All-delete,
  All-lookup,
}

delete-IsSafe :
    (l : Limiter) (t : ℕ) (k : Text)
    → IsSafe l t
    → IsSafe (record l { entries = delete k l.entries }) t
delete-IsSafe l t k s =
    with_entries l t _ (omega (arith, length-delete-le k l.entries, s.bounded))
      (All-delete (Capped (t + l.max_delay)) k l.entries s.capped)

abbrev Fits : Limiter → ℕ → Entries → Type 0
Fits l t m = (length m ≤ l.max_entries) × All (Capped (t + l.max_delay)) m

prune_old-Fits :
    (l : Limiter) (now t : ℕ) (m : Entries) (n : ℕ)
    → length m ≤ n
    → All (Capped t) m
    → (length (prune_old l now m) ≤ n) × All (Capped t) (prune_old l now m)
unfolding prune_old
prune_old-Fits l now t [] n b c = (b, tt)
prune_old-Fits l now t ((k, e) ∷ m) zero b c = absurd (omega arith)
prune_old-Fits l now t ((k, e) ∷ m) (suc n) b c =
    let rest = prune_old-Fits l now t m n (omega arith) c.1 in
    elim (Bool-cases (keep_entry l now e)) [
      | inl stays ↦ rw stays (omega (arith, rest.0), (c.0, rest.1))
      | inr goes ↦ rw goes (omega (arith, rest.0), rest.1)
    ]

prune_half-Fits :
    (l : Limiter) (t : ℕ) (order : List Text) (m : Entries)
    → Fits l t m
    → Fits l t (prune_half order m)
unfolding prune_half
prune_half-Fits l t [] m f = f
prune_half-Fits l t (k ∷ []) m f =
    (omega (arith, length-delete-le k m, f.0), All-delete (Capped (t + l.max_delay)) k m f.1)
prune_half-Fits l t (k ∷ j ∷ ks) m f =
    prune_half-Fits l t ks (delete k m)
      (omega (arith, length-delete-le k m, f.0), All-delete (Capped (t + l.max_delay)) k m f.1)

prune-IsSafe :
    (l : Limiter) (now : ℕ) (order : List Text) → IsSafe l now → IsSafe (prune l now order) now
unfolding prune
prune-IsSafe l now order s =
    let old = prune_old-Fits l now (now + l.max_delay) l.entries l.max_entries s.bounded s.capped in
    elim (Bool-cases (leb l.max_entries (length (prune_old l now l.entries)))) [
      | inl full ↦
          let half = prune_half-Fits l now order (prune_old l now l.entries) old in
          rw (full, prune) (with_entries l now _ half.0 half.1)
      | inr room ↦ rw (room, prune) (with_entries l now _ old.0 old.1)
    ]

fail_loop-IsSafe :
    (l : Limiter) (now : ℕ) (keys : List Text) → IsSafe l now → IsSafe (fail_loop l now keys) now
unfolding fail_loop
fail_loop-IsSafe l now [] s = s
fail_loop-IsSafe l now (k ∷ ks) s =
    fail_loop-IsSafe (fail_key l now k) now ks (fail_key-IsSafe l now k s)

failure-IsSafe :
    (l : Limiter) (now : ℕ) (order keys : List Text)
    → IsSafe l now
    → IsSafe (failure l now order keys) now
unfolding failure
failure-IsSafe l now order keys s = elim (Bool-cases (leb l.max_entries (length l.entries))) [
  | inl full ↦
      rw (full, failure)
        (fail_loop-IsSafe (prune l now order) now keys (prune-IsSafe l now order s))
  | inr room ↦ rw (room, failure) (fail_loop-IsSafe l now keys s)
]

success-IsSafe : (l : Limiter) (t : ℕ) (keys : List Text) → IsSafe l t → IsSafe (success l keys) t
unfolding success
success-IsSafe l t [] s = s
success-IsSafe l t (k ∷ ks) s =
    success-IsSafe (record l { entries = delete k l.entries }) t ks (delete-IsSafe l t k s)

allow_loop-IsSafe :
    (l : Limiter) (now t : ℕ) (keys : List Text) (wait : ℕ)
    → IsSafe l t
    → IsSafe (allow_loop l now keys wait).0 t
unfolding allow_loop
allow_loop-IsSafe l now t [] wait s = s
allow_loop-IsSafe l now t (k ∷ ks) wait s = elim (Option-cases (lookup k l.entries)) [
  | inl e ↦ rw (e, allow_loop) (allow_loop-IsSafe l now t ks wait s)
  | inr (d, e) ↦ elim (Bool-cases (forgotten l now d)) [
    | inl old ↦
        rw (e, old, allow_loop)
          (allow_loop-IsSafe (record l { entries = delete k l.entries }) now t ks wait
            (delete-IsSafe l t k s))
    | inr recent ↦
        rw (e, recent, allow_loop) (allow_loop-IsSafe l now t ks (larger (remaining now d) wait) s)
  ]
]

reserve-IsSafe :
    (l : Limiter) (now t : ℕ) (keys : List Text) → IsSafe l t → IsSafe (reserve l now keys).0 t
unfolding reserve allow
reserve-IsSafe l now t keys s =
    let r = allow_loop l now keys 0 in
    let k : IsSafe r.0 t = allow_loop-IsSafe l now t keys 0 s in
    elim (Bool-cases (not (r.1 == 0))) [
      | inl late ↦ rw (late, reserve) k
      | inr fine ↦ elim (Bool-cases (any_busy r.0 keys)) [
        | inl busy ↦ rw (fine, busy, reserve) k
        | inr free ↦ rw (fine, free, reserve) (record { bounded = k.bounded; capped = k.capped })
      ]
    ]

done-IsSafe :
    (l : Limiter) (now : ℕ) (order keys : List Text) (ok : Bool)
    → IsSafe l now
    → IsSafe (done l now order keys ok) now
unfolding done
done-IsSafe l now order keys true s =
    success-IsSafe _ now keys (record { bounded = s.bounded; capped = s.capped })
done-IsSafe l now order keys false s =
    failure-IsSafe _ now order keys (record { bounded = s.bounded; capped = s.capped })

-- What happens `dt` nanoseconds after the event before: an attempt asks for its place, or an attempt
-- that got one ends.
pub data Event : Type 0 where
  attempts : (dt : ℕ) (keys : List Text) → Event
  ends : (dt : ℕ) (order keys : List Text) (success : Bool) → Event

unfoldable pub step : Limiter → ℕ → Event → Limiter × ℕ
step l t (attempts dt keys) = ((reserve l (t + dt) keys).0, t + dt)
step l t (ends dt order keys success) = (done l (t + dt) order keys success, t + dt)

unfoldable pub run : Limiter → ℕ → List Event → Limiter × ℕ
run l t [] = (l, t)
run l t (e ∷ es) = run (step l t e).0 (step l t e).1 es

step-IsSafe : (l : Limiter) (t : ℕ) (e : Event) → IsSafe l t → IsSafe (step l t e).0 (step l t e).1
unfolding step
step-IsSafe l t (attempts dt keys) s =
    reserve-IsSafe l (t + dt) (t + dt) keys (IsSafe-later l t (t + dt) (omega arith) s)
step-IsSafe l t (ends dt order keys success) s =
    done-IsSafe l (t + dt) order keys success (IsSafe-later l t (t + dt) (omega arith) s)

-- Whatever attempts are made and end, and in whatever order Go ranges over the map: if the table is
-- within its limit and no key is blocked for longer than the longest cooldown from now, then so it is
-- afterwards.
pub run-IsSafe :
    (l : Limiter) (t : ℕ) (es : List Event) → IsSafe l t → IsSafe (run l t es).0 (run l t es).1
unfolding run
run-IsSafe l t [] s = s
run-IsSafe l t (e ∷ es) s = run-IsSafe (step l t e).0 (step l t e).1 es (step-IsSafe l t e s)

remaining-le : (now limit : ℕ) (d : Entry) → d.blocked_till ≤ limit → remaining now d ≤ limit - now
remaining-le now limit d h = ground arith

allow_loop_wait :
    (l : Limiter) (now limit : ℕ) (keys : List Text) (wait : ℕ)
    → All (Capped limit) l.entries
    → wait ≤ limit - now
    → (allow_loop l now keys wait).1 ≤ limit - now
unfolding allow_loop
allow_loop_wait l now limit [] wait c b = b
allow_loop_wait l now limit (k ∷ ks) wait c b = elim (Option-cases (lookup k l.entries)) [
  | inl e ↦ rw (e, allow_loop) (allow_loop_wait l now limit ks wait c b)
  | inr (d, e) ↦ elim (Bool-cases (forgotten l now d)) [
    | inl old ↦
        rw (e, old, allow_loop)
          (allow_loop_wait (record l { entries = delete k l.entries }) now limit ks wait
            (All-delete (Capped limit) k l.entries c) b)
    | inr recent ↦
        let own = remaining-le now limit d (All-lookup limit k l.entries d c e) in
        rw (e, recent, allow_loop)
          (allow_loop_wait l now limit ks (larger (remaining now d) wait) c (ground arith))
  ]
]

-- Allow never answers with a wait beyond the longest cooldown from `t` on.
pub allow_wait :
    (l : Limiter) (t now : ℕ) (keys : List Text)
    → IsSafe l t
    → ((allow l now keys).2 ≤ (t + l.max_delay) - now)
      × (t + l.max_delay ≤ now → (allow l now keys).1 ≡ true)
unfolding allow
allow_wait l t now keys s =
    let b = allow_loop_wait l now (t + l.max_delay) keys 0 s.capped (omega arith) in
    (b, λ h. ground arith)

-- No attempt on these keys runs.
abbrev pub Idle : Limiter → List Text → Type 0
Idle l keys = All (λ k. l.inflight k ≡ 0) keys
