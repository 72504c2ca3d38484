-- ===== src/Limiter/Blocks.antt =====
-- About LoginLimiter of backend/ratelimit.go for an attempt with two keys: what a failed one leaves
-- behind, and when the second key holds an attempt back.
use linuxgsm_dashboard.Base.{
  ℕ, zero, suc, ◌+◌, ◌-◌, ◌*◌, ◌≤◌, ◌<◌, ◌≡◌, ◌≢◌, ◌∙◌, refl, inl, inr, Text, List, [], ◌∷◌, true,
  false, some, arith, ltb, leb, eqt_iff, eqt_refl, length, if◌then◌else◌, Bool-cases, Option-cases,
}
use linuxgsm_dashboard.Limiter.{
  Entry, Entries, Limiter, lookup, store, delete, forgotten, remaining, larger, allow_loop, allow,
  reserve, fail_key, fail_loop, failure, count_failure, cooldown, double, done, leave, enter,
  blank_entry,
}
use linuxgsm_dashboard.Limiter.Bounds.{length-delete-le}

lookup-delete_other : (j k : Text) (m : Entries) → j ≢ k → lookup k (delete j m) ≡ lookup k m
unfolding lookup delete
lookup-delete_other j k [] n = refl
lookup-delete_other j k ((i, e) ∷ m) n =
    ground (arith, lookup-delete_other j k m n, eqt_iff i j, eqt_iff i k)

lookup-store_other :
    (j k : Text) (e : Entry) (m : Entries) → j ≢ k → lookup k (store j e m) ≡ lookup k m
unfolding lookup store
lookup-store_other j k e [] n = ground (arith, eqt_iff j k)
lookup-store_other j k e ((i, d) ∷ m) n =
    ground (arith, lookup-store_other j k e m n, eqt_iff i j, eqt_iff i k, eqt_iff j k)

lookup-store_self : (k : Text) (e : Entry) (m : Entries) → lookup k (store k e m) ≡ some e
unfolding lookup store
lookup-store_self k e [] = ground (arith, eqt_refl k)
lookup-store_self k e ((i, d) ∷ m) = ground (arith, lookup-store_self k e m, eqt_refl k)

double-ge : (rounds max_delay delay : ℕ) → delay ≤ double rounds max_delay delay
unfolding double
double-ge zero max_delay delay = omega arith
double-ge (suc rounds) max_delay delay = ground (arith, double-ge rounds max_delay (delay * 2))

cooldown-ge :
    (l : Limiter) (failures : ℕ) → l.base_delay ≤ l.max_delay → l.base_delay ≤ cooldown l failures
unfolding cooldown
cooldown-ge l failures h =
    ground (arith, double-ge (failures - l.free_tries - 1) l.max_delay l.base_delay)

-- The key `k` has an entry that is not forgotten at the time, and it is blocked from then on.
pub record IsBlocked (l : Limiter) (k : Text) (now : ℕ) : Type 0 where
  pub entry : Entry
  pub found : lookup k l.entries ≡ some entry
  pub recent : now ≤ entry.last_failure + l.forget_after
  pub blocked : now < entry.blocked_till

-- The limiter `l'` is as good as `l` for the entry of the key `k`.
pub record Keeps (k : Text) (l l' : Limiter) : Type 0 where
  pub same : lookup k l'.entries ≡ lookup k l.entries
  pub size : length l'.entries ≤ length l.entries
  pub forget_after : l'.forget_after ≡ l.forget_after
  pub free_tries : l'.free_tries ≡ l.free_tries
  pub base_delay : l'.base_delay ≡ l.base_delay
  pub max_delay : l'.max_delay ≡ l.max_delay
  pub max_entries : l'.max_entries ≡ l.max_entries

unchanged : (k : Text) (l : Limiter) → Keeps k l l
unchanged k l = record {
  same = refl;
  size = omega arith;
  forget_after = refl;
  free_tries = refl;
  base_delay = refl;
  max_delay = refl;
  max_entries = refl;
}

module _ (j k : Text) (apart : j ≢ k) where
  -- The first key changes nothing for the second one.
  first_key :
      (l : Limiter) (now : ℕ) (ks : List Text)
      → (l' : Limiter) × (wait : ℕ) × (allow_loop l now (j ∷ ks) 0 ≡ allow_loop l' now ks wait)
        × Keeps k l l'
  unfolding allow_loop
  first_key l now ks = elim (Option-cases (lookup j l.entries)) [
    | inl e ↦ (l, 0, ground (arith, e), unchanged k l)
    | inr (d, e) ↦ elim (Bool-cases (forgotten l now d)) [
      | inr recent ↦ (l, larger (remaining now d) 0, ground (arith, e, recent), unchanged k l)
      | inl old ↦ (
        record l { entries = delete j l.entries },
        0,
        ground (arith, e, old),
        record {
          same = lookup-delete_other j k l.entries apart;
          size = length-delete-le j l.entries;
          forget_after = refl;
          free_tries = refl;
          base_delay = refl;
          max_delay = refl;
          max_entries = refl;
        },
      )
    ]
  ]

  blocked_wait :
      (l : Limiter) (now wait : ℕ) → IsBlocked l k now → 0 < (allow_loop l now (k ∷ []) wait).1
  unfolding allow_loop
  blocked_wait l now wait b = ground (arith, b.found, b.recent, b.blocked)

  -- An attempt with a blocked key is held back.
  pub reserve_blocked :
      (l : Limiter) (now : ℕ) → IsBlocked l k now → (reserve l now (j ∷ k ∷ [])).1 ≡ false
  unfolding reserve allow
  reserve_blocked l now b =
      let (l', wait, e, kept) = first_key l now (k ∷ []) in
      let b' : IsBlocked l' k now = record {
        entry = b.entry;
        found = ground (arith, kept.same, b.found);
        recent = ground (arith, kept.forget_after, b.recent);
        blocked = b.blocked;
      } in
      let w : 0 < (allow_loop l now (j ∷ k ∷ []) 0).1 = rw e (blocked_wait l' now wait b') in
      ground arith

  fail_first :
      (l : Limiter) (now : ℕ)
      → (l' : Limiter) × (fail_key l now j ≡ l')
        × (lookup k l'.entries ≡ lookup k l.entries)
        × ((l'.forget_after ≡ l.forget_after)
            × (l'.free_tries ≡ l.free_tries)
            × (l'.base_delay ≡ l.base_delay)
            × (l'.max_delay ≡ l.max_delay))
  unfolding fail_key
  fail_first l now = (
    fail_key l now j,
    refl,
    elim (Option-cases (lookup j l.entries)) [
      | inl e ↦ elim (Bool-cases (leb l.max_entries (length l.entries))) [
        | inl full ↦ rw (e, full, fail_key) refl
        | inr room ↦
            rw (e, room, fail_key)
              (lookup-store_other j k (count_failure l now blank_entry) l.entries apart)
      ]
      | inr (d, e) ↦
          rw (e, fail_key)
            (lookup-store_other j k
              (count_failure l now (if forgotten l now d then blank_entry else d)) l.entries apart)
    ],
    ground arith,
  )

  blocks_second :
      (l : Limiter) (now later : ℕ) (e : Entry)
      → lookup k l.entries ≡ some e
      → now ≤ e.last_failure + l.forget_after
      → l.free_tries ≤ e.failures
      → l.base_delay ≤ l.max_delay
      → later < now + l.base_delay
      → later ≤ now + l.forget_after
      → IsBlocked (fail_key l now k) k later
  unfolding fail_key count_failure
  blocks_second l now later e f recent used fair soon kept =
      let fresh : forgotten l now e ≡ false = ground arith in
      let more : ltb l.free_tries (e.failures + 1) ≡ true = ground arith in
      let delay = cooldown-ge l (e.failures + 1) fair in
      rw (f, fresh, fail_key, count_failure, more)
        (record {
          entry = record {
            failures = e.failures + 1;
            last_failure = now;
            blocked_till = now + cooldown l (e.failures + 1);
          };
          found = lookup-store_self k _ l.entries;
          recent = kept;
          blocked = omega (arith, delay, soon);
        })

  -- A failed attempt blocks the second key, if that has used up its free tries and the table has room.
  done_blocks :
      (l : Limiter) (now later : ℕ) (order : List Text) (e : Entry)
      → length l.entries < l.max_entries
      → lookup k l.entries ≡ some e
      → now ≤ e.last_failure + l.forget_after
      → l.free_tries ≤ e.failures
      → l.base_delay ≤ l.max_delay
      → later < now + l.base_delay
      → later ≤ now + l.forget_after
      → IsBlocked (done l now order (j ∷ k ∷ []) false) k later
  unfolding done failure fail_loop
  done_blocks l now later order e room f recent used fair soon kept =
      let l0 : Limiter = record l { inflight = leave (j ∷ k ∷ []) l.inflight } in
      let (l1, first, same, params) = fail_first l0 now in
      let few : leb l.max_entries (length l.entries) ≡ false = ground arith in
      rw (few, done, failure, fail_loop, first)
        (blocks_second l1 now later e (ground (arith, same, f)) (ground (arith, params.0, recent))
          (ground (arith, params.1, used)) (ground (arith, params.2, params.3, fair))
          (ground (arith, params.2, soon)) (ground (arith, params.0, kept)))

  allow-Keeps :
      (l : Limiter) (now : ℕ) (e : Entry)
      → lookup k l.entries ≡ some e
      → now ≤ e.last_failure + l.forget_after
      → Keeps k l (allow_loop l now (j ∷ k ∷ []) 0).0
  unfolding allow_loop
  allow-Keeps l now e f recent =
      let (l', wait, q, kept) = first_key l now (k ∷ []) in
      let found : lookup k l'.entries ≡ some e = kept.same ∙ f in
      let fresh : forgotten l' now e ≡ false = ground (arith, kept.forget_after) in
      let last : (allow_loop l' now (k ∷ []) wait).0 ≡ l' = ground (arith, found, fresh) in
      rw (q, last) kept

  reserved_state :
      (l : Limiter) (now : ℕ) (keys : List Text)
      → (reserve l now keys).1 ≡ true
      → (f : Text → ℕ) × ((reserve l now keys).0
          ≡ record (allow_loop l now keys 0).0 { inflight = f })
  unfolding reserve allow
  reserved_state l now keys h = (enter keys (allow_loop l now keys 0).0.inflight, ground arith)

  -- What an attempt leaves of the second key's entry when it gets its place.
  pub reserve-Keeps :
      (l : Limiter) (now : ℕ) (e : Entry)
      → lookup k l.entries ≡ some e
      → now ≤ e.last_failure + l.forget_after
      → (reserve l now (j ∷ k ∷ [])).1 ≡ true
      → Keeps k l (reserve l now (j ∷ k ∷ [])).0
  reserve-Keeps l now e f recent h =
      let (g, q) = reserved_state l now (j ∷ k ∷ []) h in
      let kept = allow-Keeps l now e f recent in
      rw q (record {
        same = kept.same;
        size = kept.size;
        forget_after = kept.forget_after;
        free_tries = kept.free_tries;
        base_delay = kept.base_delay;
        max_delay = kept.max_delay;
        max_entries = kept.max_entries;
      })

  -- An attempt that gets its place and fails blocks the second key, if that has used up its free
  -- tries and the table has room.
  pub failed_attempt :
      (l : Limiter) (now ended later : ℕ) (order : List Text) (e : Entry)
      → length l.entries < l.max_entries
      → lookup k l.entries ≡ some e
      → now ≤ ended
      → ended ≤ e.last_failure + l.forget_after
      → l.free_tries ≤ e.failures
      → l.base_delay ≤ l.max_delay
      → later < ended + l.base_delay
      → later ≤ ended + l.forget_after
      → (reserve l now (j ∷ k ∷ [])).1 ≡ true
      → IsBlocked (done (reserve l now (j ∷ k ∷ [])).0 ended order (j ∷ k ∷ []) false) k later
  failed_attempt l now ended later order e room f after recent used fair soon kept_for h =
      let kept = reserve-Keeps l now e f (omega arith) h in
      done_blocks (reserve l now (j ∷ k ∷ [])).0 ended later order e
        (omega (arith, kept.size, kept.max_entries, room)) (kept.same ∙ f)
        (omega (arith, kept.forget_after, recent)) (omega (arith, kept.free_tries, used))
        (omega (arith, kept.base_delay, kept.max_delay, fair))
        (omega (arith, kept.base_delay, soon)) (omega (arith, kept.forget_after, kept_for))
