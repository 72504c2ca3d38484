-- ===== src/Limiter.antt =====
-- LoginLimiter of backend/ratelimit.go: failed logins per key (source address, user name) with
-- growing, bounded cooldowns. Times are nanoseconds. The map `entries` is an association list, since
-- its size matters; a write replaces the entry of a key or appends one. The order in which Go ranges
-- over a map is not fixed, so pruning gets that order as an argument. A key that `inflight` lacks
-- counts 0, as reading a Go map does.
pub mod Bounds
pub mod Runs
pub mod Blocks
mod Examples
use linuxgsm_dashboard.Base.{
  ℕ, zero, suc, ◌+◌, ◌-◌, ◌*◌, Text, List, [], ◌∷◌, Bool, true, false, not, ◌&&◌, ◌||◌, Option,
  none, some, ltb, leb, ◌==◌, if◌then◌else◌, eqt, length,
}

pub record Entry : Type 0 where
  pub failures : ℕ
  pub last_failure : ℕ
  pub blocked_till : ℕ

abbrev pub Entries : Type 0
Entries = List (Text × Entry)

unfoldable pub lookup : Text → Entries → Option Entry
lookup k [] = none
lookup k ((j, e) ∷ m) = if eqt j k then some e else lookup k m

unfoldable pub store : Text → Entry → Entries → Entries
store k e [] = (k, e) ∷ []
store k e ((j, d) ∷ m) = if eqt j k then (k, e) ∷ m else (j, d) ∷ store k e m

unfoldable pub delete : Text → Entries → Entries
delete k [] = []
delete k ((j, e) ∷ m) = if eqt j k then delete k m else (j, e) ∷ delete k m

pub record Limiter : Type 0 where
  pub entries : Entries
  pub free_tries : ℕ
  pub base_delay : ℕ
  pub max_delay : ℕ
  pub forget_after : ℕ
  pub max_entries : ℕ
  pub inflight : Text → ℕ

abbrev pub second : ℕ
second = 1_000_000_000

unfoldable pub new_login_limiter : Limiter
new_login_limiter = record {
  entries = [];
  free_tries = 5;
  base_delay = 2 * second;
  max_delay = 900 * second;
  forget_after = 1800 * second;
  max_entries = 10000;
  inflight = λ k. 0;
}

-- `now.Sub(e.lastFailure) > l.forgetAfter`
abbrev pub forgotten : Limiter → ℕ → Entry → Bool
forgotten l now e = ltb (e.last_failure + l.forget_after) now

abbrev pub remaining : ℕ → Entry → ℕ
remaining now e = if ltb now e.blocked_till then e.blocked_till - now else 0

abbrev pub larger : ℕ → ℕ → ℕ
larger d wait = if ltb wait d then d else wait

-- The loop of Allow: the limiter without the entries that were forgotten, and the longest wait.
unfoldable pub allow_loop : Limiter → ℕ → List Text → ℕ → Limiter × ℕ
allow_loop l now [] wait = (l, wait)
allow_loop l now (k ∷ ks) wait = elim (lookup k l.entries) [
  | none ↦ allow_loop l now ks wait
  | some e ↦ elim (forgotten l now e) [
    | true ↦ allow_loop (record l { entries = delete k l.entries }) now ks wait
    | false ↦ allow_loop l now ks (larger (remaining now e) wait)
  ]
]

unfoldable pub allow : Limiter → ℕ → List Text → Limiter × Bool × ℕ
allow l now keys = let (l', wait) = allow_loop l now keys 0 in (l', wait == 0, wait)

-- The doubling loop: `rounds` is how often `i` may still grow.
unfoldable pub double : ℕ → ℕ → ℕ → ℕ
double zero max_delay delay = delay
double (suc rounds) max_delay delay =
    let more = double rounds max_delay (delay * 2) in if ltb delay max_delay then more else delay

-- The cooldown after so many failures above the free tries.
unfoldable pub cooldown : Limiter → ℕ → ℕ
cooldown l failures =
    let delay = double (failures - l.free_tries - 1) l.max_delay l.base_delay in
    if ltb l.max_delay delay then l.max_delay else delay

unfoldable pub count_failure : Limiter → ℕ → Entry → Entry
count_failure l now e =
    if ltb l.free_tries (e.failures + 1)
    then record {
      failures = e.failures + 1;
      last_failure = now;
      blocked_till = now + cooldown l (e.failures + 1);
    }
    else record e { failures = e.failures + 1; last_failure = now }

abbrev pub blank_entry : Entry
blank_entry = record { failures = 0; last_failure = 0; blocked_till = 0 }

-- One key of Failure: no new key is tracked when the map is full.
unfoldable pub fail_key : Limiter → ℕ → Text → Limiter
fail_key l now k = elim (lookup k l.entries) [
  | none ↦
      if leb l.max_entries (length l.entries)
      then l
      else record l { entries = store k (count_failure l now blank_entry) l.entries }
  | some e ↦ record l {
    entries =
        store k (count_failure l now (if forgotten l now e then blank_entry else e)) l.entries;
  }
]

abbrev pub keep_entry : Limiter → ℕ → Entry → Bool
keep_entry l now e = not (forgotten l now e && ltb e.blocked_till now)

unfoldable pub prune_old : Limiter → ℕ → Entries → Entries
prune_old l now [] = []
prune_old l now ((k, e) ∷ m) =
    if keep_entry l now e then (k, e) ∷ prune_old l now m else prune_old l now m

-- Every second key of the order, the first one included.
unfoldable pub prune_half : List Text → Entries → Entries
prune_half [] m = m
prune_half (k ∷ []) m = delete k m
prune_half (k ∷ j ∷ ks) m = prune_half ks (delete k m)

unfoldable pub prune : Limiter → ℕ → List Text → Limiter
prune l now order =
    let l' = record l { entries = prune_old l now l.entries } in
    if leb l.max_entries (length l'.entries)
    then record l' { entries = prune_half order l'.entries }
    else l'

unfoldable pub fail_loop : Limiter → ℕ → List Text → Limiter
fail_loop l now [] = l
fail_loop l now (k ∷ ks) = fail_loop (fail_key l now k) now ks

unfoldable pub failure : Limiter → ℕ → List Text → List Text → Limiter
failure l now order keys =
    fail_loop (if leb l.max_entries (length l.entries) then prune l now order else l) now keys

unfoldable pub success : Limiter → List Text → Limiter
success l [] = l
success l (k ∷ ks) = success (record l { entries = delete k l.entries }) ks

abbrev pub failures_of : Limiter → Text → ℕ
failures_of l k = elim (lookup k l.entries) [ none ↦ 0 | some e ↦ e.failures ]

-- An attempt on the key runs, and with it the free tries would be used up.
abbrev pub key_busy : Limiter → Text → Bool
key_busy l k = ltb 0 (l.inflight k) && leb l.free_tries (failures_of l k + l.inflight k)

unfoldable pub any_busy : Limiter → List Text → Bool
any_busy l [] = false
any_busy l (k ∷ ks) = key_busy l k || any_busy l ks

unfoldable pub bump : Text → (Text → ℕ) → Text → ℕ
bump k f j = if eqt k j then f j + 1 else f j

unfoldable pub drop_one : Text → (Text → ℕ) → Text → ℕ
drop_one k f j = if eqt k j then f j - 1 else f j

unfoldable pub enter : List Text → (Text → ℕ) → Text → ℕ
enter [] f = f
enter (k ∷ ks) f = enter ks (bump k f)

unfoldable pub leave : List Text → (Text → ℕ) → Text → ℕ
leave [] f = f
leave (k ∷ ks) f = leave ks (drop_one k f)

-- Reserve: the limiter, whether the attempt may run, and the wait. Nothing happens between its two
-- locked parts.
unfoldable pub reserve : Limiter → ℕ → List Text → Limiter × Bool × ℕ
reserve l now keys =
    let (l', allowed, wait) = allow l now keys in
    if not allowed
    then (l', false, wait)
    else if any_busy l' keys
    then (l', false, l.base_delay)
    else (record l' { inflight = enter keys l'.inflight }, true, 0)

-- The function that Reserve returns, on its first call (`sync.Once` drops any further one).
unfoldable pub done : Limiter → ℕ → List Text → List Text → Bool → Limiter
done l now order keys ok =
    let l' = record l { inflight = leave keys l.inflight } in
    if ok then success l' keys else failure l' now order keys
