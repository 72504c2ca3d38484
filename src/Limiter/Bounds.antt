-- ===== src/Limiter/Bounds.antt =====
-- About one key of LoginLimiter (backend/ratelimit.go): cooldowns and the size of the table.
use linuxgsm_dashboard.Base.{
  ℕ, ◌+◌, ◌≤◌, ◌≡◌, refl, inl, inr, Text, [], ◌∷◌, none, some, arith, leb, if◌then◌else◌, eqt,
  length, All, Bool-cases, Option-cases,
}
use linuxgsm_dashboard.Limiter.{
  Entry, Entries, Limiter, lookup, store, delete, forgotten, cooldown, count_failure, blank_entry,
  fail_key,
}

-- No entry is blocked for longer than the longest cooldown from the time `t` on.
abbrev pub Capped : ℕ → Text × Entry → Type 0
Capped limit p = p.1.blocked_till ≤ limit

-- The table is within its size, and at the time `t` no key has longer to wait than the longest cooldown.
pub record IsSafe (l : Limiter) (t : ℕ) : Type 0 where
  pub bounded : length l.entries ≤ l.max_entries
  pub capped : All (Capped (t + l.max_delay)) l.entries

cooldown-le : (l : Limiter) (failures : ℕ) → cooldown l failures ≤ l.max_delay
unfolding cooldown
cooldown-le l failures = ground arith

pub length-store_new :
    (k : Text) (e : Entry) (m : Entries) → lookup k m ≡ none → length (store k e m) ≡ length m + 1
unfolding lookup store
length-store_new k e [] h = refl
length-store_new k e ((j, d) ∷ m) h = ground (arith, length-store_new k e m)

pub length-store_old :
    (k : Text) (e d : Entry) (m : Entries) → lookup k m ≡ some d → length (store k e m) ≡ length m
unfolding lookup store
length-store_old k e d [] h = cc
length-store_old k e d ((j, x) ∷ m) h = ground (arith, length-store_old k e d m)

pub All-store :
    (P : Text × Entry → Type 0) (k : Text) (e : Entry) (m : Entries)
    → P (k, e)
    → All P m
    → All P (store k e m)
unfolding store
All-store P k e [] p h = (p, tt)
All-store P k e ((j, d) ∷ m) p h = elim (Bool-cases (eqt j k)) [
  | inl same ↦ rw same (p, h.1)
  | inr other ↦ rw other (h.0, All-store P k e m p h.1)
]

pub length-delete-le : (k : Text) (m : Entries) → length (delete k m) ≤ length m
unfolding delete
length-delete-le k [] = omega arith
length-delete-le k ((j, e) ∷ m) = ground (arith, length-delete-le k m)

pub All-delete : (P : Text × Entry → Type 0) (k : Text) (m : Entries) → All P m → All P (delete k m)
unfolding delete
All-delete P k [] h = tt
All-delete P k ((j, e) ∷ m) h = elim (Bool-cases (eqt j k)) [
  | inl same ↦ rw same (All-delete P k m h.1)
  | inr other ↦ rw other (h.0, All-delete P k m h.1)
]

pub All-lookup :
    (limit : ℕ) (k : Text) (m : Entries) (e : Entry)
    → All (Capped limit) m
    → lookup k m ≡ some e
    → e.blocked_till ≤ limit
unfolding lookup
All-lookup limit k [] e h f = cc
All-lookup limit k ((j, d) ∷ m) e h f = ground (arith, All-lookup limit k m e h.1)

All-Capped_le : (a b : ℕ) (m : Entries) → a ≤ b → All (Capped a) m → All (Capped b) m
All-Capped_le a b [] h all = tt
All-Capped_le a b ((k, e) ∷ m) h all = (omega arith, All-Capped_le a b m h all.1)

-- Time passes.
pub IsSafe-later : (l : Limiter) (t now : ℕ) → t ≤ now → IsSafe l t → IsSafe l now
IsSafe-later l t now h s = record {
  bounded = s.bounded;
  capped = All-Capped_le (t + l.max_delay) (now + l.max_delay) l.entries (omega arith) s.capped;
}

count_failure_capped :
    (l : Limiter) (now : ℕ) (e : Entry)
    → e.blocked_till ≤ now + l.max_delay
    → (count_failure l now e).blocked_till ≤ now + l.max_delay
unfolding count_failure
count_failure_capped l now e h = ground (arith, cooldown-le l (e.failures + 1))

pub with_entries :
    (l : Limiter) (t : ℕ) (m : Entries)
    → length m ≤ l.max_entries
    → All (Capped (t + l.max_delay)) m
    → IsSafe (record l { entries = m }) t
with_entries l t m b c = record { bounded = b; capped = c }

pub fail_key-IsSafe :
    (l : Limiter) (now : ℕ) (k : Text) → IsSafe l now → IsSafe (fail_key l now k) now
unfolding fail_key
fail_key-IsSafe l now k s = elim (Option-cases (lookup k l.entries)) [
  | inl e ↦ elim (Bool-cases (leb l.max_entries (length l.entries))) [
    | inl full ↦ rw (e, full, fail_key) s
    | inr room ↦
        rw (e, room, fail_key)
          (with_entries l now _
            (ground (arith, length-store_new k (count_failure l now blank_entry) l.entries e))
            (All-store (Capped (now + l.max_delay)) k _ l.entries
              (count_failure_capped l now blank_entry (omega arith)) s.capped))
  ]
  | inr (d, e) ↦
      let old = All-lookup (now + l.max_delay) k l.entries d s.capped e in
      let x = if forgotten l now d then blank_entry else d in
      rw (e, fail_key)
        (with_entries l now _
          (ground (arith, length-store_old k (count_failure l now x) d l.entries e, s.bounded))
          (All-store (Capped (now + l.max_delay)) k _ l.entries
            (count_failure_capped l now x (ground arith)) s.capped))
]
