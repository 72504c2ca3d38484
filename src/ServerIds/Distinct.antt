-- ===== src/ServerIds/Distinct.antt =====
-- About assignStableIDs (backend/serverids.go): whether two servers can get one ID.
use linuxgsm_dashboard.Base.{
  ℕ, ◌+◌, ◌≤◌, ◌≡◌, refl, inl, inr, ◌⊎◌, Text, List, [], ◌∷◌, ◌++◌, Bool, true, false, ◌||◌, some,
  arith, eqt, eqt_iff, text_mem, length, All, Bool-cases, Option-cases, length-append,
}
use linuxgsm_dashboard.Base.Tables.{Table, store}
use linuxgsm_dashboard.Base.Fresh.{candidate, first_free_lem}
use linuxgsm_dashboard.Ids.{is_valid_local_server_id}
use linuxgsm_dashboard.ServerIds.{
  Instance, stored_ids, Slot, settled, fresh, known_id, first_pass, is_taken, base_of, new_id,
  second_pass, assign_stable_ids,
}

abbrev pub ids : List Instance → List Text
ids [] = []
ids (inst ∷ rest) = inst.id ∷ ids rest

-- No two texts of the list are the same.
abbrev pub Distinct : List Text → Type 0
Distinct [] = Unit
Distinct (t ∷ ts) = (text_mem t ts ≡ false) × Distinct ts

-- The first `n` names that are tried for a new server are valid IDs.
abbrev pub Tryable : ℕ → Instance → Type 0
Tryable n inst = (k : ℕ) → k ≤ n → is_valid_local_server_id (candidate (base_of inst) k) ≡ true

abbrev slot_ids : List Slot → List Text
slot_ids [] = []
slot_ids (settled inst ∷ slots) = inst.id ∷ slot_ids slots
slot_ids (fresh inst ∷ slots) = slot_ids slots

abbrev SlotTryable : ℕ → Slot → Type 0
SlotTryable n (settled inst) = Unit
SlotTryable n (fresh inst) = Tryable n inst

-- What the first loop leaves: the settled IDs are distinct and used, but were not used before.
record IsSplit (n bound : ℕ) (before : List Text) (slots : List Slot) (used : List Text)
    : Type 0 where
  distinct : Distinct (slot_ids slots)
  settled_used : All (λ t. text_mem t used ≡ true) (slot_ids slots)
  settled_new : All (λ t. text_mem t before ≡ false) (slot_ids slots)
  more : (t : Text) → text_mem t before ≡ true → text_mem t used ≡ true
  tryable : All (SlotTryable n) slots
  size : (length used ≤ bound + length before) × (length slots ≤ bound)

All-missing :
    (id : Text) (used ts : List Text)
    → All (λ t. text_mem t (id ∷ used) ≡ false) ts
    → (text_mem id ts ≡ false) × All (λ t. text_mem t used ≡ false) ts
unfolding text_mem
All-missing id used [] h = (refl, tt)
All-missing id used (t ∷ ts) h =
    let (a, b) = All-missing id used ts h.1 in
    (ground (arith, eqt_iff id t, eqt_iff t id, h.0), (ground (arith, h.0), b))

known-unused :
    (stored : Table Text) (used : List Text) (inst : Instance) (id : Text)
    → known_id stored used inst ≡ some id
    → text_mem id used ≡ false
unfolding known_id
known-unused stored used inst id h = ground arith

text_mem-first : (t : Text) (ts : List Text) → text_mem t (t ∷ ts) ≡ true
unfolding text_mem
text_mem-first t ts = ground (arith, eqt_iff t t)

text_mem-later : (t s : Text) (ts : List Text) → text_mem t ts ≡ true → text_mem t (s ∷ ts) ≡ true
unfolding text_mem
text_mem-later t s ts h = ground arith

first_pass-IsSplit :
    (n : ℕ) (stored : Table Text) (used : List Text) (found : List Instance)
    → All (λ (i : Instance). i.host ≡ true) found
    → All (Tryable n) found
    → IsSplit n
        (length found)
        used
        (first_pass stored used found).0
        (first_pass stored used found).1
unfolding first_pass known_id
first_pass-IsSplit n stored used [] host t = record {
  distinct = tt;
  settled_used = tt;
  settled_new = tt;
  more = λ t h. h;
  tryable = tt;
  size = (omega arith, omega arith);
}
first_pass-IsSplit n stored used (inst ∷ rest) host t =
    elim (Option-cases (known_id stored used inst)) [
      | inl e ↦
          let r = first_pass-IsSplit n stored used rest host.1 t.1 in
          rw (host.0, e, first_pass)
            (record {
              distinct = r.distinct;
              settled_used = r.settled_used;
              settled_new = r.settled_new;
              more = r.more;
              tryable = (t.0, r.tryable);
              size = (omega (arith, r.size.0), omega (arith, r.size.1));
            })
      | inr (id, e) ↦
          let r = first_pass-IsSplit n stored (id ∷ used) rest host.1 t.1 in
          let (a, b) =
            All-missing id used (slot_ids (first_pass stored (id ∷ used) rest).0) r.settled_new in
          let new : text_mem id used ≡ false = known-unused stored used inst id e in
          rw (host.0, e, first_pass)
            (record {
              distinct = (a, r.distinct);
              settled_used = (r.more id (text_mem-first id used), r.settled_used);
              settled_new = (new, b);
              more = λ t h. r.more t (text_mem-later t id used h);
              tryable = (tt, r.tryable);
              size = (omega (arith, r.size.0), omega (arith, r.size.1));
            })
    ]

length-stored_ids : (m : Table Text) → length (stored_ids m) ≡ length m
length-stored_ids [] = refl
length-stored_ids (e ∷ m) = omega (arith, length-stored_ids m)

text_mem-append :
    (t : Text) (xs ys : List Text) → text_mem t (xs ++ ys) ≡ (text_mem t xs || text_mem t ys)
unfolding text_mem
text_mem-append t [] ys = refl
text_mem-append t (x ∷ xs) ys = ground (arith, text_mem-append t xs ys)

-- The search for a new ID ends, and the ID that it finds is valid, not used, and not stored for any server.
pub new_id_lem :
    (used reserved : List Text) (inst : Instance)
    → Tryable (1 + length used + length reserved) inst
    → is_taken used reserved (new_id used reserved inst) ≡ false
unfolding new_id
new_id_lem used reserved inst t = elim (Bool-cases (is_taken used reserved inst.id)) [
  | inr free ↦ rw (free, new_id) free
  | inl bad ↦
      rw (bad, new_id)
        (first_free_lem (length used + length reserved) (base_of inst) (is_taken used reserved) 1
          (used ++ reserved) (omega arith)
          (λ k le top hit.
            ground (
              arith,
              t k (omega arith),
              text_mem-append (candidate (base_of inst) k) used reserved,
            ))
          (omega (arith, length-append used reserved)))
]

abbrev OneOf : List Slot → List Text → Text → Type 0
OneOf slots used t = (text_mem t (slot_ids slots) ≡ true) ⊎ (text_mem t used ≡ false)

OneOf-result :
    (n : ℕ) (reserved : List Text) (stored : Table Text) (used : List Text) (changed : Bool)
    (slots : List Slot) (t : Text)
    → 1 + length used + length reserved + length slots ≤ n
    → All (SlotTryable n) slots
    → text_mem t (ids (second_pass reserved stored used changed slots).servers) ≡ true
    → OneOf slots used t
unfolding second_pass text_mem
OneOf-result n reserved stored used changed [] t b s h = cc
OneOf-result n reserved stored used changed (settled inst ∷ slots) t b s h =
    elim (Bool-cases (eqt t inst.id)) [
      | inl same ↦ inl (ground arith)
      | inr other ↦
          elim (OneOf-result n reserved stored used changed slots t (omega arith) s.1
            (ground arith)) [ inl there ↦ inl (ground arith) | inr new ↦ inr new ]
    ]
OneOf-result n reserved stored used changed (fresh inst ∷ slots) t b s h =
    let id = new_id used reserved inst in
    let free = new_id_lem used reserved inst (λ k le. s.0 k (omega arith)) in
    elim (Bool-cases (eqt t id)) [
      | inl same ↦ inr (ground (arith, eqt_iff t id))
      | inr other ↦
          elim (OneOf-result n reserved (store inst.key id stored) (id ∷ used) true slots t
            (omega arith) s.1 (ground arith)) [
              | inl there ↦ inl there
              | inr new ↦ inr (ground arith)
            ]
    ]

missing :
    (t : Text) (slots : List Slot) (used ts : List Text)
    → (text_mem t ts ≡ true → OneOf slots used t)
    → text_mem t (slot_ids slots) ≡ false
    → text_mem t used ≡ true
    → text_mem t ts ≡ false
missing t slots used ts f a b = elim (Bool-cases (text_mem t ts)) [
  | inr out ↦ out
  | inl in_ts ↦ elim (f in_ts) [
    | inl there ↦ absurd (ground arith)
    | inr new ↦ absurd (ground arith)
  ]
]

used_missing :
    (id : Text) (used ts : List Text)
    → All (λ t. text_mem t used ≡ true) ts
    → text_mem id used ≡ false
    → text_mem id ts ≡ false
unfolding text_mem
used_missing id used [] h u = refl
used_missing id used (t ∷ ts) h u =
    ground (arith, eqt_iff id t, eqt_iff t id, h.0, used_missing id used ts h.1 u)

All-more :
    (id : Text) (used ts : List Text)
    → All (λ t. text_mem t used ≡ true) ts
    → All (λ t. text_mem t (id ∷ used) ≡ true) ts
All-more id used [] h = tt
All-more id used (t ∷ ts) h = (text_mem-later t id used h.0, All-more id used ts h.1)

second_pass-Distinct :
    (n : ℕ) (reserved : List Text) (stored : Table Text) (used : List Text) (changed : Bool)
    (slots : List Slot)
    → 1 + length used + length reserved + length slots ≤ n
    → All (SlotTryable n) slots
    → Distinct (slot_ids slots)
    → All (λ t. text_mem t used ≡ true) (slot_ids slots)
    → Distinct (ids (second_pass reserved stored used changed slots).servers)
unfolding second_pass
second_pass-Distinct n reserved stored used changed [] b s d u = tt
second_pass-Distinct n reserved stored used changed (settled inst ∷ slots) b s d u = (
  missing inst.id slots used _
      (OneOf-result n reserved stored used changed slots inst.id (omega arith) s.1) d.0 u.0,
  second_pass-Distinct n reserved stored used changed slots (omega arith) s.1 d.1 u.1,
)
second_pass-Distinct n reserved stored used changed (fresh inst ∷ slots) b s d u =
    let id = new_id used reserved inst in
    let free = new_id_lem used reserved inst (λ k le. s.0 k (omega arith)) in
    (
      missing id slots (id ∷ used) _
          (OneOf-result n reserved (store inst.key id stored) (id ∷ used) true slots id
            (omega arith) s.1)
          (used_missing id used (slot_ids slots) u (ground arith)) (text_mem-first id used),
      second_pass-Distinct n reserved (store inst.key id stored) (id ∷ used) true slots
          (omega arith) s.1 d (All-more id used (slot_ids slots) u),
    )

-- If all the servers found belong to this machine, and the names that are tried for new ones are valid
-- IDs, then no two of the servers get the same ID, whatever IDs are stored and were proposed.
pub assign_stable_ids-Distinct :
    (stored : Table Text) (found : List Instance)
    → All (λ (i : Instance). i.host ≡ true) found
    → All (Tryable (1 + length found + length found + length stored)) found
    → Distinct (ids (assign_stable_ids stored found).servers)
unfolding assign_stable_ids
assign_stable_ids-Distinct stored found host t =
    let n = 1 + length found + length found + length stored in
    let r = first_pass-IsSplit n stored [] found host t in
    second_pass-Distinct n (stored_ids stored) stored (first_pass stored [] found).1 false
      (first_pass stored [] found).0 (omega (arith, r.size.0, r.size.1, length-stored_ids stored))
      r.tryable r.distinct r.settled_used
