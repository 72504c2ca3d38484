-- ===== src/Cron/Fields.antt =====
-- About parseCronField of backend/cron.go: the values that the parts of a field select.
use linuxgsm_dashboard.Base.{
  ℕ, zero, suc, ◌+◌, ◌-◌, ◌*◌, ◌%◌, ◌^◌, ◌≤◌, ◌<◌, ◌≡◌, refl, ◌⊎◌, ◌↔◌, inl, inr, Text, List, [],
  ◌∷◌, true, false, ◌||◌, some, arith, All, atoi, parse_nat, pos, negsuc, cut, split_on, eqt, codes,
  ltb, leb, ◌==◌, if◌then◌else◌, Bool-cases, Option-cases,
}
use linuxgsm_dashboard.Cron.{
  Bits, fill, split_step, part_range, add_part, add_parts, parse_cron_field, as_step, no_bits,
  set_bit, at_most, max_rounds,
}

-- `x` is one of the values from `lo` to `hi` in steps.
abbrev pub Step : ℕ → ℕ → ℕ → ℕ → Type 0
Step lo hi step x = (k : ℕ) × (x ≡ lo + k * step) × (x ≤ hi)

filled :
    (rounds v hi step : ℕ) (bits : Bits) (x : ℕ)
    → hi < 64
    → v ≤ hi + step
    → hi + step < 2 ^ 63
    → fill rounds v hi step bits x ≡ true
    → (bits x ≡ true) ⊎ Step v hi step x
unfolding fill
filled zero v hi step bits x h b w e = inl e
filled (suc rounds) v hi step bits x h b w e = elim (Bool-cases (at_most v hi)) [
  | inr over ↦ inl (ground arith)
  | inl runs ↦
      elim (filled rounds ((v + step) % 2 ^ 64) hi step (if ltb v 64 then set_bit v bits else bits)
        x h (ground arith) w (rw (runs, fill) at e)) [
          | inl old ↦ elim (Bool-cases (x == v)) [
            | inl here ↦ inr (0, ground arith, ground arith)
            | inr other ↦ inl (ground arith)
          ]
          | inr (k, at, le) ↦ inr (k + 1, ground arith, le)
        ]
]

fill_keeps :
    (rounds v hi step : ℕ) (bits : Bits) (x : ℕ)
    → bits x ≡ true
    → fill rounds v hi step bits x ≡ true
unfolding fill
fill_keeps zero v hi step bits x h = h
fill_keeps (suc rounds) v hi step bits x h = elim (Bool-cases (at_most v hi)) [
  | inr over ↦ rw (over, fill) h
  | inl runs ↦
      rw (runs, fill)
        (fill_keeps rounds ((v + step) % 2 ^ 64) hi step (if ltb v 64 then set_bit v bits else bits)
          x (ground arith))
]

fill_reaches :
    (k rounds v hi step : ℕ) (bits : Bits) (x : ℕ)
    → hi < 64
    → 1 ≤ step
    → hi + step < 2 ^ 63
    → hi < v + rounds
    → x ≡ v + k * step
    → x ≤ hi
    → fill rounds v hi step bits x ≡ true
unfolding fill
fill_reaches k zero v hi step bits x h one w f at le = absurd (ground arith)
fill_reaches zero (suc rounds) v hi step bits x h one w f at le = elim (Bool-cases (at_most v hi)) [
  | inr over ↦ absurd (ground arith)
  | inl runs ↦
      rw (runs, fill)
        (fill_keeps rounds ((v + step) % 2 ^ 64) hi step (if ltb v 64 then set_bit v bits else bits)
          x (ground arith))
]
fill_reaches (suc k) (suc rounds) v hi step bits x h one w f at le =
    let next : x ≡ (v + step) + k * step = ground arith in
    let small : (v + step) % 2 ^ 64 ≡ v + step = ground arith in
    elim (Bool-cases (at_most v hi)) [
      | inr over ↦ absurd (ground arith)
      | inl runs ↦
          rw (runs, small, fill)
            (fill_reaches k rounds (v + step) hi step (if ltb v 64 then set_bit v bits else bits) x
              h one w (omega arith) next le)
    ]

fill_empty :
    (rounds v hi step : ℕ) (bits : Bits) → hi < v → v < 2 ^ 63 → fill rounds v hi step bits ≡ bits
unfolding fill
fill_empty zero v hi step bits h w = refl
fill_empty (suc rounds) v hi step bits h w =
    let over : at_most v hi ≡ false = ground arith in rw (over, fill) refl

-- The loop adds the values from `lo` to `hi` in steps, if no step wraps around.
fill_lem :
    (lo hi step : ℕ) (bits : Bits) (x : ℕ)
    → hi < 64
    → lo < 2 ^ 63
    → 1 ≤ step
    → hi + step < 2 ^ 63
    → (fill max_rounds lo hi step bits x ≡ true) ↔ ((bits x ≡ true) ⊎ Step lo hi step x)
fill_lem lo hi step bits x h small one w = elim (Bool-cases (leb lo hi)) [
  | inr empty ↦
      let same = fill_empty max_rounds lo hi step bits (ground arith) small in
      (
        λ e. inl (rw same at e),
        λ s. elim s [ inl old ↦ rw same old | inr (k, at, low) ↦ absurd (ground arith) ],
      )
  | inl le ↦ (
    filled max_rounds lo hi step bits x h (ground arith) w,
    λ s. elim s [
      | inl old ↦ fill_keeps max_rounds lo hi step bits x old
      | inr (k, at, low) ↦ fill_reaches k max_rounds lo hi step bits x h one w (omega arith) at low
    ],
  )
]

atoi_bound : (s : Text) (n : ℕ) → atoi s ≡ some (pos n) → n < 2 ^ 63
unfolding atoi parse_nat
atoi_bound [] n h = cc
atoi_bound (c ∷ s) n h = ground arith

split_step_bound : (part r : Text) (n : ℕ) → split_step part ≡ some (r, n) → 1 ≤ n
unfolding split_step
split_step_bound part r n h = elim (Option-cases (cut b'/' part)) [
  | inl e ↦ ground arith
  | inr ((a, t), e) ↦ elim (Option-cases (as_step (atoi t))) [
    | inl d ↦ ground arith
    | inr (m, d) ↦ ground arith
  ]
]

part_range_bound :
    (low top : ℕ) (r : Text) (n lo hi : ℕ)
    → low < 2 ^ 63
    → part_range low top r n ≡ some (lo, hi)
    → lo < 2 ^ 63
unfolding part_range
part_range_bound low top r n lo hi w h = elim (Bool-cases (eqt r (codes "*"))) [
  | inl star ↦ ground arith
  | inr other ↦ elim (Option-cases (cut b'-' r)) [
    | inl e ↦ elim (Option-cases (atoi r)) [
      | inl d ↦ ground arith
      | inr (pos a, d) ↦ ground (arith, atoi_bound r a d)
      | inr (negsuc a, d) ↦ ground arith
    ]
    | inr ((a, b), e) ↦ elim (Option-cases (atoi a)) [
      | inl d ↦ ground arith
      | inr (negsuc m, d) ↦ ground arith
      | inr (pos m, d) ↦ elim (Option-cases (atoi b)) [
        | inl f ↦ ground arith
        | inr (negsuc k, f) ↦ ground arith
        | inr (pos k, f) ↦ ground (arith, atoi_bound a m d)
      ]
    ]
  ]
]

-- A part selects a value: it has a step and a first and a last value, and the value is reached from
-- the first in steps, without going above the last.
pub record Selects (low top : ℕ) (part : Text) (x : ℕ) : Type 0 where
  pub range_part : Text
  pub step : ℕ
  pub lo : ℕ
  pub hi : ℕ
  pub has_step : split_step part ≡ some (range_part, step)
  pub has_range : part_range low top range_part step ≡ some (lo, hi)
  pub inside : (low ≤ lo) × (hi ≤ top)
  pub reached : Step lo hi step x

-- The step of a part does not wrap around a 64-bit int.
abbrev pub IsModest : Text → Type 0
IsModest part = (r : Text) (n : ℕ) → split_step part ≡ some (r, n) → n < 2 ^ 63 - 64

some_injective : {a b : Bits} → some a ≡ some b → a ≡ b
some_injective e = cc

same_range :
    {low top : ℕ} {part r : Text} {n lo hi x : ℕ}
    → split_step part ≡ some (r, n)
    → part_range low top r n ≡ some (lo, hi)
    → Selects low top part x
    → Step lo hi n x
same_range {low} {top} {part} {r} {n} {lo} {hi} {x} e d p =
    let (k, at, le) = p.reached in
    let s : p.step ≡ n = cc in
    let q : p.range_part ≡ r = cc in
    let first : p.lo ≡ lo = cc in let last : p.hi ≡ hi = cc in (k, cc, rw last at le)

add_part_lem :
    (low top : ℕ) (part : Text) (bits out : Bits) (x : ℕ)
    → top < 64
    → low < 64
    → IsModest part
    → add_part low top part bits ≡ some out
    → (out x ≡ true) ↔ ((bits x ≡ true) ⊎ Selects low top part x)
unfolding add_part
add_part_lem low top part bits out x t l m h = elim (Option-cases (split_step part)) [
  | inl e ↦ ground arith
  | inr ((r, n), e) ↦ elim (Option-cases (part_range low top r n)) [
    | inl d ↦ ground arith
    | inr ((lo, hi), d) ↦ elim (Bool-cases (ltb lo low || ltb top hi)) [
      | inl bad ↦ ground arith
      | inr good ↦
          let same : fill max_rounds lo hi n bits ≡ out =
            some_injective (rw (e, d, good, add_part) at h) in
          let f =
            fill_lem lo hi n bits x (ground arith)
              (part_range_bound low top r n lo hi (omega arith) d) (split_step_bound part r n e)
              (ground (arith, m r n e)) in
          (
            λ o. elim (f.0 (rw same o)) [
              | inl old ↦ inl old
              | inr steps ↦ inr (record {
                range_part = r;
                step = n;
                lo = lo;
                hi = hi;
                has_step = e;
                has_range = d;
                inside = ground arith;
                reached = steps;
              })
            ],
            λ s. rw same at (f.1 (elim s [ inl old ↦ inl old | inr p ↦ inr (same_range e d p) ])),
          )
    ]
  ]
]

abbrev pub Chosen : ℕ → ℕ → ℕ → List Text → Type 0
Chosen low top x [] = ⊥
Chosen low top x (part ∷ parts) = Selects low top part x ⊎ Chosen low top x parts

add_parts_lem :
    (low top : ℕ) (parts : List Text) (bits out : Bits) (x : ℕ)
    → top < 64
    → low < 64
    → All IsModest parts
    → add_parts low top parts bits ≡ some out
    → (out x ≡ true) ↔ ((bits x ≡ true) ⊎ Chosen low top x parts)
unfolding add_parts
add_parts_lem low top [] bits out x t l m h =
    let same : bits ≡ out = some_injective h in
    (
      λ o. inl (rw same o),
      λ s. elim s [ inl old ↦ rw same at old | inr none_left ↦ absurd none_left ],
    )
add_parts_lem low top (part ∷ parts) bits out x t l m h =
    elim (Option-cases (add_part low top part bits)) [
      | inl e ↦ absurd (ground arith)
      | inr (more, e) ↦
          let first = add_part_lem low top part bits more x t l m.0 e in
          let rest = add_parts_lem low top parts more out x t l m.1 (rw (e, add_parts) at h) in
          (
            λ o. elim (rest.0 o) [
              | inl old ↦ elim (first.0 old) [ inl a ↦ inl a | inr b ↦ inr (inl b) ]
              | inr later ↦ inr (inr later)
            ],
            λ s. rest.1 (elim s [
              | inl a ↦ inl (first.1 (inl a))
              | inr c ↦ elim c [ inl b ↦ inl (first.1 (inr b)) | inr later ↦ inr later ]
            ]),
          )
    ]

-- A field of a cron expression that is accepted, with bounds below 64 and steps that do not wrap a
-- 64-bit int, sets exactly the bits of the values that one of its parts between commas selects.
pub parse_cron_field_lem :
    (field : Text) (low top : ℕ) (out : Bits) (x : ℕ)
    → top < 64
    → low < 64
    → All IsModest (split_on b',' field)
    → parse_cron_field field low top ≡ some out
    → (out x ≡ true) ↔ Chosen low top x (split_on b',' field)
unfolding parse_cron_field
parse_cron_field_lem field low top out x t l m h =
    let both = add_parts_lem low top (split_on b',' field) no_bits out x t l m h in
    (λ o. elim (both.0 o) [ inl old ↦ absurd (ground arith) | inr c ↦ c ], λ c. both.1 (inr c))

Chosen-bound : (low top x : ℕ) (parts : List Text) → Chosen low top x parts → (low ≤ x) × (x ≤ top)
Chosen-bound low top x [] c = absurd c
Chosen-bound low top x (part ∷ parts) (inl s) =
    let (k, at, le) = s.reached in let (a, b) = s.inside in (ground arith, omega arith)
Chosen-bound low top x (part ∷ parts) (inr c) = Chosen-bound low top x parts c

-- All the bits that an accepted field sets lie within the bounds of the field, if these are below 64
-- and its steps do not wrap a 64-bit int.
pub parse_cron_field_bound :
    (field : Text) (low top : ℕ) (out : Bits) (x : ℕ)
    → top < 64
    → low < 64
    → All IsModest (split_on b',' field)
    → parse_cron_field field low top ≡ some out
    → out x ≡ true
    → (low ≤ x) × (x ≤ top)
parse_cron_field_bound field low top out x t l m h o =
    Chosen-bound low top x (split_on b',' field)
      ((parse_cron_field_lem field low top out x t l m h).0 o)
