-- ===== src/Cfg/Updates.antt =====
-- About updateCfgLines and cfgValues of backend/lgsmcfg.go: what a saved configuration says.
use linuxgsm_dashboard.Base.{
  ◌≡◌, ◌⊎◌, refl, ap, ◌∙◌, inl, inr, Text, List, [], ◌∷◌, ◌++◌, Bool, true, false, not, ◌&&◌, ◌||◌,
  Option, none, some, arith, if◌then◌else◌, eqt, eqt_iff, eqt_refl, text_mem, Bool-cases,
  Option-cases,
}
use linuxgsm_dashboard.Base.Tables.{Table, lookup, lookup-store}
use linuxgsm_dashboard.Ids.{is_safe_cfg_value}
use linuxgsm_dashboard.Cfg.{
  assignment, cfg_value, with_assignment, values_of_lines, written_line, updated_line, update_lines,
  missing_lines, drop_blank_end, skip_space, trim_cr, key_and_value,
}
use linuxgsm_dashboard.Cfg.Lines.{is_key, read-written}

abbrev pub hit : Text → Option (Text × Text) → Option Text → Option Text
hit k none acc = acc
hit k (some (j, raw)) acc = if eqt j k then some (cfg_value raw) else acc

-- The value that a key has after some lines.
unfoldable pub scan : Text → List Text → Option Text → Option Text
scan k [] acc = acc
scan k (line ∷ lines) acc = scan k lines (hit k (assignment line) acc)

pub lookup-values_of_lines :
    (k : Text) (lines : List Text) (m : Table Text)
    → lookup k (values_of_lines lines m) ≡ scan k lines (lookup k m)
unfolding values_of_lines scan
lookup-values_of_lines k [] m = refl
lookup-values_of_lines k (line ∷ lines) m =
    lookup-values_of_lines k lines (with_assignment (assignment line) m)
    ∙ ap (scan k lines) (one (assignment line))
  where
    one : (a : Option (Text × Text)) → lookup k (with_assignment a m) ≡ hit k a (lookup k m)
    one none = refl
    one (some (j, raw)) = lookup-store k j (cfg_value raw) m

pub scan-append :
    (k : Text) (xs ys : List Text) (acc : Option Text)
    → scan k (xs ++ ys) acc ≡ scan k ys (scan k xs acc)
unfolding scan
scan-append k [] ys acc = refl
scan-append k (x ∷ xs) ys acc = scan-append k xs ys (hit k (assignment x) acc)

pub blank : assignment [] ≡ none
unfolding assignment skip_space trim_cr key_and_value
blank = refl

pub scan-drop_blank_end :
    (k : Text) (lines : List Text) (acc : Option Text)
    → scan k (drop_blank_end lines) acc ≡ scan k lines acc
unfolding scan drop_blank_end
scan-drop_blank_end k [] acc = refl
scan-drop_blank_end k (line ∷ lines) acc =
    let ih = scan-drop_blank_end k lines (hit k (assignment line) acc) in
    ground (arith, blank, eqt_iff line [])

-- The keys and values to write are fit for it.
abbrev pub Writable : Table Text → Type 0
Writable values =
    (k v : Text) → lookup k values ≡ some v → (is_key k ≡ true) × (is_safe_cfg_value v ≡ true)

hit-written :
    (k j v : Text) (acc : Option Text)
    → is_key j ≡ true
    → is_safe_cfg_value v ≡ true
    → hit k (assignment (written_line j v)) acc ≡ (if eqt j k then some v else acc)
hit-written k j v acc hk hv = let (raw, e, f) = read-written j v hk hv in rw (e, f) refl

-- A line of a key that is not written does to that key what it did.
updated_other :
    (k : Text) (values : Table Text) (keep_empty : Bool) (seen : List Text) (line : Text)
    (acc : Option Text)
    → Writable values
    → lookup k values ≡ none
    → scan k (updated_line values keep_empty seen line (assignment line)).0 acc
      ≡ hit k (assignment line) acc
unfolding scan updated_line
updated_other k values keep_empty seen line acc w n = elim (Option-cases (assignment line)) [
  | inl e ↦ rw (e, updated_line, e) refl
  | inr ((j, raw), e) ↦ elim (Option-cases (lookup j values)) [
    | inl f ↦ rw (e, f, updated_line, e) refl
    | inr (v, f) ↦
        let d : eqt j k ≡ false = ground (arith, eqt_iff j k) in
        let (hk, hv) = w j v f in
        elim (Bool-cases (text_mem j seen || (eqt v [] && not keep_empty))) [
          | inl gone ↦ rw (e, f, gone, d, updated_line) refl
          | inr stays ↦ rw (e, f, stays, d, updated_line, hit-written k j v acc hk hv, d) refl
        ]
  ]
]

pub scan-update_other :
    (k : Text) (values : Table Text) (keep_empty : Bool) (seen lines : List Text)
    (acc : Option Text)
    → Writable values
    → lookup k values ≡ none
    → scan k (update_lines values keep_empty seen lines).0 acc ≡ scan k lines acc
unfolding scan update_lines
scan-update_other k values keep_empty seen [] acc w n = refl
scan-update_other k values keep_empty seen (line ∷ lines) acc w n =
    let u = updated_line values keep_empty seen line (assignment line) in
    scan-append k u.0 (update_lines values keep_empty u.1 lines).0 acc
    ∙ scan-update_other k values keep_empty u.1 lines (scan k u.0 acc) w n
    ∙ ap (scan k lines) (updated_other k values keep_empty seen line acc w n)

pub missing_other :
    (k : Text) (values : Table Text) (keep_empty : Bool) (seen order : List Text)
    (acc : Option Text)
    → Writable values
    → lookup k values ≡ none
    → scan k (missing_lines values keep_empty seen order) acc ≡ acc
unfolding scan missing_lines
missing_other k values keep_empty seen [] acc w n = refl
missing_other k values keep_empty seen (j ∷ order) acc w n = elim (Option-cases (lookup j values)) [
  | inl f ↦ rw (f, missing_lines) (missing_other k values keep_empty seen order acc w n)
  | inr (v, f) ↦
      let d : eqt j k ≡ false = ground (arith, eqt_iff j k) in
      let (hk, hv) = w j v f in
      elim (Bool-cases (not (text_mem j seen) && (not (eqt v []) || keep_empty))) [
        | inl writes ↦
            let h : hit k (assignment (written_line j v)) acc ≡ acc =
              rw (hit-written k j v acc hk hv, d) refl in
            rw (f, writes, missing_lines)
              (ap (scan k (missing_lines values keep_empty seen order)) h
                ∙ missing_other k values keep_empty seen order acc w n)
        | inr skips ↦
            rw (f, skips, missing_lines) (missing_other k values keep_empty seen order acc w n)
      ]
]

-- A key that was not seen before a line, and was after it, got its value there.
abbrev pub Sets : Text → Text → List Text → List Text → List Text → Option Text → Type 0
Sets k v out seen seen' acc =
    (text_mem k seen ≡ true → text_mem k seen' ≡ true)
    × (scan k out acc ≡ (if text_mem k seen' && not (text_mem k seen) then some v else acc))

updated_own :
    (k v : Text) (values : Table Text) (keep_empty : Bool) (seen : List Text) (line : Text)
    (acc : Option Text)
    → Writable values
    → lookup k values ≡ some v
    → not (eqt v []) || keep_empty ≡ true
    → Sets k v
        (updated_line values keep_empty seen line (assignment line)).0
        seen
        (updated_line values keep_empty seen line (assignment line)).1
        acc
unfolding scan updated_line text_mem
updated_own k v values keep_empty seen line acc w n full = elim (Option-cases (assignment line)) [
  | inl e ↦ rw (e, updated_line, e) ((λ h. h), ground arith)
  | inr ((j, raw), e) ↦ elim (Option-cases (lookup j values)) [
    | inl f ↦
        let d : eqt j k ≡ false = ground (arith, eqt_iff j k) in
        rw (e, f, updated_line, e, d) ((λ h. h), ground arith)
    | inr (u, f) ↦
        let (hk, hv) = w j u f in
        elim (Bool-cases (text_mem j seen || (eqt u [] && not keep_empty))) [
          | inl gone ↦ rw (e, f, gone, updated_line) ((λ h. h), ground arith)
          | inr stays ↦
              rw (e, f, stays, updated_line, hit-written k j u acc hk hv)
                ((λ h. ground arith), ground (arith, eqt_iff j k, eqt_iff k j))
        ]
  ]
]

pub update_own :
    (k v : Text) (values : Table Text) (keep_empty : Bool) (seen lines : List Text)
    (acc : Option Text)
    → Writable values
    → lookup k values ≡ some v
    → not (eqt v []) || keep_empty ≡ true
    → Sets k v
        (update_lines values keep_empty seen lines).0
        seen
        (update_lines values keep_empty seen lines).1
        acc
unfolding scan update_lines
update_own k v values keep_empty seen [] acc w n full = ((λ h. h), ground arith)
update_own k v values keep_empty seen (line ∷ lines) acc w n full =
    let u = updated_line values keep_empty seen line (assignment line) in
    let (m, e) = updated_own k v values keep_empty seen line acc w n full in
    let (m', e') = update_own k v values keep_empty u.1 lines (scan k u.0 acc) w n full in
    (
      (λ h. m' (m h)),
      scan-append k u.0 (update_lines values keep_empty u.1 lines).0 acc
          ∙ e'
          ∙ joined (text_mem k seen) (text_mem k u.1) _ v acc _ m m' e,
    )
  where
    joined :
        (a b c : Bool) (x : Text) (acc r : Option Text)
        → (a ≡ true → b ≡ true)
        → (b ≡ true → c ≡ true)
        → r ≡ (if b && not a then some x else acc)
        → (if c && not b then some x else r) ≡ (if c && not a then some x else acc)
    joined true true true x acc r p q e = e
    joined true true false x acc r p q e = e
    joined true false c x acc r p q e = let h = p refl in cc
    joined false true true x acc r p q e = e
    joined false true false x acc r p q e = let h = q refl in cc
    joined false false true x acc r p q e = refl
    joined false false false x acc r p q e = e

pub missing_own :
    (k v : Text) (values : Table Text) (keep_empty : Bool) (seen order : List Text)
    (acc : Option Text)
    → Writable values
    → lookup k values ≡ some v
    → not (eqt v []) || keep_empty ≡ true
    → text_mem k seen ≡ true
    → scan k (missing_lines values keep_empty seen order) acc ≡ acc
unfolding scan missing_lines
missing_own k v values keep_empty seen [] acc w n full h = refl
missing_own k v values keep_empty seen (j ∷ order) acc w n full h =
    elim (Option-cases (lookup j values)) [
      | inl f ↦ rw (f, missing_lines) (missing_own k v values keep_empty seen order acc w n full h)
      | inr (u, f) ↦
          let (hk, hv) = w j u f in
          elim (Bool-cases (not (text_mem j seen) && (not (eqt u []) || keep_empty))) [
            | inl writes ↦
                let d : eqt j k ≡ false = ground (arith, eqt_iff j k) in
                let e : hit k (assignment (written_line j u)) acc ≡ acc =
                  rw (hit-written k j u acc hk hv, d) refl in
                rw (f, writes, missing_lines)
                  (ap (scan k (missing_lines values keep_empty seen order)) e
                    ∙ missing_own k v values keep_empty seen order acc w n full h)
            | inr skips ↦
                rw (f, skips, missing_lines)
                  (missing_own k v values keep_empty seen order acc w n full h)
          ]
    ]

pub missing_new :
    (k v : Text) (values : Table Text) (keep_empty : Bool) (seen order : List Text)
    (acc : Option Text)
    → Writable values
    → lookup k values ≡ some v
    → not (eqt v []) || keep_empty ≡ true
    → text_mem k seen ≡ false
    → (acc ≡ some v) ⊎ (text_mem k order ≡ true)
    → scan k (missing_lines values keep_empty seen order) acc ≡ some v
unfolding scan missing_lines text_mem
missing_new k v values keep_empty seen [] acc w n full h (inl e) = e
missing_new k v values keep_empty seen [] acc w n full h (inr e) = cc
missing_new k v values keep_empty seen (j ∷ order) acc w n full h o = elim (Bool-cases (eqt j k)) [
  | inl same ↦
      let q : j ≡ k = (eqt_iff j k).0 same in
      let f : lookup j values ≡ some v = rw q n in
      let (hk, hv) = w k v n in
      let e : hit k (assignment (written_line j v)) acc ≡ some v =
        rw (q, hit-written k k v acc hk hv, eqt_refl k) refl in
      let writes : (not (text_mem j seen) && (not (eqt v []) || keep_empty)) ≡ true =
        rw q (ground arith) in
      rw (f, writes, missing_lines)
        (missing_new k v values keep_empty seen order _ w n full h (inl e))
  | inr other ↦
      let o' : (acc ≡ some v) ⊎ (text_mem k order ≡ true) = elim o [
        | inl e ↦ inl e
        | inr m ↦ inr (ground (arith, eqt_iff j k, eqt_iff k j))
      ] in
      elim (Option-cases (lookup j values)) [
        | inl f ↦
            rw (f, missing_lines) (missing_new k v values keep_empty seen order acc w n full h o')
        | inr (u, f) ↦
            let (hk, hv) = w j u f in
            elim (Bool-cases (not (text_mem j seen) && (not (eqt u []) || keep_empty))) [
              | inl writes ↦
                  let e : hit k (assignment (written_line j u)) acc ≡ acc =
                    rw (hit-written k j u acc hk hv, other) refl in
                  rw (f, writes, missing_lines)
                    (ap (scan k (missing_lines values keep_empty seen order)) e
                      ∙ missing_new k v values keep_empty seen order acc w n full h o')
              | inr skips ↦
                  rw (f, skips, missing_lines)
                    (missing_new k v values keep_empty seen order acc w n full h o')
            ]
      ]
]
