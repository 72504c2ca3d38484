-- ===== src/Cfg/RoundTrip.antt =====
-- About updateCfgLines and cfgValues of backend/lgsmcfg.go on whole files.
use linuxgsm_dashboard.Base.{
  ℕ, ◌≡◌, ◌≢◌, refl, ap, sym, ◌∙◌, inl, inr, Text, List, [], ◌∷◌, ◌++◌, Bool, true, not, ◌&&◌, ◌||◌,
  Option, none, some, arith, ==_iff, ◌==◌, if◌then◌else◌, eqt, text_mem, split_on, split_on-append,
  onto_first, append_assoc, All, All-append, Lacks, Bool-cases, Option-cases,
}
use linuxgsm_dashboard.Base.Tables.{Table, lookup}
use linuxgsm_dashboard.Cfg.{
  assignment, cfg_values, updated_line, update_lines, missing_lines, drop_blank_end, join_lines,
  update_cfg_lines,
}
use linuxgsm_dashboard.Cfg.Lines.{written-Lacks}
use linuxgsm_dashboard.Cfg.Updates.{
  scan, lookup-values_of_lines, scan-append, blank, scan-drop_blank_end, Writable,
  scan-update_other, missing_other, update_own, missing_own, missing_new,
}

abbrev Lines : List Text → Type 0
Lines = All (Lacks 10)

onto_first-Lines : (c : ℕ) (ls : List Text) → c ≢ 10 → Lines ls → Lines (onto_first c ls)
onto_first-Lines c [] n h = ((n, tt), tt)
onto_first-Lines c (l ∷ ls) n h = ((n, h.0), h.1)

split_on-Lines : (s : Text) → Lines (split_on 10 s)
unfolding split_on
split_on-Lines [] = (tt, tt)
split_on-Lines (c ∷ s) = elim (Bool-cases (c == 10)) [
  | inl break ↦ rw break (tt, split_on-Lines s)
  | inr other ↦
      rw other
        (onto_first-Lines c (split_on 10 s) (λ e. ground (arith, ==_iff c 10)) (split_on-Lines s))
]

updated-Lines :
    (values : Table Text) (keep_empty : Bool) (seen : List Text) (line : Text)
    (a : Option (Text × Text))
    → Writable values
    → Lacks 10 line
    → Lines (updated_line values keep_empty seen line a).0
unfolding updated_line
updated-Lines values keep_empty seen line none w h = (h, tt)
updated-Lines values keep_empty seen line (some (j, raw)) w h =
    elim (Option-cases (lookup j values)) [
      | inl f ↦ rw (f, updated_line) (h, tt)
      | inr (v, f) ↦
          let (hk, hv) = w j v f in
          elim (Bool-cases (text_mem j seen || (eqt v [] && not keep_empty))) [
            | inl gone ↦ rw (f, gone, updated_line) tt
            | inr stays ↦ rw (f, stays, updated_line) (written-Lacks j v hk hv, tt)
          ]
    ]

update-Lines :
    (values : Table Text) (keep_empty : Bool) (seen lines : List Text)
    → Writable values
    → Lines lines
    → Lines (update_lines values keep_empty seen lines).0
unfolding update_lines
update-Lines values keep_empty seen [] w h = tt
update-Lines values keep_empty seen (line ∷ lines) w h =
    let u = updated_line values keep_empty seen line (assignment line) in
    All-append (Lacks 10) u.0 (update_lines values keep_empty u.1 lines).0
      (updated-Lines values keep_empty seen line (assignment line) w h.0)
      (update-Lines values keep_empty u.1 lines w h.1)

missing-Lines :
    (values : Table Text) (keep_empty : Bool) (seen order : List Text)
    → Writable values
    → Lines (missing_lines values keep_empty seen order)
unfolding missing_lines
missing-Lines values keep_empty seen [] w = tt
missing-Lines values keep_empty seen (j ∷ order) w = elim (Option-cases (lookup j values)) [
  | inl f ↦ rw (f, missing_lines) (missing-Lines values keep_empty seen order w)
  | inr (v, f) ↦
      let (hk, hv) = w j v f in
      elim (Bool-cases (not (text_mem j seen) && (not (eqt v []) || keep_empty))) [
        | inl writes ↦
            rw (f, writes, missing_lines)
              (written-Lacks j v hk hv, missing-Lines values keep_empty seen order w)
        | inr skips ↦ rw (f, skips, missing_lines) (missing-Lines values keep_empty seen order w)
      ]
]

drop-Lines : (lines : List Text) → Lines lines → Lines (drop_blank_end lines)
unfolding drop_blank_end
drop-Lines [] h = tt
drop-Lines (line ∷ lines) h = dropped (drop_blank_end lines) (drop-Lines lines h.1)
  where
    dropped :
        (ls : List Text)
        → Lines ls
        → Lines
            (elim ls [ [] ↦ if eqt line [] then [] else line ∷ [] | l ∷ rest ↦ line ∷ l ∷ rest ])
    dropped [] k = elim (Bool-cases (eqt line [])) [ inl e ↦ rw e tt | inr e ↦ rw e (h.0, tt) ]
    dropped (l ∷ rest) k = (h.0, k)

-- Lines that were joined and ended by a line feed are split as they were; no lines count as one empty one.
split_on-join :
    (l : Text) (ls : List Text)
    → Lines (l ∷ ls)
    → split_on 10 (join_lines (l ∷ ls) ++ (10 ∷ [])) ≡ (l ∷ ls) ++ ([] ∷ [])
unfolding join_lines
split_on-join l [] h = split_on-append 10 l [] h.0 ∙ (unfold split_on in refl)
split_on-join l (m ∷ ls) h =
    ap (split_on 10) (append_assoc l (10 ∷ join_lines (m ∷ ls)) (10 ∷ []))
    ∙ split_on-append 10 l (join_lines (m ∷ ls) ++ (10 ∷ [])) h.0
    ∙ ap (λ x. l ∷ x) (split_on-join m ls h.1)

scan-join :
    (k : Text) (ls : List Text)
    → Lines ls
    → scan k (split_on 10 (join_lines ls ++ (10 ∷ []))) none ≡ scan k ls none
scan-join k [] h = unfold split_on join_lines scan in rw blank refl
scan-join k (l ∷ ls) h =
    ap (λ x. scan k x none) (split_on-join l ls h)
    ∙ scan-append k (l ∷ ls) ([] ∷ []) none
    ∙ (unfold scan in rw blank refl)

abbrev pub saved : Text → Table Text → List Text → Bool → Text
saved content values order keep_empty = update_cfg_lines content values order keep_empty true

no_values : (k : Text) → lookup {V = Text} k [] ≡ none
unfolding lookup
no_values k = refl

lookup-saved :
    (k content : Text) (values : Table Text) (order : List Text) (keep_empty : Bool)
    → Writable values
    → lookup k (cfg_values (saved content values order keep_empty))
      ≡ scan k
          (missing_lines values keep_empty
            (update_lines values keep_empty [] (split_on 10 content)).1
            order)
          (scan k (update_lines values keep_empty [] (split_on 10 content)).0 none)
unfolding cfg_values update_cfg_lines
lookup-saved k content values order keep_empty w =
    let u = update_lines values keep_empty [] (split_on 10 content) in
    let rest = missing_lines values keep_empty u.1 order in
    let lines = drop_blank_end u.0 ++ rest in
    let out : Lines u.0 =
      update-Lines values keep_empty [] (split_on 10 content) w (split_on-Lines content) in
    let start : lookup k [] ≡ none = no_values k in
    lookup-values_of_lines k (split_on 10 (join_lines lines ++ (10 ∷ []))) []
    ∙ ap (scan k (split_on 10 (join_lines lines ++ (10 ∷ [])))) start
    ∙ scan-join k lines (
        All-append (Lacks 10) (drop_blank_end u.0) rest (drop-Lines u.0 out)
          (missing-Lines values keep_empty u.1 order w))
    ∙ scan-append k (drop_blank_end u.0) rest none
    ∙ ap (scan k rest) (scan-drop_blank_end k u.0 none)

set_now :
    (k : Text) (b : Bool) (v : Text)
    → b ≡ true
    → (if b && not (text_mem k []) then some v else none) ≡ some v
unfolding text_mem
set_now k b v h = rw h refl

-- A saved configuration reads back: if every key to write is a name and every value is safe, then a key
-- in the order, whose value is not empty or may be, has that value in the new text, whatever the old
-- text was.
pub cfg_round_trip :
    (content : Text) (values : Table Text) (order : List Text) (keep_empty : Bool) (k v : Text)
    → Writable values
    → lookup k values ≡ some v
    → not (eqt v []) || keep_empty ≡ true
    → text_mem k order ≡ true
    → lookup k (cfg_values (saved content values order keep_empty)) ≡ some v
cfg_round_trip content values order keep_empty k v w n full o =
    let u = update_lines values keep_empty [] (split_on 10 content) in
    let (m, e) = update_own k v values keep_empty [] (split_on 10 content) none w n full in
    lookup-saved k content values order keep_empty w ∙ elim (Bool-cases (text_mem k u.1)) [
      | inl seen ↦
          let got : scan k u.0 none ≡ some v = e ∙ set_now k (text_mem k u.1) v seen in
          ap (scan k (missing_lines values keep_empty u.1 order)) got
          ∙ missing_own k v values keep_empty u.1 order (some v) w n full seen
      | inr unseen ↦ missing_new k v values keep_empty u.1 order _ w n full unseen (inr o)
    ]

-- Saving keeps the rest: if every key to write is a name and every value is safe, then a key that is
-- not among them reads as before.
pub cfg_keeps_others :
    (content : Text) (values : Table Text) (order : List Text) (keep_empty : Bool) (k : Text)
    → Writable values
    → lookup k values ≡ none
    → lookup k (cfg_values (saved content values order keep_empty)) ≡ lookup k (cfg_values content)
unfolding cfg_values
cfg_keeps_others content values order keep_empty k w n =
    let u = update_lines values keep_empty [] (split_on 10 content) in
    lookup-saved k content values order keep_empty w
    ∙ missing_other k values keep_empty u.1 order _ w n
    ∙ scan-update_other k values keep_empty [] (split_on 10 content) none w n
    ∙ sym (
        lookup-values_of_lines k (split_on 10 content) []
        ∙ ap (scan k (split_on 10 content)) (no_values k))
