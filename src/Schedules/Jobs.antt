-- ===== src/Schedules/Jobs.antt =====
-- About cronLineCommand and rewriteCrontab of backend/schedule.go: which lines of a crontab are a
-- server's own, in the two forms that its jobs have, and which are not.
use linuxgsm_dashboard.Base.{
  ℕ, zero, suc, ◌≡◌, ◌⊎◌, refl, sym, ap, ◌∙◌, inl, inr, Text, codes, List, [], ◌∷◌, ◌++◌, Bool,
  true, false, not, ◌&&◌, ◌||◌, none, arith, eqt, eqt_iff, has_prefix, has_suffix, text_mem, keep,
  drop, split_on, Bool-cases, if◌then◌else◌,
}
use linuxgsm_dashboard.Totp.{trim_space, trim_left, trim_right}
use linuxgsm_dashboard.Cron.{fields}
use linuxgsm_dashboard.Schedules.{
  Dropped, drops, drops_line, rewritten_lines, maintenance_comment, split_path, text_has,
  find_command, enters, cron_line_command, with_schedule, schedule_fields,
  is_legacy_maintenance_comment,
}
use linuxgsm_dashboard.Schedules.Others.{is_own, is_other, keep-rewritten_lines, keep-append}

-- The path of a script, and how a line calls it from its directory.
abbrev pub in_dir : Text → Text → Text
in_dir dir script = dir ++ (b'/' ∷ script)

abbrev pub from_here : Text → Text
from_here script = b'.' ∷ b'/' ∷ script

-- A line that is not the server's: a comment other than its own and those of an older version, or a
-- line none of whose words is the script's path or its call from the directory.
abbrev pub is_foreign : Text → Text → Text → Bool
is_foreign dir script line =
    let trimmed = trim_space line in
    not (eqt trimmed [])
    && (if has_prefix trimmed (codes "#")
        then not (eqt trimmed (maintenance_comment script))
          && not (has_suffix trimmed (codes " Geplante Wartungsaufgaben"))
        else not (text_mem (in_dir dir script) (fields trimmed))
          && not (text_mem (from_here script) (fields trimmed)))

-- <path> <command> …
abbrev pub calls : Dropped → Text → Text → List Text → Bool
calls dropped dir script (w ∷ command ∷ ws) = eqt w (in_dir dir script) && drops dropped command
calls dropped dir script _ = false

-- cd <dir> && ./<script> <command> …
abbrev pub enters_and_calls : Dropped → Text → Text → List Text → Bool
enters_and_calls dropped dir script (cd ∷ d ∷ and ∷ w ∷ command ∷ ws) =
    (eqt cd (codes "cd") && (eqt d dir && (eqt and (codes "&&") && eqt w (from_here script))))
    && drops dropped command
enters_and_calls dropped dir script _ = false

-- The words behind the schedule: five words, or one that starts with "@".
abbrev pub behind_schedule : List Text → List Text
behind_schedule [] = []
behind_schedule (w ∷ ws) = if has_prefix w (codes "@") then ws else drop 4 ws

-- A job of the server that runs a command to drop.
abbrev pub is_own_job : Dropped → Text → Text → Text → Bool
is_own_job dropped dir script line =
    let trimmed = trim_space line in
    let words = behind_schedule (fields trimmed) in
    not (has_prefix trimmed (codes "#"))
    && (calls dropped dir script words || enters_and_calls dropped dir script words)

trim_right_again : (s : Text) → trim_right (trim_right s) ≡ trim_right s
unfolding trim_right
trim_right_again [] = refl
trim_right_again (c ∷ s) = ground (arith, trim_right_again s)

pub trim_space_again : (s : Text) → trim_space (trim_space s) ≡ trim_space s
unfolding trim_space trim_left trim_right
trim_space_again [] = refl
trim_space_again (c ∷ s) = ground (arith, trim_right_again s, trim_space_again s)

text_has-append : (b : ℕ) (s t : Text) → text_has b (s ++ (b ∷ t)) ≡ true
unfolding text_has
text_has-append b [] t = ground arith
text_has-append b (c ∷ s) t = ground (arith, text_has-append b s t)

pub split_path_lem :
    (dir script : Text)
    → text_has b'/' script ≡ false
    → split_path (in_dir dir script) ≡ (dir, script)
unfolding split_path
split_path_lem [] script h = ground (arith, h)
split_path_lem (c ∷ dir) script h =
    ground (arith, split_path_lem dir script h, text_has-append b'/' dir script)

find_command-none :
    (path : Text) (place : Text × Text) (inside : Bool) (ws : List Text)
    → text_mem path ws ≡ false
    → text_mem (from_here place.1) ws ≡ false
    → find_command path place inside ws ≡ none
unfolding find_command text_mem
find_command-none path place inside [] h g = refl
find_command-none path place inside (w ∷ ws) h g =
    let p : eqt w path ≡ false = ground (arith, h, eqt_iff path w, eqt_iff w path) in
    let f : eqt w (from_here place.1) ≡ false =
      ground (arith, g, eqt_iff (from_here place.1) w, eqt_iff w (from_here place.1)) in
    let next =
      find_command-none path place (inside || enters place.0 w ws) ws (ground (arith, h))
        (ground (arith, g)) in
    ground (arith, p, f, next)

text_mem-drop :
    (t : Text) (n : ℕ) (ws : List Text) → text_mem t ws ≡ false → text_mem t (drop n ws) ≡ false
unfolding text_mem
text_mem-drop t zero ws h = h
text_mem-drop t (suc n) [] h = refl
text_mem-drop t (suc n) (w ∷ ws) h = text_mem-drop t n ws (ground (arith, h))

-- A line that is no comment, nor a call of the script, has no command.
no_command :
    (line path dir script : Text)
    → split_path path ≡ (dir, script)
    → (has_prefix (trim_space line) (codes "#") ≡ true)
      ⊎ ((text_mem path (fields (trim_space line)) ≡ false)
          × (text_mem (from_here script) (fields (trim_space line)) ≡ false))
    → cron_line_command (trim_space line) path ≡ none
unfolding cron_line_command with_schedule
no_command line path dir script place (inl comment) =
    rw (trim_space_again line, comment) (ground arith)
no_command line path dir script place (inr (h, g)) =
    let ws = fields (trim_space line) in
    let n = schedule_fields ws in
    rw
      (
        trim_space_again line,
        place,
        find_command-none path (dir, script) false (drop n ws) (text_mem-drop path n ws h)
            (text_mem-drop (from_here script) n ws g),
      )
      (ground arith)

pub legacy_comment :
    (t : Text) → is_legacy_maintenance_comment t ≡ true → has_prefix t (codes "#") ≡ true
unfolding is_legacy_maintenance_comment has_prefix
legacy_comment [] h = cc
legacy_comment (c ∷ t) h = ground (arith, h)

own_comment :
    (script t : Text) → eqt t (maintenance_comment script) ≡ true → has_prefix t (codes "#") ≡ true
unfolding maintenance_comment has_prefix eqt
own_comment script [] h = cc
own_comment script (c ∷ t) h = ground (arith, h)

no_drop :
    (dropped : Dropped) (path t : Text)
    → cron_line_command t path ≡ none
    → drops_line dropped path t ≡ false
unfolding drops_line
no_drop dropped path t e = ground (arith, e)

foreign_line :
    (dropped : Dropped) (dir script line : Text)
    → text_has b'/' script ≡ false
    → is_foreign dir script line ≡ true
    → is_other dropped (in_dir dir script) (maintenance_comment script) line ≡ true
unfolding is_own
foreign_line dropped dir script line plain h =
    let place = split_path_lem dir script plain in
    let t = trim_space line in
    let own = own_comment script t in
    let old = legacy_comment t in
    elim (Bool-cases (has_prefix t (codes "#"))) [
      | inl comment ↦
          let e = no_command line (in_dir dir script) dir script place (inl comment) in
          let l : is_legacy_maintenance_comment t ≡ false =
            unfold is_legacy_maintenance_comment in ground (arith, h, comment) in
          ground (arith, h, comment, l, no_drop dropped (in_dir dir script) t e)
      | inr job ↦
          let e =
            no_command line (in_dir dir script) dir script place
              (inr (ground (arith, h, job), ground (arith, h, job))) in
          ground (arith, h, job, own, old, no_drop dropped (in_dir dir script) t e)
    ]

keep-keep :
    (p q : Text → Bool) (xs : List Text)
    → ((x : Text) → p x ≡ true → q x ≡ true)
    → keep p (keep q xs) ≡ keep p xs
keep-keep p q [] h = refl
keep-keep p q (x ∷ xs) h = elim (Bool-cases (p x)) [
  | inl py ↦ ground (arith, py, h x py, keep-keep p q xs h)
  | inr pn ↦ ground (arith, pn, keep-keep p q xs h)
]

-- A crontab is rewritten for a server whose script stands in a directory, under a name without a slash.
-- Every line that is not the server's stays as it is and in its order, and the added ones come behind.
-- Not the server's are the comments but its own and those of an older version, and the other lines that
-- are not blank and of which no word is the script's path or its call from the directory: a script
-- whose name only begins with the same letters is another one.
pub rewrite_keeps_others :
    (crontab dir script : Text) (dropped : Dropped) (extra : List Text)
    → text_has b'/' script ≡ false
    → keep
        (is_foreign dir script)
        (rewritten_lines crontab script (in_dir dir script) dropped extra)
      ≡ keep (is_foreign dir script) (split_on 10 crontab) ++ keep (is_foreign dir script) extra
rewrite_keeps_others crontab dir script dropped extra plain =
    let path = in_dir dir script in
    let other = is_other dropped path (maintenance_comment script) in
    let foreign = is_foreign dir script in
    let only : (xs : List Text) → keep foreign (keep other xs) ≡ keep foreign xs =
      λ xs. keep-keep foreign other xs (λ x h. foreign_line dropped dir script x plain h) in
    sym (only (rewritten_lines crontab script path dropped extra))
    ∙ ap (keep foreign) (keep-rewritten_lines crontab script path dropped extra)
    ∙ keep-append foreign (keep other (split_on 10 crontab)) (keep other extra)
    ∙ ap (λ xs. xs ++ keep foreign (keep other extra)) (only (split_on 10 crontab))
    ∙ ap (λ xs. keep foreign (split_on 10 crontab) ++ xs) (only extra)
