-- ===== src/Schedules/Gone.antt =====
-- About rewriteCrontab of backend/schedule.go: none of the server's own jobs is left that is to go.
use linuxgsm_dashboard.Base.{
  ℕ, ◌≡◌, refl, ap, ◌∙◌, inl, inr, Text, codes, List, [], ◌∷◌, ◌++◌, Bool, true, false, some, arith,
  eqt, eqt_iff, eqt_refl, has_prefix, keep, drop, All, Bool-cases,
}
use linuxgsm_dashboard.Totp.{trim_space}
use linuxgsm_dashboard.Cron.{fields}
use linuxgsm_dashboard.Schedules.{
  Dropped, drops, drops_line, rewritten_lines, maintenance_comment, split_path, text_has,
  trim_semicolons, find_command, cron_line_command, with_schedule, schedule_fields,
}
use linuxgsm_dashboard.Schedules.Others.{is_own, Stays, rewritten-Stays, keep-append}
use linuxgsm_dashboard.Schedules.Jobs.{
  in_dir, from_here, calls, enters_and_calls, behind_schedule, is_own_job, trim_space_again,
  split_path_lem, legacy_comment,
}

eqt_longer : (s t : Text) (c : ℕ) → eqt s (s ++ (c ∷ t)) ≡ false
unfolding eqt
eqt_longer [] t c = refl
eqt_longer (b ∷ s) t c = ground (arith, eqt_longer s t c)

module _ (dropped : Dropped) (dir script : Text)
    (ends : trim_semicolons (b'/' ∷ dir) ≡ b'/' ∷ dir) where
  direct_call :
      (ws : List Text)
      → calls dropped (b'/' ∷ dir) script ws ≡ true
      → (command : Text) × (find_command (in_dir (b'/' ∷ dir) script) (b'/' ∷ dir, script) false ws
          ≡ some command)
        × (drops dropped command ≡ true)
  unfolding find_command
  direct_call [] h = cc
  direct_call (w ∷ []) h = cc
  direct_call (w ∷ command ∷ ws) h = (command, ground (arith, h), ground (arith, h))

  find_from_dir :
      (command : Text) (ws : List Text)
      → find_command
          (in_dir (b'/' ∷ dir) script)
          (b'/' ∷ dir, script)
          false
          (codes "cd" ∷ (b'/' ∷ dir) ∷ codes "&&" ∷ from_here script ∷ command ∷ ws)
        ≡ some command
  unfolding find_command eqt
  find_from_dir command ws =
      let at : eqt (trim_semicolons (b'/' ∷ dir)) (b'/' ∷ dir) ≡ true =
        rw ends (eqt_refl (b'/' ∷ dir)) in
      ground (arith, at, eqt_longer dir script b'/', eqt_refl script)

  call_from_dir :
      (ws : List Text)
      → enters_and_calls dropped (b'/' ∷ dir) script ws ≡ true
      → (command : Text) × (find_command (in_dir (b'/' ∷ dir) script) (b'/' ∷ dir, script) false ws
          ≡ some command)
        × (drops dropped command ≡ true)
  call_from_dir (cd ∷ d ∷ and ∷ w ∷ command ∷ ws) h =
      let a : cd ≡ codes "cd" = (eqt_iff cd (codes "cd")).0 (ground (arith, h)) in
      let b : d ≡ b'/' ∷ dir = (eqt_iff d (b'/' ∷ dir)).0 (ground (arith, h)) in
      let c : and ≡ codes "&&" = (eqt_iff and (codes "&&")).0 (ground (arith, h)) in
      let e : w ≡ from_here script = (eqt_iff w (from_here script)).0 (ground (arith, h)) in
      (command, rw (a, b, c, e) (find_from_dir command ws), ground (arith, h))
  call_from_dir _ h = cc

behind_schedule_lem : (fs : List Text) → drop (schedule_fields fs) fs ≡ behind_schedule fs
behind_schedule_lem [] = refl
behind_schedule_lem (w ∷ ws) = elim (Bool-cases (has_prefix w (codes "@"))) [
  | inl macro ↦ rw macro refl
  | inr five ↦ rw five refl
]

some_drop :
    (dropped : Dropped) (path t : Text) (found : Text × Text)
    → cron_line_command t path ≡ some found
    → drops dropped found.1 ≡ true
    → drops_line dropped path t ≡ true
unfolding drops_line
some_drop dropped path t found e d = ground (arith, e, d)

nothing_blank :
    (path : Text) (place : Text × Text) (t command : Text)
    → find_command path place false (behind_schedule (fields t)) ≡ some command
    → eqt t [] ≡ false
unfolding find_command fields eqt
nothing_blank path place [] command h = cc
nothing_blank path place (c ∷ t) command h = refl

-- A job behind its schedule is found, with its command.
found_command :
    (dropped : Dropped) (path : Text) (place : Text × Text) (line : Text)
    → split_path path ≡ place
    → has_prefix (trim_space line) (codes "#") ≡ false
    → ((command : Text) × (find_command path place false
            (behind_schedule (fields (trim_space line)))
          ≡ some command)
        × (drops dropped command ≡ true))
    → drops_line dropped path (trim_space line) ≡ true
unfolding cron_line_command with_schedule
found_command dropped path place line at text (command, e, d) =
    let fs = fields (trim_space line) in
    let found : cron_line_command (trim_space line) path ≡ with_schedule fs (some command) =
      rw
        (
          trim_space_again line,
          at,
          behind_schedule_lem fs,
          e,
          text,
          nothing_blank path place (trim_space line) command e,
        )
        refl in
    some_drop dropped path (trim_space line) _ found d

own_job_line :
    (dropped : Dropped) (dir script line : Text)
    → text_has b'/' script ≡ false
    → trim_semicolons (b'/' ∷ dir) ≡ b'/' ∷ dir
    → is_own_job dropped (b'/' ∷ dir) script line ≡ true
    → drops_line dropped (in_dir (b'/' ∷ dir) script) (trim_space line) ≡ true
own_job_line dropped dir script line plain ends h =
    let words = behind_schedule (fields (trim_space line)) in
    let text : has_prefix (trim_space line) (codes "#") ≡ false = ground (arith, h) in
    found_command dropped (in_dir (b'/' ∷ dir) script) (b'/' ∷ dir, script) line
      (split_path_lem (b'/' ∷ dir) script plain) text
      (elim (Bool-cases (calls dropped (b'/' ∷ dir) script words)) [
        | inl direct ↦ direct_call dropped dir script ends words direct
        | inr other ↦ call_from_dir dropped dir script ends words (ground (arith, h, other))
      ])

is_own_job-Stays :
    (dropped : Dropped) (dir script line : Text)
    → text_has b'/' script ≡ false
    → trim_semicolons (b'/' ∷ dir) ≡ b'/' ∷ dir
    → Stays dropped (in_dir (b'/' ∷ dir) script) (maintenance_comment script) line
    → is_own_job dropped (b'/' ∷ dir) script line ≡ false
is_own_job-Stays dropped dir script line plain ends (inl old) =
    ground (arith, legacy_comment (trim_space line) old)
is_own_job-Stays dropped dir script line plain ends (inr stays) =
    elim (Bool-cases (is_own_job dropped (b'/' ∷ dir) script line)) [
      | inr no_job ↦ no_job
      | inl job ↦
          let d = own_job_line dropped dir script line plain ends job in
          unfold is_own in ground (arith, stays, d)
    ]

keep-All :
    (p : Text → Bool) (P : Text → Type 0) (xs : List Text)
    → All P xs
    → ((x : Text) → P x → p x ≡ false)
    → keep p xs ≡ []
keep-All p P [] h f = refl
keep-All p P (x ∷ xs) h f = ground (arith, f x h.0, keep-All p P xs h.1 f)

-- The jobs of the server with a command to drop are all gone, but those among the added lines: the
-- lines that are no comment and have, behind five words of a schedule or one that starts with "@",
-- the script's path and the command, or `cd`, the directory, `&&`, the script's call from there and
-- the command. The directory is absolute and does not end in a semicolon.
pub rewrite_drops_jobs :
    (crontab dir script : Text) (dropped : Dropped) (extra : List Text)
    → text_has b'/' script ≡ false
    → trim_semicolons (b'/' ∷ dir) ≡ b'/' ∷ dir
    → keep
        (is_own_job dropped (b'/' ∷ dir) script)
        (rewritten_lines crontab script (in_dir (b'/' ∷ dir) script) dropped extra)
      ≡ keep (is_own_job dropped (b'/' ∷ dir) script) extra
rewrite_drops_jobs crontab dir script dropped extra plain ends =
    let path = in_dir (b'/' ∷ dir) script in
    let job = is_own_job dropped (b'/' ∷ dir) script in
    let (kept, e, stay) = rewritten-Stays crontab script path dropped extra in
    let gone =
      keep-All job (Stays dropped path (maintenance_comment script)) kept stay
        (λ line s. is_own_job-Stays dropped dir script line plain ends s) in
    ap (keep job) e ∙ keep-append job kept extra ∙ ap (λ xs. xs ++ keep job extra) gone
