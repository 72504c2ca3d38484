-- ===== src/Schedules/Others.antt =====
-- About rewriteCrontab and SaveCronSchedule of backend/schedule.go: what happens to the lines of a
-- crontab that are not the server's own.
use linuxgsm_dashboard.Base.{
  ◌≡◌, ◌⊎◌, refl, ap, ◌∙◌, inl, inr, Text, codes, List, [], ◌∷◌, ◌++◌, Bool, true, false, not, ◌&&◌,
  ◌||◌, arith, eqt, eqt_iff, keep, split_on, All, Bool-cases,
}
use linuxgsm_dashboard.Totp.{trim_space}
use linuxgsm_dashboard.Schedules.{
  Dropped, drops, drops_line, flush, kept_lines, rewritten_lines, maintenance_comment,
  is_legacy_maintenance_comment,
}

-- A line that rewriteCrontab may take away: a blank one, a maintenance comment of the server or of an
-- older version, or one that runs a command to drop with the server's script.
unfoldable pub is_own : Dropped → Text → Text → Text → Bool
is_own dropped path own line =
    eqt (trim_space line) []
    || ((drops dropped (codes "monitor") && eqt (trim_space line) own)
        || ((drops dropped (codes "monitor") && is_legacy_maintenance_comment (trim_space line))
            || drops_line dropped path (trim_space line)))

abbrev pub is_other : Dropped → Text → Text → Text → Bool
is_other dropped path own line = not (is_own dropped path own line)

module _ (dropped : Dropped) (path own : Text) where
  -- A waiting comment is nothing, or one that may be taken away.
  abbrev Waits : Text → Type 0
  Waits pending = (pending ≡ []) ⊎ (is_own dropped path own pending ≡ true)

  keep-flush :
      (pending : Text) (lines : List Text)
      → Waits pending
      → keep (is_other dropped path own) (flush pending lines)
        ≡ keep (is_other dropped path own) lines
  keep-flush pending lines (inl e) = ground (arith, (eqt_iff pending []).1 e)
  keep-flush pending lines (inr o) = ground (arith, o)

  keep-kept_lines :
      (pending : Text) (lines : List Text)
      → Waits pending
      → keep (is_other dropped path own) (kept_lines dropped path own pending lines)
        ≡ keep (is_other dropped path own) lines
  unfolding kept_lines is_own
  keep-kept_lines pending [] w = keep-flush pending [] w
  keep-kept_lines pending (line ∷ lines) w = elim (Bool-cases (eqt (trim_space line) [])) [
    | inl blank ↦ ground (arith, blank, keep-kept_lines pending lines w)
    | inr text ↦ elim (Bool-cases (drops dropped (codes "monitor") && eqt (trim_space line) own)) [
      | inl comment ↦ ground (arith, text, comment, keep-kept_lines pending lines w)
      | inr other ↦
          elim (Bool-cases
            (drops dropped (codes "monitor") && is_legacy_maintenance_comment (trim_space line))) [
              | inl legacy ↦
                  let own_line : is_own dropped path own line ≡ true = ground (arith, legacy) in
                  ground (
                    arith,
                    text,
                    other,
                    legacy,
                    keep-flush pending (kept_lines dropped path own line lines) w,
                    keep-kept_lines line lines (inr own_line),
                  )
              | inr job ↦ elim (Bool-cases (drops_line dropped path (trim_space line))) [
                | inl goes ↦
                    ground (arith, text, other, job, goes, keep-kept_lines [] lines (inl refl))
                | inr stays ↦ ground (
                  arith,
                  text,
                  other,
                  job,
                  stays,
                  keep-flush pending (line ∷ kept_lines dropped path own [] lines) w,
                  keep-kept_lines [] lines (inl refl),
                )
              ]
            ]
    ]
  ]

pub keep-append : (p : Text → Bool) (xs ys : List Text) → keep p (xs ++ ys) ≡ keep p xs ++ keep p ys
keep-append p [] ys = refl
keep-append p (x ∷ xs) ys = ground (arith, keep-append p xs ys)

-- Lines that the tests of rewriteCrontab do not take away are kept.
pub keep-rewritten_lines :
    (crontab script path : Text) (dropped : Dropped) (extra : List Text)
    → keep
        (is_other dropped path (maintenance_comment script))
        (rewritten_lines crontab script path dropped extra)
      ≡ keep (is_other dropped path (maintenance_comment script)) (split_on 10 crontab)
        ++ keep (is_other dropped path (maintenance_comment script)) extra
unfolding rewritten_lines
keep-rewritten_lines crontab script path dropped extra =
    let own = maintenance_comment script in
    keep-append (is_other dropped path own) (kept_lines dropped path own [] (split_on 10 crontab))
      extra
    ∙ ap (λ xs. xs ++ keep (is_other dropped path own) extra)
        (keep-kept_lines dropped path own [] (split_on 10 crontab) (inl refl))

-- What is left of a server: a comment of an older version whose next line stayed, or a line that
-- rewriteCrontab has no reason to take away.
abbrev pub Stays : Dropped → Text → Text → Text → Type 0
Stays dropped path own line =
    (is_legacy_maintenance_comment (trim_space line) ≡ true)
    ⊎ (is_own dropped path own line ≡ false)

module _ (dropped : Dropped) (path own : Text) where
  abbrev Pends : Text → Type 0
  Pends pending = (pending ≡ []) ⊎ (is_legacy_maintenance_comment (trim_space pending) ≡ true)

  All-flush :
      (pending : Text) (lines : List Text)
      → Pends pending
      → All (Stays dropped path own) lines
      → All (Stays dropped path own) (flush pending lines)
  All-flush pending lines (inl e) h = rw ((eqt_iff pending []).1 e) h
  All-flush pending lines (inr legacy) h = elim (Bool-cases (eqt pending [])) [
    | inl empty ↦ rw empty h
    | inr full ↦ rw full (inl legacy, h)
  ]

  kept_lines-Stays :
      (pending : Text) (lines : List Text)
      → Pends pending
      → All (Stays dropped path own) (kept_lines dropped path own pending lines)
  unfolding kept_lines is_own
  kept_lines-Stays pending [] w = All-flush pending [] w tt
  kept_lines-Stays pending (line ∷ lines) w = elim (Bool-cases (eqt (trim_space line) [])) [
    | inl blank ↦ rw (blank, kept_lines) (kept_lines-Stays pending lines w)
    | inr text ↦ elim (Bool-cases (drops dropped (codes "monitor") && eqt (trim_space line) own)) [
      | inl comment ↦ rw (text, comment, kept_lines) (kept_lines-Stays pending lines w)
      | inr other ↦
          elim (Bool-cases
            (drops dropped (codes "monitor") && is_legacy_maintenance_comment (trim_space line))) [
              | inl legacy ↦
                  let l : is_legacy_maintenance_comment (trim_space line) ≡ true = ground arith in
                  rw (text, other, legacy, kept_lines)
                    (All-flush pending (kept_lines dropped path own line lines) w
                      (kept_lines-Stays line lines (inr l)))
              | inr job ↦ elim (Bool-cases (drops_line dropped path (trim_space line))) [
                | inl goes ↦
                    rw (text, other, job, goes, kept_lines) (kept_lines-Stays [] lines (inl refl))
                | inr stays ↦
                    rw (text, other, job, stays, kept_lines)
                      (All-flush pending (line ∷ kept_lines dropped path own [] lines) w (
                        inr (ground (arith, text, other, job, stays)),
                        kept_lines-Stays [] lines (inl refl),
                      ))
              ]
            ]
    ]
  ]

-- What stands before the added lines passed those tests, or is a comment of an older version.
pub rewritten-Stays :
    (crontab script path : Text) (dropped : Dropped) (extra : List Text)
    → (kept : List Text) × (rewritten_lines crontab script path dropped extra ≡ kept ++ extra)
      × All (Stays dropped path (maintenance_comment script)) kept
unfolding rewritten_lines
rewritten-Stays crontab script path dropped extra = (
  kept_lines dropped path (maintenance_comment script) [] (split_on 10 crontab),
  refl,
  kept_lines-Stays dropped path (maintenance_comment script) [] (split_on 10 crontab) (inl refl),
)
