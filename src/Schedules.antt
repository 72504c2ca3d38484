-- ===== src/Schedules.antt =====
-- The managed lines of a server's crontab: cronLineCommand, rewriteCrontab, cronJobLines and the
-- scheduler form of backend/schedule.go. Reading and writing the crontab is outside: a crontab is its
-- text. `path` is what scriptPathOf gives, and a server is its script's name, that path and the
-- commands that its game has. The jobs of the form are a table, which is ranged over in its order.
pub mod Form
pub mod Gone
pub mod Jobs
pub mod Others
mod Examples
use linuxgsm_dashboard.Base.{
  ℕ, suc, ◌==◌, Text, codes, List, [], ◌∷◌, ◌++◌, Bool, true, false, not, ◌&&◌, ◌||◌, Option, none,
  some, Result, ok, err, if◌then◌else◌, eqt, has_prefix, has_suffix, text_mem, split_on, drop, take,
  length, keep, leb,
}
use linuxgsm_dashboard.Base.Tables.{Table, lookup, store}
use linuxgsm_dashboard.Totp.{trim_space}
use linuxgsm_dashboard.Cfg.{join_lines}
use linuxgsm_dashboard.Cron.{fields}
use linuxgsm_dashboard.Cron.Validation.{validate_cron_expr}

unfoldable pub text_has : ℕ → Text → Bool
text_has b [] = false
text_has b (c ∷ s) = c == b || text_has b s

-- The script's directory, without its slash, and its name: path.Split and TrimSuffix.
unfoldable pub split_path : Text → Text × Text
split_path [] = ([], [])
split_path (c ∷ s) =
    let (dir, name) = split_path s in
    if text_has b'/' s then (c ∷ dir, name) else if c == b'/' then ([], s) else ([], c ∷ s)

-- strings.TrimRight(s, ";")
unfoldable pub trim_semicolons : Text → Text
trim_semicolons [] = []
trim_semicolons (c ∷ s) = elim (trim_semicolons s) [
  | [] ↦ if c == b';' then [] else c ∷ []
  | d ∷ t ↦ c ∷ d ∷ t
]

-- strings.Join(fields, " ")
unfoldable pub join_fields : List Text → Text
join_fields [] = []
join_fields (f ∷ []) = f
join_fields (f ∷ g ∷ gs) = f ++ (b' ' ∷ join_fields (g ∷ gs))

abbrev pub head : List Text → Option Text
head [] = none
head (f ∷ fs) = some f

abbrev pub enters : Text → Text → List Text → Bool
enters dir f [] = false
enters dir f (g ∷ gs) = eqt f (codes "cd") && eqt (trim_semicolons g) dir

-- The loop over the fields behind the schedule: the word behind the script.
unfoldable pub find_command : Text → Text × Text → Bool → List Text → Option Text
find_command path place in_dir [] = none
find_command path place in_dir (f ∷ fs) =
    let inside = in_dir || enters place.0 f fs in
    let further = find_command path place inside fs in
    if eqt f path || (inside && eqt f (b'.' ∷ b'/' ∷ place.1)) then head fs else further

-- How many fields the schedule has.
abbrev pub schedule_fields : List Text → ℕ
schedule_fields [] = 5
schedule_fields (f ∷ fs) = if has_prefix f (codes "@") then 1 else 5

unfoldable pub with_schedule : List Text → Option Text → Option (Text × Text)
with_schedule fs none = none
with_schedule fs (some command) = some (join_fields (take (schedule_fields fs) fs), command)

-- The schedule and the command of a line that runs the script.
unfoldable pub cron_line_command : Text → Text → Option (Text × Text)
cron_line_command line path =
    let trimmed = trim_space line in
    let fs = fields trimmed in
    if eqt trimmed [] || has_prefix trimmed (codes "#")
    then none
    else with_schedule fs (find_command path (split_path path) false (drop (schedule_fields fs) fs))

unfoldable pub maintenance_comment : Text → Text
maintenance_comment script = codes "# LinuxGSM " ++ (script ++ codes ": scheduled maintenance")

unfoldable pub is_legacy_maintenance_comment : Text → Bool
is_legacy_maintenance_comment line =
    has_prefix line (codes "# LinuxGSM ") && has_suffix line (codes " Geplante Wartungsaufgaben")

abbrev pub maintenance_commands : List Text
maintenance_commands =
    codes "monitor"
    ∷ codes "update"
    ∷ codes "force-update"
    ∷ codes "restart"
    ∷ codes "update-lgsm"
    ∷ []

-- The commands to drop: `none` drops all.
abbrev pub Dropped : Type 0
Dropped = Option (List Text)

abbrev pub drops : Dropped → Text → Bool
drops none command = true
drops (some commands) command = text_mem command commands

unfoldable pub drops_line : Dropped → Text → Text → Bool
drops_line dropped path trimmed = elim (cron_line_command trimmed path) [
  | none ↦ false
  | some (expr, command) ↦ drops dropped command
]

-- A legacy comment that waits for the line after it.
abbrev pub flush : Text → List Text → List Text
flush pending lines = if eqt pending [] then lines else pending ∷ lines

-- The loop of rewriteCrontab; `own` is the server's comment, and `pending` the legacy comment.
unfoldable pub kept_lines : Dropped → Text → Text → Text → List Text → List Text
kept_lines dropped path own pending [] = flush pending []
kept_lines dropped path own pending (line ∷ lines) =
    let trimmed = trim_space line in
    let on = kept_lines dropped path own pending lines in
    let waiting = kept_lines dropped path own line lines in
    let done = kept_lines dropped path own [] lines in
    if eqt trimmed []
    then on
    else if drops dropped (codes "monitor") && eqt trimmed own
    then on
    else if drops dropped (codes "monitor") && is_legacy_maintenance_comment trimmed
    then flush pending waiting
    else if drops_line dropped path trimmed
    then done
    else flush pending (line ∷ done)

unfoldable pub rewritten_lines : Text → Text → Text → Dropped → List Text → List Text
rewritten_lines crontab script path dropped extra =
    kept_lines dropped path (maintenance_comment script) [] (split_on 10 crontab) ++ extra

-- rewriteCrontab: the text that is written.
unfoldable pub rewrite_crontab : Text → Text → Text → Dropped → List Text → Text
rewrite_crontab crontab script path dropped extra =
    join_lines (rewritten_lines crontab script path dropped extra)

-- The lines of one scheduler command.
abbrev pub is_job : Text → Text → Text → Bool
is_job path command line = elim (cron_line_command line path) [
  | none ↦ false
  | some (expr, found) ↦ eqt found command && text_mem found maintenance_commands
]

abbrev pub trimmed_lines : List Text → List Text
trimmed_lines [] = []
trimmed_lines (line ∷ lines) = trim_space line ∷ trimmed_lines lines

-- cronJobLines(crontab, scriptPath)[command]
unfoldable pub cron_job_lines : Text → Text → Text → List Text
cron_job_lines crontab path command =
    trimmed_lines (keep (is_job path command) (split_on 10 crontab))
