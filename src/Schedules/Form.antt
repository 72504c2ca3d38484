-- ===== src/Schedules/Form.antt =====
-- The scheduler form of backend/schedule.go: GetCronSchedule, ValidateCronSchedule, SaveCronSchedule and
-- InstallCronjobs.
use linuxgsm_dashboard.Base.{
  Text, codes, List, [], ◌∷◌, ◌++◌, not, ◌&&◌, Option, none, some, Result, ok, err, if◌then◌else◌,
  eqt, text_mem,
}
use linuxgsm_dashboard.Base.Tables.{Table, lookup, store}
use linuxgsm_dashboard.Totp.{trim_space}
use linuxgsm_dashboard.Cron.Validation.{validate_cron_expr}
use linuxgsm_dashboard.Schedules.{
  cron_line_command, maintenance_comment, maintenance_commands, rewrite_crontab, cron_job_lines,
}

-- What the form needs of a server: its script, the script's path in schedules, and the commands that
-- availableScheduleCommands gives.
pub record Server : Type 0 where
  pub script : Text
  pub path : Text
  pub available : List Text

pub data FormError : Type 0 where
  server_not_found unknown_command invalid_expression unreadable not_available : FormError

-- In crontab order.
abbrev pub schedule_commands : List Text
schedule_commands = maintenance_commands

-- The schedule of the first of a command's lines.
unfoldable pub first_schedule : Text → List Text → Option Text
first_schedule path [] = none
first_schedule path (line ∷ lines) = elim (cron_line_command line path) [
  | none ↦ none
  | some (expr, command) ↦ some expr
]

abbrev pub with_job : Text → Option Text → Table Text → Table Text
with_job command none jobs = jobs
with_job command (some expr) jobs = store command expr jobs

unfoldable pub jobs_of : Text → Text → List Text → Table Text
jobs_of crontab path [] = []
jobs_of crontab path (command ∷ commands) =
    with_job command (first_schedule path (cron_job_lines crontab path command))
      (jobs_of crontab path commands)

-- GetCronSchedule; a crontab that cannot be read counts as empty.
unfoldable pub get_cron_schedule :
    Option Server → Option Text → Result FormError (Table Text × List Text)
get_cron_schedule none crontab = err server_not_found
get_cron_schedule (some srv) none = ok (jobs_of [] srv.path schedule_commands, srv.available)
get_cron_schedule (some srv) (some crontab) =
    ok (jobs_of crontab srv.path schedule_commands, srv.available)

unfoldable pub validate_cron_schedule : Table Text → Option FormError
validate_cron_schedule [] = none
validate_cron_schedule ((command, expr) ∷ jobs) =
    let later = validate_cron_schedule jobs in
    if not (text_mem command maintenance_commands)
    then some unknown_command
    else if not (eqt expr []) && not (validate_cron_expr expr)
    then some invalid_expression
    else later

unfoldable pub job_line : Text → Text → Text → Text
job_line expr path command =
    trim_space expr ++ (b' ' ∷ (path ++ (b' ' ∷ (command ++ codes " > /dev/null 2>&1"))))

abbrev pub after_lines : List Text → Result FormError (List Text) → Result FormError (List Text)
after_lines lines (err e) = err e
after_lines lines (ok more) = ok (lines ++ more)

-- The lines of the form's commands: a job that the form leaves out stays as it is, an empty one goes.
unfoldable pub form_lines : Server → Text → Table Text → List Text → Result FormError (List Text)
form_lines srv crontab jobs [] = ok []
form_lines srv crontab jobs (command ∷ commands) =
    let more = form_lines srv crontab jobs commands in
    elim (lookup command jobs) [
      | none ↦ after_lines (cron_job_lines crontab srv.path command) more
      | some expr ↦
          if eqt expr []
          then more
          else if not (text_mem command srv.available)
          then err not_available
          else after_lines (job_line expr srv.path command ∷ []) more
    ]

abbrev pub with_comment : Text → List Text → List Text
with_comment script [] = []
with_comment script (line ∷ lines) = maintenance_comment script ∷ line ∷ lines

abbrev pub written : Server → Text → Result FormError (List Text) → Result FormError Text
written srv crontab (err e) = err e
written srv crontab (ok lines) = ok (
    rewrite_crontab crontab srv.script srv.path (some maintenance_commands)
      (with_comment srv.script lines))

-- SaveCronSchedule up to the crontab that is written.
unfoldable pub save_cron_schedule : Option Server → Option Text → Table Text → Result FormError Text
save_cron_schedule none crontab jobs = err server_not_found
save_cron_schedule (some srv) crontab jobs = elim (validate_cron_schedule jobs) [
  | some e ↦ err e
  | none ↦ elim crontab [
    | none ↦ err unreadable
    | some text ↦ written srv text (form_lines srv text jobs schedule_commands)
  ]
]

abbrev pub recommended : List Text → Table Text
recommended available =
    (codes "monitor", codes "*/5 * * * *")
    ∷ (codes "update-lgsm", codes "0 0 * * 0")
    ∷ (if text_mem (codes "update") available
        then (codes "update", codes "*/30 * * * *") ∷ []
        else [])

unfoldable pub install_cronjobs : Option Server → Option Text → Result FormError Text
install_cronjobs none crontab = err server_not_found
install_cronjobs (some srv) crontab =
    save_cron_schedule (some srv) crontab (recommended srv.available)
