-- ===== src/Schedules/Examples.antt =====
-- A crontab of two servers of one user, and the jobs of one of them.
use linuxgsm_dashboard.Base.{
  ◌≡◌, refl, Text, codes, [], ◌∷◌, ◌++◌, true, false, some, keep, split_on, has_prefix, text_mem,
  eqt,
}
use linuxgsm_dashboard.Totp.{trim_space, trim_left, trim_right}
use linuxgsm_dashboard.Cron.{fields}
use linuxgsm_dashboard.Schedules.{
  Dropped, maintenance_commands, rewritten_lines, text_has, trim_semicolons,
}
use linuxgsm_dashboard.Schedules.Jobs.{in_dir, is_foreign, is_own_job, rewrite_keeps_others}
use linuxgsm_dashboard.Schedules.Gone.{rewrite_drops_jobs}

abbrev two_servers : Text
two_servers =
    codes "# LinuxGSM vhserver: scheduled maintenance"
    ++ (10
        ∷ (codes "*/5 * * * * /home/a/vhserver monitor"
            ++ (10 ∷ codes "*/5 * * * * /home/a/vhserver-2 monitor")))

abbrev vhserver : Text
vhserver = codes "vhserver"

abbrev home : Text
home = codes "home/a"

abbrev managed : Dropped
managed = some maintenance_commands

plain_name : text_has b'/' vhserver ≡ false
unfolding text_has
plain_name = refl

no_semicolon : trim_semicolons (b'/' ∷ home) ≡ b'/' ∷ home
unfolding trim_semicolons
no_semicolon = refl

-- The line of the other server is foreign, and those of this one are its jobs, in both forms.
foreign_and_own :
    ((is_foreign (b'/' ∷ home) vhserver (codes "*/5 * * * * /home/a/vhserver-2 monitor") ≡ true)
      × (is_own_job managed (b'/' ∷ home) vhserver (codes "*/5 * * * * /home/a/vhserver monitor")
          ≡ true))
    × (is_own_job managed (b'/' ∷ home) vhserver (codes "@daily cd /home/a && ./vhserver update")
        ≡ true)
unfolding trim_space trim_left trim_right fields has_prefix text_mem eqt
foreign_and_own = ((refl, refl), refl)

rewrite_keeps_others_example :
    keep
      (is_foreign (b'/' ∷ home) vhserver)
      (rewritten_lines two_servers vhserver (in_dir (b'/' ∷ home) vhserver) managed [])
    ≡ keep (is_foreign (b'/' ∷ home) vhserver) (split_on 10 two_servers)
      ++ keep (is_foreign (b'/' ∷ home) vhserver) []
rewrite_keeps_others_example =
    rewrite_keeps_others two_servers (b'/' ∷ home) vhserver managed [] plain_name

rewrite_drops_jobs_example :
    keep
      (is_own_job managed (b'/' ∷ home) vhserver)
      (rewritten_lines two_servers vhserver (in_dir (b'/' ∷ home) vhserver) managed [])
    ≡ keep (is_own_job managed (b'/' ∷ home) vhserver) []
rewrite_drops_jobs_example =
    rewrite_drops_jobs two_servers home vhserver managed [] plain_name no_semicolon
