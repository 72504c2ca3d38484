-- ===== src/Audit/Examples.antt =====
-- A short log.
use linuxgsm_dashboard.Base.{codes, List, [], ◌∷◌, true, none, ◌≡◌, ◌≤◌, length, arith, eqt}
use linuxgsm_dashboard.Audit.{AuditEntry, trim_audit_log, is_failed_login_audit, get_audit_logs}
use linuxgsm_dashboard.Audit.Trim.{
  others, trim_keeps_others, FileTrimmed, log_all, log_all-FileTrimmed,
}

abbrev failed_entry : AuditEntry
failed_entry = record {
  timestamp = [];
  username = codes "boss";
  ip = codes "10.0.0.1";
  action = codes "LOGIN_FAILED";
  details = [];
  server_id = [];
}

abbrev start_entry : AuditEntry
start_entry = record failed_entry { action = codes "ACTION" }

abbrev log : List AuditEntry
log = failed_entry ∷ start_entry ∷ failed_entry ∷ []

few : length (others log) ≤ 800
unfolding is_failed_login_audit eqt
few = omega arith

trim_keeps_others_example : others (trim_audit_log log) ≡ others log
trim_keeps_others_example = trim_keeps_others log few

empty-FileTrimmed : FileTrimmed none
unfolding get_audit_logs
empty-FileTrimmed = record { size = omega arith; few_failed = omega arith }

log_all-FileTrimmed_example :
    FileTrimmed (log_all none ((failed_entry, true) ∷ (start_entry, true) ∷ []))
log_all-FileTrimmed_example =
    log_all-FileTrimmed none ((failed_entry, true) ∷ (start_entry, true) ∷ []) empty-FileTrimmed
