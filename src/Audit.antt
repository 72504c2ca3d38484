-- ===== src/Audit.antt =====
-- The audit log of backend/auth.go: LogAudit, trimAuditLog, GetAuditLogs. The file holds a list of
-- entries, newest first; `none` is a file that is missing or cannot be read as such a list.
pub mod Trim
mod Examples
use linuxgsm_dashboard.Base.{
  ℕ, ◌+◌, Text, codes, List, [], ◌∷◌, Bool, true, false, ◌||◌, Option, none, some, leb,
  if◌then◌else◌, eqt,
}

pub record AuditEntry : Type 0 where
  pub timestamp : Text
  pub username : Text
  pub ip : Text
  pub action : Text
  pub details : Text
  pub server_id : Text

abbrev pub max_audit_entries : ℕ
max_audit_entries = 1000

abbrev pub max_audit_failed_logins : ℕ
max_audit_failed_logins = 200

unfoldable pub is_failed_login_audit : Text → Bool
is_failed_login_audit action =
    eqt action (codes "LOGIN_FAILED") || eqt action (codes "LOGIN_2FA_FAILED")

abbrev pub is_failed : AuditEntry → Bool
is_failed e = is_failed_login_audit e.action

-- The loop: `failed` failed logins and `size` entries are kept so far.
unfoldable pub trim_loop : ℕ → ℕ → List AuditEntry → List AuditEntry
trim_loop failed size [] = []
trim_loop failed size (e ∷ es) =
    let skipped = trim_loop failed size es in
    let after_failed = trim_loop (failed + 1) (size + 1) es in
    let after_other = trim_loop failed (size + 1) es in
    if is_failed e
    then if leb max_audit_failed_logins failed
      then skipped
      else e ∷ (if leb max_audit_entries (size + 1) then [] else after_failed)
    else e ∷ (if leb max_audit_entries (size + 1) then [] else after_other)

unfoldable pub trim_audit_log : List AuditEntry → List AuditEntry
trim_audit_log entries = trim_loop 0 0 entries

unfoldable pub get_audit_logs : Option (List AuditEntry) → List AuditEntry
get_audit_logs none = []
get_audit_logs (some entries) = entries

-- The file after an entry was logged; a failing write leaves it.
unfoldable pub log_audit : Option (List AuditEntry) → AuditEntry → Bool → Option (List AuditEntry)
log_audit file e disk_ok = if disk_ok then some (trim_audit_log (e ∷ get_audit_logs file)) else file
