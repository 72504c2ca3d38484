-- ===== src/Audit/Trim.antt =====
-- About trimAuditLog and LogAudit of backend/auth.go: the sizes of the log and of its parts.
use linuxgsm_dashboard.Base.{
  ℕ, ◌+◌, ◌-◌, ◌≤◌, ◌<◌, ◌≡◌, refl, inl, inr, List, [], ◌∷◌, Bool, true, false, not, Option, arith,
  leb, length, keep, Bool-cases, ap,
}
use linuxgsm_dashboard.Audit.{
  AuditEntry, is_failed, trim_loop, trim_audit_log, log_audit, get_audit_logs, max_audit_entries,
  max_audit_failed_logins,
}

-- The entries that are no failed logins, and those that are.
abbrev pub others : List AuditEntry → List AuditEntry
others es = keep (λ e. not (is_failed e)) es

abbrev pub failed_logins : List AuditEntry → List AuditEntry
failed_logins es = keep is_failed es

pub record IsTrimmed (es : List AuditEntry) : Type 0 where
  pub size : length es ≤ max_audit_entries
  pub few_failed : length (failed_logins es) ≤ max_audit_failed_logins

trim_loop_size :
    (failed size : ℕ) (es : List AuditEntry)
    → size < max_audit_entries
    → size + length (trim_loop failed size es) ≤ max_audit_entries
unfolding trim_loop
trim_loop_size failed size [] h = omega arith
trim_loop_size failed size (e ∷ es) h = ground (
  arith,
  trim_loop_size failed size es,
  trim_loop_size (failed + 1) (size + 1) es,
  trim_loop_size failed (size + 1) es,
)

trim_loop_failed :
    (failed size : ℕ) (es : List AuditEntry)
    → failed ≤ max_audit_failed_logins
    → failed + length (failed_logins (trim_loop failed size es)) ≤ max_audit_failed_logins
unfolding trim_loop
trim_loop_failed failed size [] h = omega arith
trim_loop_failed failed size (e ∷ es) h = elim (Bool-cases (is_failed e)) [
  | inl hit ↦ elim (Bool-cases (leb max_audit_failed_logins failed)) [
    | inl full ↦ rw (hit, full, trim_loop) (trim_loop_failed failed size es h)
    | inr room ↦ elim (Bool-cases (leb max_audit_entries (size + 1))) [
      | inl last ↦ rw (hit, room, last, trim_loop) (ground arith)
      | inr more ↦
          rw (hit, room, more, trim_loop)
            (ground (arith, trim_loop_failed (failed + 1) (size + 1) es))
    ]
  ]
  | inr other ↦ elim (Bool-cases (leb max_audit_entries (size + 1))) [
    | inl last ↦ rw (other, last, trim_loop) (ground arith)
    | inr more ↦ rw (other, more, trim_loop) (ground (arith, trim_loop_failed failed (size + 1) es))
  ]
]

-- At most 1000 entries, 200 of them failed logins, are left of any log.
pub trim_audit_log-IsTrimmed : (es : List AuditEntry) → IsTrimmed (trim_audit_log es)
unfolding trim_audit_log
trim_audit_log-IsTrimmed es = record {
  size = omega (arith, trim_loop_size 0 0 es (omega arith));
  few_failed = omega (arith, trim_loop_failed 0 0 es (omega arith));
}

nothing_left : (es : List AuditEntry) → length es ≤ 0 → [] ≡ es
nothing_left [] h = refl
nothing_left (e ∷ es) h = absurd (omega arith)

others-trim_loop :
    (failed size : ℕ) (es : List AuditEntry)
    → failed ≤ max_audit_failed_logins
    → (size - failed) + length (others es) ≤ max_audit_entries - max_audit_failed_logins
    → failed ≤ size
    → size < max_audit_entries
    → others (trim_loop failed size es) ≡ others es
unfolding trim_loop
others-trim_loop failed size [] f n le b = refl
others-trim_loop failed size (e ∷ es) f n le b = elim (Bool-cases (is_failed e)) [
  | inl hit ↦ elim (Bool-cases (leb max_audit_failed_logins failed)) [
    | inl full ↦ rw (hit, full, trim_loop) (others-trim_loop failed size es f (ground arith) le b)
    | inr room ↦ elim (Bool-cases (leb max_audit_entries (size + 1))) [
      | inl last ↦ rw (hit, room, last, trim_loop, hit) (nothing_left (others es) (ground arith))
      | inr more ↦
          rw (hit, room, more, trim_loop, hit)
            (others-trim_loop (failed + 1) (size + 1) es (ground arith) (ground arith) (omega arith)
              (ground arith))
    ]
  ]
  | inr other ↦ elim (Bool-cases (leb max_audit_entries (size + 1))) [
    | inl last ↦
        rw (other, last, trim_loop, other)
          (ap (λ r. e ∷ r) (nothing_left (others es) (ground arith)))
    | inr more ↦
        rw (other, more, trim_loop, other)
          (ap (λ r. e ∷ r)
            (others-trim_loop failed (size + 1) es f (ground arith) (omega arith) (ground arith)))
  ]
]

-- Failed logins never push out what others did: as long as a log has at most 800 entries that are no
-- failed logins, trimming it keeps all of these, in their order, however many failed logins there are.
pub trim_keeps_others :
    (es : List AuditEntry)
    → length (others es) ≤ max_audit_entries - max_audit_failed_logins
    → others (trim_audit_log es) ≡ others es
unfolding trim_audit_log
trim_keeps_others es h =
    others-trim_loop 0 0 es (omega arith) (omega (arith, h)) (omega arith) (omega arith)

-- The file after a list of entries, each with whether its write succeeds.
unfoldable pub log_all :
    Option (List AuditEntry) → List (AuditEntry × Bool) → Option (List AuditEntry)
log_all file [] = file
log_all file ((e, disk_ok) ∷ rest) = log_all (log_audit file e disk_ok) rest

abbrev pub FileTrimmed : Option (List AuditEntry) → Type 0
FileTrimmed file = IsTrimmed (get_audit_logs file)

log_audit-FileTrimmed :
    (file : Option (List AuditEntry)) (e : AuditEntry) (disk_ok : Bool)
    → FileTrimmed file
    → FileTrimmed (log_audit file e disk_ok)
unfolding log_audit get_audit_logs
log_audit-FileTrimmed file e true h = trim_audit_log-IsTrimmed _
log_audit-FileTrimmed file e false h = h

-- However much is logged, and whichever writes fail: a file within the limits, of 1000 entries and 200
-- failed logins, stays within them.
pub log_all-FileTrimmed :
    (file : Option (List AuditEntry)) (entries : List (AuditEntry × Bool))
    → FileTrimmed file
    → FileTrimmed (log_all file entries)
unfolding log_all
log_all-FileTrimmed file [] h = h
log_all-FileTrimmed file ((e, disk_ok) ∷ rest) h =
    log_all-FileTrimmed (log_audit file e disk_ok) rest (log_audit-FileTrimmed file e disk_ok h)
