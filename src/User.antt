-- ===== src/User.antt =====
-- The user record of backend/auth.go and the roles of backend/authz.go.
-- The TOTP step counter is an int64 that only ever holds steps at or above 0.
use linuxgsm_dashboard.Base.{ℕ, Text, codes, List, [], Bool, eqt}

pub record User : Type 0 where
  pub username : Text
  pub password_hash : Text
  pub role : Text
  pub servers : List Text
  pub nodes : List Text
  pub permissions : List Text
  pub totp_enabled : Bool
  pub totp_secret : Text
  pub totp_last_step : ℕ
  pub recovery_codes : List Text
  pub notes_seen : Text

abbrev pub role_admin : Text
role_admin = codes "admin"

abbrev pub role_user : Text
role_user = codes "user"

unfoldable pub sanitized : User → User
sanitized u = record u {
  password_hash = [];
  totp_secret = [];
  totp_last_step = 0;
  recovery_codes = [];
}

unfoldable pub is_admin : User → Bool
is_admin u = eqt u.role role_admin
