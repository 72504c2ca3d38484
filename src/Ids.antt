-- ===== src/Ids.antt =====
-- Input validation of backend/security.go and backend/agent_pki.go (IsValidNodeID): Linux users,
-- script names, server IDs and their node prefix, values for LinuxGSM configs, shell quoting.
-- A regular expression `^[first][rest]{0,n}$` is read as `matches first rest n`.
pub mod Laws
pub mod Quoting
mod Examples
use linuxgsm_dashboard.Base.{
  ℕ, zero, suc, ◌+◌, ◌-◌, ◌≤◌, Text, codes, List, [], ◌∷◌, ◌++◌, Bool, true, false, not, ◌&&◌, ◌||◌,
  Option, none, some, ltb, leb, ◌==◌, if◌then◌else◌, length, all_of, any_of, has_prefix, has_suffix,
  contains, cut, is_some, eqt,
}

abbrev pub is_lower : ℕ → Bool
is_lower c = leb b'a' c && leb c b'z'

abbrev pub is_upper : ℕ → Bool
is_upper c = leb b'A' c && leb c b'Z'

abbrev pub is_digit : ℕ → Bool
is_digit c = leb b'0' c && leb c b'9'

abbrev pub is_alnum : ℕ → Bool
is_alnum c = is_lower c || (is_upper c || is_digit c)

unfoldable pub matches : (ℕ → Bool) → (ℕ → Bool) → ℕ → Text → Bool
matches first rest n [] = false
matches first rest n (c ∷ s) = first c && (all_of rest s && leb (length s) n)

abbrev pub user_first : ℕ → Bool
user_first c = is_lower c || c == b'_'

abbrev pub user_rest : ℕ → Bool
user_rest c = is_lower c || (is_digit c || (c == b'_' || c == b'-'))

unfoldable pub is_valid_linux_username : Text → Bool
is_valid_linux_username u = matches user_first user_rest 31 u

abbrev pub script_rest : ℕ → Bool
script_rest c = is_alnum c || (c == b'.' || (c == b'_' || c == b'-'))

unfoldable pub is_valid_script_name : Text → Bool
is_valid_script_name s = matches is_alnum script_rest 63 s && not (contains s (codes ".."))

abbrev pub id_rest : ℕ → Bool
id_rest c = is_alnum c || (c == b'.' || (c == b'_' || (c == b'@' || c == b'-')))

unfoldable pub is_valid_local_server_id : Text → Bool
is_valid_local_server_id id = matches is_alnum id_rest 127 id && not (contains id (codes ".."))

abbrev pub node_char : ℕ → Bool
node_char c = is_lower c || (is_digit c || c == b'-')

unfoldable pub is_valid_node_id : Text → Bool
is_valid_node_id id =
    if length id == 0
      || (ltb 32 (length id) || (has_prefix id (codes "-") || has_suffix id (codes "-")))
    then false
    else all_of node_char id

-- `strings.Cut(id, "~")`
unfoldable pub is_valid_server_id : Text → Bool
is_valid_server_id id = elim (cut b'~' id) [
  | some (node, local) ↦ is_valid_node_id node && is_valid_local_server_id local
  | none ↦ is_valid_local_server_id id
]

unfoldable pub split_server_id : Text → Text × Text
split_server_id id = elim (cut b'~' id) [ some (n, l) ↦ (n, l) | none ↦ ([], id) ]

unfoldable pub global_server_id : Text → Text → Text
global_server_id node local = node ++ (b'~' ∷ local)

-- The bytes that strings.ContainsAny looks for: " ` $ \ LF CR NUL
abbrev pub unsafe_cfg_byte : ℕ → Bool
unsafe_cfg_byte c =
    c == b'"' || (c == b'`' || (c == b'$' || (c == b'\\' || (c == 10 || (c == 13 || c == 0)))))

unfoldable pub is_safe_cfg_value : Text → Bool
is_safe_cfg_value v = if ltb 2048 (length v) then false else not (any_of unsafe_cfg_byte v)

-- strings.ReplaceAll(s, "'", `'\''`)
unfoldable pub escape_quotes : Text → Text
escape_quotes [] = []
escape_quotes (c ∷ s) =
    (if c == b'\'' then b'\'' ∷ b'\\' ∷ b'\'' ∷ b'\'' ∷ [] else c ∷ []) ++ escape_quotes s

unfoldable pub shell_quote : Text → Text
shell_quote s = b'\'' ∷ (escape_quotes s ++ (b'\'' ∷ []))
