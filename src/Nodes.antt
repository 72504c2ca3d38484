-- ===== src/Nodes.antt =====
-- The controller's registry of paired nodes: NodeRegistry of backend/agent_nodes.go, and the checks of
-- SignNodeCSR of backend/agent_pki.go. Times are nanoseconds. An operation gets the clock's value, what
-- the random source returns and whether nodes.json can be written; `disk` is what the file holds.
-- A certificate is the name and the key fingerprint in it: x509 and ed25519 are outside. Texts are
-- ASCII, as far as lower case, control characters and lengths in characters go.

pub mod Pairing
pub mod Names
pub mod Sound
pub mod Steps
pub mod Runs
pub mod Enrolled
pub mod Removed
mod Examples
use linuxgsm_dashboard.Base.{
  ℕ, zero, suc, ◌+◌, ◌-◌, ◌*◌, Text, codes, List, [], ◌∷◌, ◌++◌, Bool, true, false, not, ◌&&◌, ◌||◌,
  Option, none, some, ok, err, Result, ltb, leb, ◌==◌, if◌then◌else◌, eqt, text_mem, length, take,
  keep, map, any_of,
}
use linuxgsm_dashboard.Base.Tables.{Table, lookup, store, delete, retain}
use linuxgsm_dashboard.Base.Fresh.{first_free}
use linuxgsm_dashboard.Ids.{is_alnum, is_lower, is_digit, is_valid_node_id}
use linuxgsm_dashboard.Passwords.{Crypto, hex_encode, to_lower_byte}
use linuxgsm_dashboard.Totp.{trim_space, to_upper_byte}
use linuxgsm_dashboard.Authz.{mode_read_only, mode_read_write}

unfoldable pub is_valid_agent_mode : Text → Bool
is_valid_agent_mode mode = eqt mode mode_read_only || eqt mode mode_read_write

unfoldable pub lower_agent_mode : Text → Text → Text
lower_agent_mode a b =
    if eqt a mode_read_write && eqt b mode_read_write then mode_read_write else mode_read_only

pub record Node : Type 0 where
  pub id : Text
  pub name : Text
  pub mode : Text
  pub keys : List Text
  pub machine_id : Text
  pub hostname : Text
  pub paired_at : ℕ
  pub last_seen : ℕ
  pub version : Text

pub record PendingPairing : Type 0 where
  pub node_id : Text
  pub name : Text
  pub mode : Text
  pub repair : Bool
  pub expires : ℕ

-- `nodes` and `pairings` are the maps; a pairing's key is the hash of its token.
pub record NodeRegistry : Type 0 where
  pub nodes : Table Node
  pub pairings : Table PendingPairing
  pub disk : Option (List Node)

pub data NodeError : Type 0 where
  unreadable invalid_entry invalid_mode random_failed too_many_tokens node_not_found : NodeError
  name_required invalid_token not_signed node_removed id_in_use save_failed not_paired : NodeError
  key_not_paired machine_mismatch : NodeError

-- 15 minutes
abbrev pub agent_pairing_validity : ℕ
agent_pairing_validity = 900_000_000_000

abbrev pub max_pending_pairings : ℕ
max_pending_pairings = 50

abbrev pub control_byte : ℕ → Bool
control_byte c = ltb c 32 || c == 127

-- sanitizeDisplayText of backend/manager.go; the limit is in characters, which are bytes of an ASCII
-- text.
unfoldable pub sanitize_display_text : Text → ℕ → Text
sanitize_display_text s limit = take limit (trim_space (keep (λ c. not (control_byte c)) s))

abbrev pub as_read_only : Node → Node
as_read_only n = if is_valid_agent_mode n.mode then n else record n { mode = mode_read_only }

unfoldable pub load_nodes : List Node → Table Node → Result NodeError (Table Node)
load_nodes [] nodes = ok nodes
load_nodes (n ∷ ns) nodes =
    let more = load_nodes ns (store n.id (as_read_only n) nodes) in
    if not (is_valid_node_id n.id)
    then err invalid_entry
    else elim (lookup n.id nodes) [ some _ ↦ err invalid_entry | none ↦ more ]

-- What reading and decoding nodes.json gives.
pub data NodesFile : Type 0 where
  missing broken : NodesFile
  listed : List Node → NodesFile

abbrev pub registry_of :
    Option (List Node) → Result NodeError (Table Node) → Result NodeError NodeRegistry
registry_of disk (err e) = err e
registry_of disk (ok nodes) = ok (record { nodes = nodes; pairings = []; disk = disk })

unfoldable pub new_node_registry : NodesFile → Result NodeError NodeRegistry
new_node_registry missing = ok (record { nodes = []; pairings = []; disk = none })
new_node_registry broken = err unreadable
new_node_registry (listed ns) = registry_of (some ns) (load_nodes ns [])

abbrev pub values : Table Node → List Node
values [] = []
values ((k, n) ∷ m) = n ∷ values m

-- saveLocked; the order of the entries in the file, by ID, is left out.
unfoldable pub save : NodeRegistry → Bool → NodeRegistry × Option NodeError
save r true = (record r { disk = some (values r.nodes) }, none)
save r false = (r, some save_failed)

abbrev pub id_byte : ℕ → Bool
id_byte c = is_lower c || is_digit c

-- The loop of nodeIDFromName: `some_written` and `dash` are its state.
unfoldable pub id_bytes : Bool → Bool → Text → Text
id_bytes some_written dash [] = []
id_bytes some_written dash (c ∷ s) =
    let rest =
      id_bytes (some_written || id_byte c)
        (if id_byte c then false else if some_written then true else dash) s in
    if id_byte c then c ∷ rest else if some_written && not dash then b'-' ∷ rest else rest

unfoldable pub trim_dash_left : Text → Text
trim_dash_left [] = []
trim_dash_left (c ∷ s) = if c == b'-' then trim_dash_left s else c ∷ s

unfoldable pub trim_dash_right : Text → Text
trim_dash_right [] = []
trim_dash_right (c ∷ s) = elim (trim_dash_right s) [
  | [] ↦ if c == b'-' then [] else c ∷ []
  | d ∷ t ↦ c ∷ d ∷ t
]

-- strings.Trim(s, "-")
unfoldable pub trim_dashes : Text → Text
trim_dashes s = trim_dash_right (trim_dash_left s)

abbrev pub or_node : Text → Text
or_node [] = codes "node"
or_node (c ∷ s) = c ∷ s

unfoldable pub node_id_from_name : Text → Text
node_id_from_name name =
    let id = trim_dashes (id_bytes false false (map to_lower_byte name)) in
    or_node (if ltb 28 (length id) then trim_dashes (take 28 id) else id)

abbrev pub claims_id : Text → Text × PendingPairing → Bool
claims_id id p = eqt p.1.node_id id && not p.1.repair

unfoldable pub id_taken : NodeRegistry → Text → Bool
id_taken r id = elim (lookup id r.nodes) [ some _ ↦ true | none ↦ any_of (claims_id id) r.pairings ]

abbrev pub prune : NodeRegistry → ℕ → NodeRegistry
prune r now = record r { pairings = retain (λ (p : PendingPairing). ltb now p.expires) r.pairings }

unfoldable pub normalize_pairing_token : Text → Text
normalize_pairing_token token = keep (λ c. not (c == b'-' || c == b' ')) (map to_upper_byte token)

unfoldable pub pairing_key : Crypto → Text → Text
pairing_key c token = hex_encode (c.sha256 (normalize_pairing_token token))
