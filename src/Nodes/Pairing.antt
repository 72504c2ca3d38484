-- ===== src/Nodes/Pairing.antt =====
-- Creating a pairing, enrolling with its token, and the operations on paired nodes
-- (backend/agent_nodes.go).
use linuxgsm_dashboard.Base.{
  ℕ, ◌+◌, Text, List, [], ◌∷◌, ◌++◌, Bool, true, false, not, ◌&&◌, Option, none, some, ok, err,
  Result, ltb, leb, if◌then◌else◌, eqt, text_mem, length,
}
use linuxgsm_dashboard.Base.Tables.{lookup, store, delete, retain}
use linuxgsm_dashboard.Base.Fresh.{first_free}
use linuxgsm_dashboard.Ids.{is_valid_node_id}
use linuxgsm_dashboard.Passwords.{Crypto}
use linuxgsm_dashboard.Totp.{trim_space}
use linuxgsm_dashboard.Nodes.{
  Node, PendingPairing, NodeRegistry, NodeError, agent_pairing_validity, max_pending_pairings,
  sanitize_display_text, is_valid_agent_mode, save, node_id_from_name, id_taken, prune, pairing_key,
  invalid_mode, random_failed, too_many_tokens, node_not_found, name_required, invalid_token,
  not_signed, node_removed, id_in_use, save_failed, not_paired, key_not_paired, machine_mismatch,
}

pub record PairingTicket : Type 0 where
  pub token : Text
  pub node_id : Text
  pub name : Text
  pub mode : Text
  pub expires : ℕ

unfoldable pub groups_of_four : Text → Text
groups_of_four (a ∷ b ∷ c ∷ d ∷ e ∷ s) = a ∷ b ∷ c ∷ d ∷ b'-' ∷ groups_of_four (e ∷ s)
groups_of_four s = s

-- The new pairing is stored, and the ticket says what it is for.
unfoldable pub open_pairing :
    Crypto → NodeRegistry → Text → PendingPairing → NodeRegistry × Result NodeError PairingTicket
open_pairing c r token p = (
  record r { pairings = store (pairing_key c token) p r.pairings },
  ok (record {
    token = token;
    node_id = p.node_id;
    name = p.name;
    mode = p.mode;
    expires = p.expires;
  }),
)

-- The ID for a node of this name: more rounds than there are IDs to pass over.
unfoldable pub free_id : NodeRegistry → Text → Text
free_id r name =
    first_free (length r.nodes + length r.pairings) (node_id_from_name name) (id_taken r) 1

abbrev pub new_pairing : Text → Text → Text → ℕ → PendingPairing
new_pairing id name mode now = record {
  node_id = id;
  name = name;
  mode = mode;
  repair = false;
  expires = now + agent_pairing_validity;
}

abbrev pub repair_pairing : Node → Text → ℕ → PendingPairing
repair_pairing n mode now = record {
  node_id = n.id;
  name = n.name;
  mode = mode;
  repair = true;
  expires = now + agent_pairing_validity;
}

-- The part behind the limit on open tokens.
unfoldable pub pairing_for :
    Crypto
    → NodeRegistry
    → Text
    → Text
    → Text
    → ℕ
    → Text
    → NodeRegistry × Result NodeError PairingTicket
pairing_for c r name mode repair_id now token =
    if eqt repair_id []
    then if eqt name []
      then (r, err name_required)
      else open_pairing c r token (new_pairing (free_id r name) name mode now)
    else elim (lookup repair_id r.nodes) [
      | none ↦ (r, err node_not_found)
      | some n ↦ open_pairing c r token (repair_pairing n mode now)
    ]

-- CreatePairing; `raw` are the 20 random bytes of the token.
unfoldable pub create_pairing :
    Crypto
    → NodeRegistry
    → Text
    → Text
    → Text
    → ℕ
    → Option Text
    → NodeRegistry × Result NodeError PairingTicket
create_pairing c r raw_name mode repair_id now none =
    (r, if is_valid_agent_mode mode then err random_failed else err invalid_mode)
create_pairing c r raw_name mode repair_id now (some raw) =
    if not (is_valid_agent_mode mode)
    then (r, err invalid_mode)
    else if leb max_pending_pairings (length (prune r now).pairings)
    then (prune r now, err too_many_tokens)
    else pairing_for c (prune r now) (sanitize_display_text (trim_space raw_name) 64) mode repair_id
        now (groups_of_four (c.base32_encode raw))

-- A request of an agent; `csr` is the fingerprint of its Ed25519 key, `none` if the certificate
-- request cannot be read, its signature is wrong, or the key is of another kind.
pub record EnrollRequest : Type 0 where
  pub token : Text
  pub csr : Option Text
  pub machine_id : Text
  pub hostname : Text
  pub version : Text

pub record EnrollResponse : Type 0 where
  pub node_id : Text
  pub name : Text
  pub mode : Text
  pub key : Text

-- SignNodeCSR: `issued` says whether drawing the serial and creating the certificate succeed.
unfoldable pub sign_node_csr : Option Text → Text → Bool → Option Text
sign_node_csr none node_id issued = none
sign_node_csr (some key) node_id issued =
    if not (is_valid_node_id node_id) then none else if issued then some key else none

-- The node as it is after pairing with a key.
unfoldable pub paired : EnrollRequest → Text → PendingPairing → ℕ → Node → Node
paired req key p now n = record n {
  keys = key ∷ [];
  mode = p.mode;
  machine_id = sanitize_display_text req.machine_id 64;
  hostname = sanitize_display_text req.hostname 64;
  version = sanitize_display_text req.version 64;
  paired_at = now;
}

abbrev pub blank_node : PendingPairing → Node
blank_node p = record {
  id = p.node_id;
  name = p.name;
  mode = [];
  keys = [];
  machine_id = [];
  hostname = [];
  paired_at = 0;
  last_seen = 0;
  version = [];
}

-- The node is stored and the file written; a new node is taken back if that fails.
unfoldable pub store_node :
    NodeRegistry → Node → Bool → Text → Bool → NodeRegistry × Result NodeError EnrollResponse
store_node r n repair key disk_ok =
    let stored = record r { nodes = store n.id n r.nodes } in
    if disk_ok
    then (
      (save stored true).0,
      ok (record { node_id = n.id; name = n.name; mode = n.mode; key = key }),
    )
    else (
      (if repair then stored else record stored { nodes = delete n.id stored.nodes }),
      err save_failed,
    )

unfoldable pub enroll_with :
    NodeRegistry
    → EnrollRequest
    → PendingPairing
    → ℕ
    → Bool
    → Bool
    → NodeRegistry × Result NodeError EnrollResponse
enroll_with r req p now issued disk_ok = elim (sign_node_csr req.csr p.node_id issued) [
  | none ↦ (r, err not_signed)
  | some key ↦ elim (lookup p.node_id r.nodes) [
    | none ↦
        if p.repair
        then (r, err node_removed)
        else store_node r (paired req key p now (blank_node p)) p.repair key disk_ok
    | some n ↦
        if p.repair
        then store_node r (paired req key p now n) p.repair key disk_ok
        else (r, err id_in_use)
  ]
]

-- Enroll: the token is used up before anything else is checked.
unfoldable pub enroll :
    Crypto
    → NodeRegistry
    → EnrollRequest
    → ℕ
    → Bool
    → Bool
    → NodeRegistry × Result NodeError EnrollResponse
enroll c r req now issued disk_ok =
    let pruned = prune r now in
    let key = pairing_key c req.token in
    elim (lookup key pruned.pairings) [
      | none ↦ (pruned, err invalid_token)
      | some p ↦
          enroll_with (record pruned { pairings = delete key pruned.pairings }) req p now issued
            disk_ok
    ]

-- VerifyNodeCert on the name and the key fingerprint of a certificate; `none` accepts it.
unfoldable pub verify_node_cert : NodeRegistry → Text → Text → Option NodeError
verify_node_cert r id fingerprint = elim (lookup id r.nodes) [
  | none ↦ some not_paired
  | some n ↦ if text_mem fingerprint n.keys then none else some key_not_paired
]

unfoldable pub add_node_key : NodeRegistry → Text → Text → Bool → NodeRegistry × Option NodeError
add_node_key r id fingerprint disk_ok = elim (lookup id r.nodes) [
  | none ↦ (r, some node_not_found)
  | some n ↦
      if text_mem fingerprint n.keys
      then (r, none)
      else save
          (record r { nodes = store id (record n { keys = n.keys ++ (fingerprint ∷ []) }) r.nodes })
          disk_ok
]

abbrev pub only_key : List Text → Text → Bool
only_key (k ∷ []) key = eqt k key
only_key _ key = false

unfoldable pub retire_node_keys :
    NodeRegistry → Text → Text → Bool → NodeRegistry × Option NodeError
retire_node_keys r id key disk_ok = elim (lookup id r.nodes) [
  | none ↦ (r, some node_not_found)
  | some n ↦
      if only_key n.keys key
      then (r, none)
      else save (record r { nodes = store id (record n { keys = key ∷ [] }) r.nodes }) disk_ok
]

unfoldable pub remove_node : NodeRegistry → Text → Bool → NodeRegistry × Option NodeError
remove_node r id disk_ok = elim (lookup id r.nodes) [
  | none ↦ (r, some node_not_found)
  | some n ↦
      save
        (record r {
          nodes = delete id r.nodes;
          pairings = retain (λ (p : PendingPairing). not (eqt p.node_id id)) r.pairings;
        })
        disk_ok
]

abbrev pub renamed : Text → Text → Node → Node
renamed name mode n = record n { name = name; mode = mode }

unfoldable pub update_node :
    NodeRegistry → Text → Text → Text → Bool → NodeRegistry × Option NodeError
update_node r id raw_name mode disk_ok =
    let name = sanitize_display_text (trim_space raw_name) 64 in
    if eqt name []
    then (r, some name_required)
    else if not (is_valid_agent_mode mode)
    then (r, some invalid_mode)
    else elim (lookup id r.nodes) [
      | none ↦ (r, some node_not_found)
      | some n ↦ save (record r { nodes = store id (renamed name mode n) r.nodes }) disk_ok
    ]

unfoldable pub check_machine_id : NodeRegistry → Text → Text → Option NodeError
check_machine_id r id machine_id = elim (lookup id r.nodes) [
  | none ↦ some node_not_found
  | some n ↦
      if not (eqt n.machine_id [])
        && (not (eqt machine_id []) && not (eqt n.machine_id (sanitize_display_text machine_id 64)))
      then some machine_mismatch
      else none
]

-- Seen; a version that is empty keeps the known one, and within a minute nothing is written.
unfoldable pub seen : NodeRegistry → Text → Text → ℕ → Bool → NodeRegistry
seen r id raw_version now disk_ok = elim (lookup id r.nodes) [
  | none ↦ r
  | some n ↦
      let given = sanitize_display_text raw_version 64 in
      let version = if eqt given [] then n.version else given in
      if ltb now (n.last_seen + 60_000_000_000) && eqt n.version version
      then r
      else (save
          (record r { nodes = store id (record n { last_seen = now; version = version }) r.nodes })
          disk_ok).0
]
