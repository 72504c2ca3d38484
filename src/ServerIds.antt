-- ===== src/ServerIds.antt =====
-- Stable IDs of the servers on this machine: assignStableIDs and releaseServerID of
-- backend/serverids.go. The stored IDs are a table from a server's key, its script's path, to its ID;
-- reading and writing server_ids.json, and the tags, are outside.
pub mod Distinct
mod Examples
use linuxgsm_dashboard.Base.{
  ℕ, ◌+◌, Text, codes, List, [], ◌∷◌, ◌++◌, Bool, true, false, not, ◌&&◌, ◌||◌, Option, none, some,
  if◌then◌else◌, eqt, text_mem, length,
}
use linuxgsm_dashboard.Base.Tables.{Table, lookup, store, retain}
use linuxgsm_dashboard.Base.Fresh.{first_free}
use linuxgsm_dashboard.Ids.{is_valid_local_server_id}

-- What counts of a GameServerInstance: `host` says that its layout is LayoutHost.
pub record Instance : Type 0 where
  pub id : Text
  pub script : Text
  pub user : Text
  pub key : Text
  pub host : Bool

abbrev pub stored_ids : Table Text → List Text
stored_ids [] = []
stored_ids ((k, id) ∷ m) = id ∷ stored_ids m

pub data Slot : Type 0 where
  settled fresh : Instance → Slot

abbrev pub with_id : Text → Instance → Instance
with_id id inst = record inst { id = id }

-- The stored ID of a server, if it may have it.
unfoldable pub known_id : Table Text → List Text → Instance → Option Text
known_id stored used inst = elim (lookup inst.key stored) [
  | none ↦ none
  | some id ↦ if is_valid_local_server_id id && not (text_mem id used) then some id else none
]

abbrev pub before : Slot → List Slot × List Text → List Slot × List Text
before s (slots, used) = (s ∷ slots, used)

-- The first loop: the servers whose ID is settled and the others, in their order, and the used IDs.
unfoldable pub first_pass : Table Text → List Text → List Instance → List Slot × List Text
first_pass stored used [] = ([], used)
first_pass stored used (inst ∷ rest) =
    if not inst.host
    then before (settled inst) (first_pass stored (inst.id ∷ used) rest)
    else elim (known_id stored used inst) [
      | some id ↦ before (settled (with_id id inst)) (first_pass stored (id ∷ used) rest)
      | none ↦ before (fresh inst) (first_pass stored used rest)
    ]

abbrev pub is_taken : List Text → List Text → Text → Bool
is_taken used reserved id =
    text_mem id used || (text_mem id reserved || not (is_valid_local_server_id id))

abbrev pub base_of : Instance → Text
base_of inst = if eqt inst.user [] then inst.script else inst.script ++ (b'@' ∷ inst.user)

-- The ID of a new server; one more round than there are IDs to pass over is enough if the IDs that are
-- tried are valid.
unfoldable pub new_id : List Text → List Text → Instance → Text
new_id used reserved inst =
    if is_taken used reserved inst.id
    then first_free (length used + length reserved) (base_of inst) (is_taken used reserved) 1
    else inst.id

pub record Assigned : Type 0 where
  pub servers : List Instance
  pub stored : Table Text
  pub changed : Bool

abbrev pub first : Instance → Assigned → Assigned
first inst a = record a { servers = inst ∷ a.servers }

-- The second loop, over the servers without a settled ID; the others stay as they are.
unfoldable pub second_pass : List Text → Table Text → List Text → Bool → List Slot → Assigned
second_pass reserved stored used changed [] = record {
  servers = [];
  stored = stored;
  changed = changed;
}
second_pass reserved stored used changed (settled inst ∷ slots) =
    first inst (second_pass reserved stored used changed slots)
second_pass reserved stored used changed (fresh inst ∷ slots) =
    let id = new_id used reserved inst in
    first (with_id id inst) (second_pass reserved (store inst.key id stored) (id ∷ used) true slots)

unfoldable pub assign_stable_ids : Table Text → List Instance → Assigned
assign_stable_ids stored found =
    let (slots, used) = first_pass stored [] found in
    second_pass (stored_ids stored) stored used false slots

-- releaseServerID, on the stored IDs.
unfoldable pub release_server_id : Table Text → Text → Table Text
release_server_id stored id = retain (λ s. not (eqt s id)) stored
