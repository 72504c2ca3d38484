-- ===== src/Ids/Laws.antt =====
-- About SplitServerID, GlobalServerID and the validators of IDs (backend/security.go).
use linuxgsm_dashboard.Base.{
  ℕ, ◌≡◌, refl, Text, [], ◌∷◌, ◌++◌, true, Option, none, some, arith, all_of, Lacks, cut, cut-Lacks,
  cut-append,
}
use linuxgsm_dashboard.Ids.{
  id_rest, matches, node_char, is_valid_local_server_id, is_valid_node_id, is_valid_server_id,
  split_server_id, global_server_id,
}

all_node-Lacks : (s : Text) → all_of node_char s ≡ true → Lacks b'~' s
all_node-Lacks [] h = tt
all_node-Lacks (c ∷ s) h = ground (arith, all_node-Lacks s)

node-Lacks : (s : Text) → is_valid_node_id s ≡ true → Lacks b'~' s
unfolding is_valid_node_id
node-Lacks s h = ground (arith, all_node-Lacks s)

-- Joining a valid node ID and any local ID and splitting the result gives both back.
pub split-global :
    (node local : Text)
    → is_valid_node_id node ≡ true
    → split_server_id (global_server_id node local) ≡ (node, local)
unfolding global_server_id split_server_id
split-global node local h = rw (cut-append b'~' node local (node-Lacks node h), split_server_id)

all_id-Lacks : (s : Text) → all_of id_rest s ≡ true → Lacks b'~' s
all_id-Lacks [] h = tt
all_id-Lacks (c ∷ s) h = ground (arith, all_id-Lacks s)

local-Lacks : (id : Text) → is_valid_local_server_id id ≡ true → Lacks b'~' id
unfolding is_valid_local_server_id matches
local-Lacks [] h = tt
local-Lacks (c ∷ s) h = ground (arith, all_id-Lacks s)

-- A valid local ID has no node: it splits into the empty node and itself.
pub split-local : (id : Text) → is_valid_local_server_id id ≡ true → split_server_id id ≡ ([], id)
unfolding split_server_id
split-local id h = rw (cut-Lacks b'~' id (local-Lacks id h), split_server_id)

-- The parts of a cut spell the text.
abbrev Rejoins : ℕ → Text → Option (Text × Text) → Type 0
Rejoins sep s none = Unit
Rejoins sep s (some (a, b)) = s ≡ a ++ (sep ∷ b)

cut-Rejoins : (sep : ℕ) (s : Text) → Rejoins sep s (cut sep s)
unfolding cut
cut-Rejoins sep [] = tt
cut-Rejoins sep (c ∷ s) = ground (arith, cut-Rejoins sep s)

-- The two forms of a server ID, each with what `split_server_id` makes of it.
pub data IdForm (id : Text) : Type 0 where
  on_this_machine : is_valid_local_server_id id ≡ true → split_server_id id ≡ ([], id) → IdForm id
  on_node :
      (node rest : Text)
      → is_valid_node_id node ≡ true
      → is_valid_local_server_id rest ≡ true
      → id ≡ global_server_id node rest
      → split_server_id id ≡ (node, rest)
      → IdForm id

id_form :
    (id : Text) (r : Option (Text × Text))
    → cut b'~' id ≡ r
    → is_valid_server_id id ≡ true
    → IdForm id
id_form id none e h =
    on_this_machine (unfold is_valid_server_id in ground arith)
      (unfold split_server_id in ground arith)
id_form id (some (node, rest)) e h =
    on_node node rest (unfold is_valid_server_id in ground arith)
      (unfold is_valid_server_id in ground arith)
      (unfold global_server_id in
        let r : Rejoins b'~' id (some (node, rest)) = rw e at (cut-Rejoins b'~' id) in r)
      (unfold split_server_id in ground arith)

-- A valid server ID is a valid local ID, or the global ID of a valid node and a valid local ID; and
-- splitting it finds those parts.
pub valid_server_id-IdForm : (id : Text) → is_valid_server_id id ≡ true → IdForm id
valid_server_id-IdForm id h = id_form id (cut b'~' id) refl h

-- Conversely both forms are valid server IDs.
pub IdForm-valid : (id : Text) → IdForm id → is_valid_server_id id ≡ true
unfolding is_valid_server_id
IdForm-valid id (on_this_machine v _) = ground (arith, cut-Lacks b'~' id (local-Lacks id v))
IdForm-valid id (on_node node rest n v e _) =
    unfold global_server_id in ground (arith, cut-append b'~' node rest (node-Lacks node n))
