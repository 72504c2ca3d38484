-- ===== src/Nodes/Names.antt =====
-- About the choice of a node ID in CreatePairing (backend/agent_nodes.go).
use linuxgsm_dashboard.Base.{
  ◌+◌, ◌≡◌, refl, inl, inr, Text, List, [], ◌∷◌, ◌++◌, true, false, ◌||◌, some, arith, eqt_iff,
  text_mem, length, length-append, any_of, Option-cases,
}
use linuxgsm_dashboard.Base.Tables.{Table, lookup}
use linuxgsm_dashboard.Base.Fresh.{candidate, first_free_lem}
use linuxgsm_dashboard.Nodes.{
  Node, NodeRegistry, PendingPairing, claims_id, id_taken, node_id_from_name,
}
use linuxgsm_dashboard.Nodes.Pairing.{free_id}

abbrev node_names : Table Node → List Text
node_names [] = []
node_names ((k, n) ∷ m) = k ∷ node_names m

abbrev pairing_names : Table PendingPairing → List Text
pairing_names [] = []
pairing_names ((k, p) ∷ m) = p.node_id ∷ pairing_names m

length-node_names : (m : Table Node) → length (node_names m) ≡ length m
length-node_names [] = refl
length-node_names (e ∷ m) = omega (arith, length-node_names m)

length-pairing_names : (m : Table PendingPairing) → length (pairing_names m) ≡ length m
length-pairing_names [] = refl
length-pairing_names (e ∷ m) = omega (arith, length-pairing_names m)

text_mem-append :
    (t : Text) (xs ys : List Text) → text_mem t (xs ++ ys) ≡ (text_mem t xs || text_mem t ys)
unfolding text_mem
text_mem-append t [] ys = refl
text_mem-append t (x ∷ xs) ys = ground (arith, text_mem-append t xs ys)

text_mem-node_names :
    (id : Text) (m : Table Node) (n : Node)
    → lookup id m ≡ some n
    → text_mem id (node_names m) ≡ true
unfolding lookup text_mem
text_mem-node_names id [] n h = cc
text_mem-node_names id ((k, d) ∷ m) n h =
    ground (arith, text_mem-node_names id m n, eqt_iff k id, eqt_iff id k)

text_mem-pairing_names :
    (id : Text) (m : Table PendingPairing)
    → any_of (claims_id id) m ≡ true
    → text_mem id (pairing_names m) ≡ true
unfolding text_mem
text_mem-pairing_names id [] h = cc
text_mem-pairing_names id ((k, p) ∷ m) h =
    ground (arith, text_mem-pairing_names id m, eqt_iff p.node_id id, eqt_iff id p.node_id)

abbrev names : NodeRegistry → List Text
names r = node_names r.nodes ++ pairing_names r.pairings

taken-named : (r : NodeRegistry) (id : Text) → id_taken r id ≡ true → text_mem id (names r) ≡ true
unfolding id_taken
taken-named r id h = elim (Option-cases (lookup id r.nodes)) [
  | inr (n, e) ↦ ground (
    arith,
    text_mem-append id (node_names r.nodes) (pairing_names r.pairings),
    text_mem-node_names id r.nodes n e,
  )
  | inl e ↦ ground (
    arith,
    text_mem-append id (node_names r.nodes) (pairing_names r.pairings),
    text_mem-pairing_names id r.pairings,
  )
]

-- The search for the ID of a new node ends, and the ID that it finds is neither a node's nor reserved
-- by an open pairing.
pub free_id_lem : (r : NodeRegistry) (name : Text) → id_taken r (free_id r name) ≡ false
unfolding free_id
free_id_lem r name =
    first_free_lem (length r.nodes + length r.pairings) (node_id_from_name name) (id_taken r) 1
      (names r) (omega arith)
      (λ k h top hit. taken-named r (candidate (node_id_from_name name) k) hit)
      (omega (
        arith,
        length-append (node_names r.nodes) (pairing_names r.pairings),
        length-node_names r.nodes,
        length-pairing_names r.pairings,
      ))
