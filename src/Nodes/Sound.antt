-- ===== src/Nodes/Sound.antt =====
-- About the registry over any operations (backend/agent_nodes.go): which pairings may be open next to
-- which nodes.
use linuxgsm_dashboard.Base.{
  ◌≤◌, ◌≡◌, inl, inr, Text, [], ◌∷◌, Bool, true, false, not, ◌&&◌, Option, none, some, arith, eqt,
  eqt_iff, length, any_of, All, Bool-cases,
}
use linuxgsm_dashboard.Base.Tables.{
  Table, lookup, store, delete, retain, lookup-store, lookup-delete, All-lookup, All-store,
  All-delete, All-retain,
}
use linuxgsm_dashboard.Nodes.{Node, NodeRegistry, PendingPairing, claims_id}

abbrev pub is_some : Option Node → Bool
is_some none = false
is_some (some n) = true

-- A pairing for a new node waits for an ID that no node has, one for a repair for a node that exists.
abbrev pub Waits : Table Node → Text × PendingPairing → Type 0
Waits nodes e = is_some (lookup e.1.node_id nodes) ≡ e.1.repair

-- Two pairings for new nodes are for the same ID.
abbrev pub clash : PendingPairing → PendingPairing → Bool
clash p q = not p.repair && (not q.repair && eqt p.node_id q.node_id)

abbrev pub NoClash : PendingPairing → Text × PendingPairing → Type 0
NoClash p e = clash p e.1 ≡ false

abbrev pub Apart : Table PendingPairing → Type 0
Apart [] = Unit
Apart ((k, p) ∷ m) = All (NoClash p) m × Apart m

-- Every node is stored under its ID; the pairings wait as they should, no two for the same new ID, and
-- at most 50.
pub record IsSound (r : NodeRegistry) : Type 0 where
  pub keyed : All (λ (e : Text × Node). e.1.id ≡ e.0) r.nodes
  pub waiting : All (Waits r.nodes) r.pairings
  pub apart : Apart r.pairings
  pub few : length r.pairings ≤ 50

clash_sym : (p q : PendingPairing) → clash p q ≡ clash q p
clash_sym p q = ground (arith, eqt_iff p.node_id q.node_id, eqt_iff q.node_id p.node_id)

pub Apart-delete : (k : Text) (m : Table PendingPairing) → Apart m → Apart (delete k m)
unfolding delete
Apart-delete k [] h = tt
Apart-delete k ((j, p) ∷ m) h = elim (Bool-cases (eqt j k)) [
  | inl same ↦ rw same (Apart-delete k m h.1)
  | inr other ↦ rw other (All-delete (NoClash p) k m h.0, Apart-delete k m h.1)
]

pub Apart-retain :
    (f : PendingPairing → Bool) (m : Table PendingPairing) → Apart m → Apart (retain f m)
unfolding retain
Apart-retain f [] h = tt
Apart-retain f ((j, p) ∷ m) h = elim (Bool-cases (f p)) [
  | inl stays ↦ rw stays (All-retain (NoClash p) f m h.0, Apart-retain f m h.1)
  | inr goes ↦ rw goes (Apart-retain f m h.1)
]

pub Apart-store :
    (k : Text) (p : PendingPairing) (m : Table PendingPairing)
    → All (NoClash p) m
    → Apart m
    → Apart (store k p m)
unfolding store
Apart-store k p [] n h = (tt, tt)
Apart-store k p ((j, q) ∷ m) n h = elim (Bool-cases (eqt j k)) [
  | inl same ↦ rw same (n.1, h.1)
  | inr other ↦
      rw other
        (All-store (NoClash q) k p m (ground (arith, clash_sym p q)) h.0, Apart-store k p m n.1 h.1)
]

-- Behind the deletion of its key, no pairing clashes with the one that had it.
pub Apart-lookup :
    (k : Text) (p : PendingPairing) (m : Table PendingPairing)
    → Apart m
    → lookup k m ≡ some p
    → All (NoClash p) (delete k m)
unfolding lookup delete
Apart-lookup k p [] h e = cc
Apart-lookup k p ((j, q) ∷ m) h e = elim (Bool-cases (eqt j k)) [
  | inl same ↦
      let s : q ≡ p = ground arith in
      let n : All (NoClash p) m = rw s at h.0 in rw same (All-delete (NoClash p) k m n)
  | inr other ↦
      let f : lookup k m ≡ some p = ground arith in
      let c : clash q p ≡ false = All-lookup (NoClash q) k m p h.0 f in
      rw other (ground (arith, clash_sym p q), Apart-lookup k p m h.1 f)
]

pub claimed-NoClash :
    (p : PendingPairing) (m : Table PendingPairing)
    → any_of (claims_id p.node_id) m ≡ false
    → All (NoClash p) m
claimed-NoClash p [] h = tt
claimed-NoClash p ((k, q) ∷ m) h = (
  ground (arith, eqt_iff p.node_id q.node_id, eqt_iff q.node_id p.node_id),
  claimed-NoClash p m (ground arith),
)

pub repair-NoClash :
    (p : PendingPairing) (m : Table PendingPairing) → p.repair ≡ true → All (NoClash p) m
repair-NoClash p [] h = tt
repair-NoClash p (e ∷ m) h = (ground arith, repair-NoClash p m h)

-- Storing a node under an ID that has one changes no waiting pairing.
pub Waits-store_old :
    (id : Text) (n : Node) (nodes : Table Node) (m : Table PendingPairing)
    → is_some (lookup id nodes) ≡ true
    → All (Waits nodes) m
    → All (Waits (store id n nodes)) m
Waits-store_old id n nodes [] i h = tt
Waits-store_old id n nodes ((k, p) ∷ m) i h = (
  ground (arith, lookup-store p.node_id id n nodes, eqt_iff id p.node_id, h.0),
  Waits-store_old id n nodes m i h.1,
)

-- Storing a new node changes none that does not wait for its ID.
pub Waits-store_new :
    (p : PendingPairing) (n : Node) (nodes : Table Node) (m : Table PendingPairing)
    → p.repair ≡ false
    → is_some (lookup p.node_id nodes) ≡ false
    → All (NoClash p) m
    → All (Waits nodes) m
    → All (Waits (store p.node_id n nodes)) m
Waits-store_new p n nodes [] r i a h = tt
Waits-store_new p n nodes ((k, q) ∷ m) r i a h = (
  ground (arith, lookup-store q.node_id p.node_id n nodes, eqt_iff p.node_id q.node_id, h.0, a.0),
  Waits-store_new p n nodes m r i a.1 h.1,
)

abbrev pub other_id : Text → PendingPairing → Bool
other_id id p = not (eqt p.node_id id)

pub Waits-delete :
    (id : Text) (nodes : Table Node) (m : Table PendingPairing)
    → All (Waits nodes) m
    → All (Waits (delete id nodes)) (retain (other_id id) m)
unfolding retain
Waits-delete id nodes [] h = tt
Waits-delete id nodes ((k, p) ∷ m) h = elim (Bool-cases (eqt p.node_id id)) [
  | inl same ↦ rw same (Waits-delete id nodes m h.1)
  | inr other ↦ rw other (
    ground
        (arith, lookup-delete p.node_id id nodes, eqt_iff p.node_id id, eqt_iff id p.node_id, h.0),
    Waits-delete id nodes m h.1,
  )
]
