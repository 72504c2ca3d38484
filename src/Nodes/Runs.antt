-- ===== src/Nodes/Runs.antt =====
-- About Enroll (backend/agent_nodes.go), and any sequence of requests to the registry.
use linuxgsm_dashboard.Base.{
  ℕ, ◌≡◌, refl, subst, sym, inl, inr, Text, List, [], ◌∷◌, Bool, true, false, Option, some, arith,
  eqt_iff, All, Bool-cases, Option-cases,
}
use linuxgsm_dashboard.Base.Tables.{
  Table, lookup, store, delete, lookup-store, lookup-delete, length-delete-le, All-lookup,
  All-store, All-delete,
}
use linuxgsm_dashboard.Passwords.{Crypto}
use linuxgsm_dashboard.Nodes.{Node, NodeRegistry, PendingPairing, prune, pairing_key}
use linuxgsm_dashboard.Nodes.Pairing.{
  EnrollRequest, create_pairing, sign_node_csr, paired, blank_node, store_node, enroll_with, enroll,
  add_node_key, retire_node_keys, remove_node, update_node, seen,
}
use linuxgsm_dashboard.Nodes.Sound.{
  is_some, Waits, NoClash, IsSound, Apart-delete, Apart-lookup, Waits-store_new,
}
use linuxgsm_dashboard.Nodes.Steps.{
  Keyed, save-IsSound, prune-IsSound, rewrite-IsSound, keyed_at, add_node_key-IsSound,
  retire_node_keys-IsSound, remove_node-IsSound, update_node-IsSound, seen-IsSound,
  create_pairing-IsSound,
}

-- The registry without the pairing that a token names.
abbrev pub without_pairing : NodeRegistry → Text → NodeRegistry
without_pairing r key = record r { pairings = delete key r.pairings }

pub without_pairing-IsSound :
    (r : NodeRegistry) (key : Text) → IsSound r → IsSound (without_pairing r key)
without_pairing-IsSound r key s = record {
  keyed = s.keyed;
  waiting = All-delete (Waits r.nodes) key r.pairings s.waiting;
  apart = Apart-delete key r.pairings s.apart;
  few = omega (arith, length-delete-le key r.pairings, s.few);
}

-- A pairing that was taken out of a sound registry, and that registry.
pub record IsTaken (r : NodeRegistry) (p : PendingPairing) : Type 0 where
  pub rest : IsSound r
  pub waits : is_some (lookup p.node_id r.nodes) ≡ p.repair
  pub alone : All (NoClash p) r.pairings

pub IsTaken_lem :
    (r : NodeRegistry) (key : Text) (p : PendingPairing)
    → IsSound r
    → lookup key r.pairings ≡ some p
    → IsTaken (without_pairing r key) p
IsTaken_lem r key p s e = record {
  rest = without_pairing-IsSound r key s;
  waits = All-lookup (Waits r.nodes) key r.pairings p s.waiting e;
  alone = Apart-lookup key p r.pairings s.apart e;
}

Waits-undone :
    (id : Text) (n : Node) (nodes : Table Node) (m : Table PendingPairing)
    → is_some (lookup id nodes) ≡ false
    → All (Waits nodes) m
    → All (Waits (delete id (store id n nodes))) m
Waits-undone id n nodes [] i h = tt
Waits-undone id n nodes ((k, p) ∷ m) i h = (
  ground (
    arith,
    lookup-delete p.node_id id (store id n nodes),
    lookup-store p.node_id id n nodes,
    eqt_iff id p.node_id,
    h.0,
  ),
  Waits-undone id n nodes m i h.1,
)

new_node-IsSound :
    (r : NodeRegistry) (p : PendingPairing) (n : Node) (key : Text) (disk_ok : Bool)
    → IsTaken r p
    → p.repair ≡ false
    → n.id ≡ p.node_id
    → IsSound (store_node r n false key disk_ok).0
unfolding store_node
new_node-IsSound r p n key true t new same =
    let k : All Keyed (store n.id n r.nodes) = All-store Keyed n.id n r.nodes refl t.rest.keyed in
    let there : is_some (lookup p.node_id r.nodes) ≡ false = rw new at t.waits in
    let w : All (Waits (store n.id n r.nodes)) r.pairings =
      subst (λ i. All (Waits (store i n r.nodes)) r.pairings) (sym same)
        (Waits-store_new p n r.nodes r.pairings new there t.alone t.rest.waiting) in
    save-IsSound _ true (record { keyed = k; waiting = w; apart = t.rest.apart; few = t.rest.few })
new_node-IsSound r p n key false t new same =
    let there : is_some (lookup p.node_id r.nodes) ≡ false = rw new at t.waits in
    record {
      keyed =
          All-delete Keyed n.id (store n.id n r.nodes)
            (All-store Keyed n.id n r.nodes refl t.rest.keyed);
      waiting = Waits-undone n.id n r.nodes r.pairings (rw same there) t.rest.waiting;
      apart = t.rest.apart;
      few = t.rest.few;
    }

old_node-IsSound :
    (r : NodeRegistry) (p : PendingPairing) (n d : Node) (key : Text) (disk_ok : Bool)
    → IsTaken r p
    → lookup p.node_id r.nodes ≡ some d
    → n.id ≡ p.node_id
    → IsSound (store_node r n true key disk_ok).0
unfolding store_node
old_node-IsSound r p n d key true t e same =
    let s : IsSound (record r { nodes = store n.id n r.nodes }) =
      rewrite-IsSound r n.id n d (rw (same, e) refl) refl t.rest in
    save-IsSound _ true s
old_node-IsSound r p n d key false t e same =
    rewrite-IsSound r n.id n d (rw (same, e) refl) refl t.rest

enroll_with-IsSound :
    (r : NodeRegistry) (req : EnrollRequest) (p : PendingPairing) (now : ℕ) (issued disk_ok : Bool)
    → IsTaken r p
    → IsSound (enroll_with r req p now issued disk_ok).0
unfolding enroll_with paired
enroll_with-IsSound r req p now issued disk_ok t =
    elim (Option-cases (sign_node_csr req.csr p.node_id issued)) [
      | inl u ↦ rw (u, enroll_with) t.rest
      | inr (key, g) ↦ elim (Option-cases (lookup p.node_id r.nodes)) [
        | inl e ↦ elim (Bool-cases p.repair) [
          | inl repairs ↦ rw (g, e, repairs, enroll_with) t.rest
          | inr new ↦
              rw (g, e, enroll_with)
                (rw new (
                  new_node-IsSound r p (paired req key p now (blank_node p)) key disk_ok t new
                    refl))
        ]
        | inr (n, e) ↦ elim (Bool-cases p.repair) [
          | inl repairs ↦
              rw (g, e, enroll_with)
                (rw repairs (
                  old_node-IsSound r p (paired req key p now n) n key disk_ok t e
                    (keyed_at r p.node_id n t.rest e)))
          | inr new ↦ rw (g, e, enroll_with) (rw new t.rest)
        ]
      ]
    ]

enroll-IsSound :
    (c : Crypto) (r : NodeRegistry) (req : EnrollRequest) (now : ℕ) (issued disk_ok : Bool)
    → IsSound r
    → IsSound (enroll c r req now issued disk_ok).0
unfolding enroll
enroll-IsSound c r req now issued disk_ok s =
    let k = pairing_key c req.token in
    elim (Option-cases (lookup k (prune r now).pairings)) [
      | inl e ↦ rw (e, enroll) (prune-IsSound r now s)
      | inr (p, e) ↦
          rw (e, enroll)
            (enroll_with-IsSound (without_pairing (prune r now) k) req p now issued disk_ok
              (IsTaken_lem (prune r now) k p (prune-IsSound r now s) e))
    ]

-- A request to the registry.
pub data Request : Type 0 where
  creates : (name mode repair_id : Text) (now : ℕ) (raw : Option Text) → Request
  enrolls : (req : EnrollRequest) (now : ℕ) (issued disk_ok : Bool) → Request
  adds_key : (id key : Text) (disk_ok : Bool) → Request
  retires_keys : (id key : Text) (disk_ok : Bool) → Request
  removes : (id : Text) (disk_ok : Bool) → Request
  updates : (id name mode : Text) (disk_ok : Bool) → Request
  is_seen : (id version : Text) (now : ℕ) (disk_ok : Bool) → Request

unfoldable pub step : Crypto → NodeRegistry → Request → NodeRegistry
step c r (creates name mode repair_id now raw) = (create_pairing c r name mode repair_id now raw).0
step c r (enrolls req now issued disk_ok) = (enroll c r req now issued disk_ok).0
step c r (adds_key id key disk_ok) = (add_node_key r id key disk_ok).0
step c r (retires_keys id key disk_ok) = (retire_node_keys r id key disk_ok).0
step c r (removes id disk_ok) = (remove_node r id disk_ok).0
step c r (updates id name mode disk_ok) = (update_node r id name mode disk_ok).0
step c r (is_seen id version now disk_ok) = seen r id version now disk_ok

unfoldable pub run : Crypto → NodeRegistry → List Request → NodeRegistry
run c r [] = r
run c r (q ∷ qs) = run c (step c r q) qs

pub step-IsSound : (c : Crypto) (r : NodeRegistry) (q : Request) → IsSound r → IsSound (step c r q)
unfolding step
step-IsSound c r (creates name mode repair_id now raw) s =
    create_pairing-IsSound c r name mode repair_id now raw s
step-IsSound c r (enrolls req now issued disk_ok) s = enroll-IsSound c r req now issued disk_ok s
step-IsSound c r (adds_key id key disk_ok) s = add_node_key-IsSound r id key disk_ok s
step-IsSound c r (retires_keys id key disk_ok) s = retire_node_keys-IsSound r id key disk_ok s
step-IsSound c r (removes id disk_ok) s = remove_node-IsSound r id disk_ok s
step-IsSound c r (updates id name mode disk_ok) s = update_node-IsSound r id name mode disk_ok s
step-IsSound c r (is_seen id version now disk_ok) s = seen-IsSound r id version now disk_ok s

-- Whatever requests arrive, and whichever writes of the file fail: if every node is stored under its
-- ID, every open pairing for a new node has an ID that no node and no other such pairing has, every
-- pairing for a repair names a node that exists, and at most 50 pairings are open, then so it is
-- afterwards.
pub nodes-IsSound :
    (c : Crypto) (r : NodeRegistry) (qs : List Request) → IsSound r → IsSound (run c r qs)
unfolding run
nodes-IsSound c r [] s = s
nodes-IsSound c r (q ∷ qs) s = nodes-IsSound c (step c r q) qs (step-IsSound c r q s)
