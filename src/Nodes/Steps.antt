-- ===== src/Nodes/Steps.antt =====
-- About each operation of NodeRegistry (backend/agent_nodes.go) under IsSound, and any sequence of them.
use linuxgsm_dashboard.Base.{
  ℕ, ◌+◌, ◌<◌, ◌≡◌, refl, inl, inr, Text, [], Bool, true, false, not, ◌&&◌, Option, none, some,
  arith, eqt, length, any_of, All, Bool-cases, Option-cases, if◌then◌else◌, leb, ltb, text_mem,
}
use linuxgsm_dashboard.Base.Tables.{
  lookup, store, length-retain-le, length-store-le, All-lookup, All-store, All-delete, All-retain,
}
use linuxgsm_dashboard.Passwords.{Crypto}
use linuxgsm_dashboard.Totp.{trim_space}
use linuxgsm_dashboard.Nodes.{
  Node, NodeRegistry, PendingPairing, claims_id, id_taken, prune, save, is_valid_agent_mode,
  sanitize_display_text, pairing_key,
}
use linuxgsm_dashboard.Nodes.Names.{free_id_lem}
use linuxgsm_dashboard.Nodes.Pairing.{
  open_pairing, new_pairing, repair_pairing, free_id, pairing_for, create_pairing, add_node_key,
  only_key, retire_node_keys, remove_node, update_node, seen,
}
use linuxgsm_dashboard.Nodes.Sound.{
  is_some, Waits, NoClash, IsSound, Apart-retain, Apart-store, claimed-NoClash, repair-NoClash,
  Waits-store_old, other_id, Waits-delete,
}

abbrev pub Keyed : Text × Node → Type 0
Keyed e = e.1.id ≡ e.0

pub some_there :
    (r : NodeRegistry) (id : Text) (n : Node)
    → lookup id r.nodes ≡ some n
    → is_some (lookup id r.nodes) ≡ true
some_there r id n e = rw e refl

pub save-IsSound : (r : NodeRegistry) (disk_ok : Bool) → IsSound r → IsSound (save r disk_ok).0
unfolding save
save-IsSound r true s = record {
  keyed = s.keyed;
  waiting = s.waiting;
  apart = s.apart;
  few = s.few;
}
save-IsSound r false s = s

pub prune-IsSound : (r : NodeRegistry) (now : ℕ) → IsSound r → IsSound (prune r now)
prune-IsSound r now s = record {
  keyed = s.keyed;
  waiting =
      All-retain (Waits r.nodes) (λ (p : PendingPairing). ltb now p.expires) r.pairings s.waiting;
  apart = Apart-retain (λ (p : PendingPairing). ltb now p.expires) r.pairings s.apart;
  few =
      omega (arith, length-retain-le (λ (p : PendingPairing). ltb now p.expires) r.pairings, s.few);
}

-- Writing a node over one with the same ID.
pub rewrite-IsSound :
    (r : NodeRegistry) (id : Text) (n d : Node)
    → lookup id r.nodes ≡ some d
    → n.id ≡ id
    → IsSound r
    → IsSound (record r { nodes = store id n r.nodes })
rewrite-IsSound r id n d e k s = record {
  keyed = All-store Keyed id n r.nodes k s.keyed;
  waiting = Waits-store_old id n r.nodes r.pairings (some_there r id d e) s.waiting;
  apart = s.apart;
  few = s.few;
}

pub keyed_at :
    (r : NodeRegistry) (id : Text) (n : Node) → IsSound r → lookup id r.nodes ≡ some n → n.id ≡ id
keyed_at r id n s e = All-lookup Keyed id r.nodes n s.keyed e

pub add_node_key-IsSound :
    (r : NodeRegistry) (id key : Text) (disk_ok : Bool)
    → IsSound r
    → IsSound (add_node_key r id key disk_ok).0
unfolding add_node_key
add_node_key-IsSound r id key disk_ok s = elim (Option-cases (lookup id r.nodes)) [
  | inl e ↦ rw (e, add_node_key) s
  | inr (n, e) ↦ elim (Bool-cases (text_mem key n.keys)) [
    | inl old ↦ rw (e, old, add_node_key) s
    | inr new ↦
        rw (e, new, add_node_key)
          (save-IsSound _ disk_ok (rewrite-IsSound r id _ n e (keyed_at r id n s e) s))
  ]
]

pub retire_node_keys-IsSound :
    (r : NodeRegistry) (id key : Text) (disk_ok : Bool)
    → IsSound r
    → IsSound (retire_node_keys r id key disk_ok).0
unfolding retire_node_keys
retire_node_keys-IsSound r id key disk_ok s = elim (Option-cases (lookup id r.nodes)) [
  | inl e ↦ rw (e, retire_node_keys) s
  | inr (n, e) ↦ elim (Bool-cases (only_key n.keys key)) [
    | inl old ↦ rw (e, old, retire_node_keys) s
    | inr new ↦
        rw (e, new, retire_node_keys)
          (save-IsSound _ disk_ok (rewrite-IsSound r id _ n e (keyed_at r id n s e) s))
  ]
]

pub remove_node-IsSound :
    (r : NodeRegistry) (id : Text) (disk_ok : Bool)
    → IsSound r
    → IsSound (remove_node r id disk_ok).0
unfolding remove_node
remove_node-IsSound r id disk_ok s = elim (Option-cases (lookup id r.nodes)) [
  | inl e ↦ rw (e, remove_node) s
  | inr (n, e) ↦
      rw (e, remove_node)
        (save-IsSound _ disk_ok (record {
          keyed = All-delete Keyed id r.nodes s.keyed;
          waiting = Waits-delete id r.nodes r.pairings s.waiting;
          apart = Apart-retain (other_id id) r.pairings s.apart;
          few = omega (arith, length-retain-le (other_id id) r.pairings, s.few);
        }))
]

pub update_node-IsSound :
    (r : NodeRegistry) (id name mode : Text) (disk_ok : Bool)
    → IsSound r
    → IsSound (update_node r id name mode disk_ok).0
unfolding update_node
update_node-IsSound r id name mode disk_ok s =
    elim (Bool-cases (eqt (sanitize_display_text (trim_space name) 64) [])) [
      | inl empty ↦ rw (empty, update_node) s
      | inr given ↦ elim (Bool-cases (not (is_valid_agent_mode mode))) [
        | inl bad ↦ rw (given, bad, update_node) s
        | inr good ↦ elim (Option-cases (lookup id r.nodes)) [
          | inl e ↦ rw (given, good, e, update_node) s
          | inr (n, e) ↦
              rw (given, good, e, update_node)
                (save-IsSound _ disk_ok (rewrite-IsSound r id _ n e (keyed_at r id n s e) s))
        ]
      ]
    ]

pub seen-IsSound :
    (r : NodeRegistry) (id version : Text) (now : ℕ) (disk_ok : Bool)
    → IsSound r
    → IsSound (seen r id version now disk_ok)
unfolding seen
seen-IsSound r id version now disk_ok s = elim (Option-cases (lookup id r.nodes)) [
  | inl e ↦ rw (e, seen) s
  | inr (n, e) ↦
      let given = sanitize_display_text version 64 in
      elim (Bool-cases (
        ltb now (n.last_seen + 60_000_000_000)
        && eqt n.version (if eqt given [] then n.version else given))) [
          | inl soon ↦ rw (e, soon, seen) s
          | inr late ↦
              rw (e, late, seen)
                (save-IsSound _ disk_ok (rewrite-IsSound r id _ n e (keyed_at r id n s e) s))
        ]
]

open_pairing-IsSound :
    (c : Crypto) (r : NodeRegistry) (token : Text) (p : PendingPairing)
    → IsSound r
    → Waits r.nodes (pairing_key c token, p)
    → All (NoClash p) r.pairings
    → length r.pairings < 50
    → IsSound (open_pairing c r token p).0
unfolding open_pairing
open_pairing-IsSound c r token p s w n f = record {
  keyed = s.keyed;
  waiting = All-store (Waits r.nodes) (pairing_key c token) p r.pairings w s.waiting;
  apart = Apart-store (pairing_key c token) p r.pairings n s.apart;
  few = omega (arith, length-store-le (pairing_key c token) p r.pairings, f);
}

free_there :
    (r : NodeRegistry) (id : Text)
    → id_taken r id ≡ false
    → (is_some (lookup id r.nodes) ≡ false) × (any_of (claims_id id) r.pairings ≡ false)
unfolding id_taken
free_there r id h = elim (Option-cases (lookup id r.nodes)) [
  | inl e ↦ (rw e refl, rw (e, id_taken) at h)
  | inr (n, e) ↦ absurd (ground arith)
]

pairing_for-IsSound :
    (c : Crypto) (r : NodeRegistry) (name mode repair_id : Text) (now : ℕ) (token : Text)
    → IsSound r
    → length r.pairings < 50
    → IsSound (pairing_for c r name mode repair_id now token).0
unfolding pairing_for
pairing_for-IsSound c r name mode repair_id now token s f = elim (Bool-cases (eqt repair_id [])) [
  | inl new ↦ elim (Bool-cases (eqt name [])) [
    | inl nameless ↦ rw (new, nameless, pairing_for) s
    | inr named ↦
        let (a, b) = free_there r (free_id r name) (free_id_lem r name) in
        rw (new, named, pairing_for)
          (open_pairing-IsSound c r token (new_pairing (free_id r name) name mode now) s a
            (claimed-NoClash (new_pairing (free_id r name) name mode now) r.pairings b) f)
  ]
  | inr repairs ↦ elim (Option-cases (lookup repair_id r.nodes)) [
    | inl e ↦ rw (repairs, e, pairing_for) s
    | inr (n, e) ↦
        let k : n.id ≡ repair_id = keyed_at r repair_id n s e in
        let w : is_some (lookup n.id r.nodes) ≡ true = rw (k, e) refl in
        rw (repairs, e, pairing_for)
          (open_pairing-IsSound c r token (repair_pairing n mode now) s w
            (repair-NoClash (repair_pairing n mode now) r.pairings refl) f)
  ]
]

pub create_pairing-IsSound :
    (c : Crypto) (r : NodeRegistry) (name mode repair_id : Text) (now : ℕ) (raw : Option Text)
    → IsSound r
    → IsSound (create_pairing c r name mode repair_id now raw).0
unfolding create_pairing
create_pairing-IsSound c r name mode repair_id now none s = s
create_pairing-IsSound c r name mode repair_id now (some raw) s =
    elim (Bool-cases (not (is_valid_agent_mode mode))) [
      | inl bad ↦ rw (bad, create_pairing) s
      | inr good ↦ elim (Bool-cases (leb 50 (length (prune r now).pairings))) [
        | inl full ↦ rw (good, full, create_pairing) (prune-IsSound r now s)
        | inr room ↦
            rw (good, room, create_pairing)
              (pairing_for-IsSound c (prune r now) _ mode repair_id now _ (prune-IsSound r now s)
                (ground arith))
      ]
    ]
