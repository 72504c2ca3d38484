-- ===== src/Nodes/Removed.antt =====
-- About RemoveNode and VerifyNodeCert (backend/agent_nodes.go).
use linuxgsm_dashboard.Base.{
  ℕ, ◌+◌, ◌≡◌, ◌≢◌, inl, inr, Text, List, [], ◌∷◌, Bool, true, false, not, ◌&&◌, none, some, arith,
  eqt, eqt_iff, eqt_refl, All, Bool-cases, Option-cases, if◌then◌else◌, ltb, text_mem,
}
use linuxgsm_dashboard.Base.Tables.{
  Table, lookup, store, retain, lookup-store, lookup-delete, All-lookup, All-delete, All-retain,
}
use linuxgsm_dashboard.Passwords.{Crypto}
use linuxgsm_dashboard.Totp.{trim_space}
use linuxgsm_dashboard.Nodes.{
  Node, NodeRegistry, PendingPairing, prune, save, pairing_key, sanitize_display_text,
  is_valid_agent_mode,
}
use linuxgsm_dashboard.Nodes.Pairing.{
  EnrollRequest, sign_node_csr, paired, blank_node, store_node, enroll_with, enroll,
  verify_node_cert, add_node_key, only_key, retire_node_keys, remove_node, update_node, seen,
}
use linuxgsm_dashboard.Nodes.Sound.{IsSound, other_id}
use linuxgsm_dashboard.Nodes.Steps.{keyed_at, prune-IsSound, remove_node-IsSound}
use linuxgsm_dashboard.Nodes.Runs.{
  Request, creates, enrolls, adds_key, retires_keys, removes, updates, is_seen, step, run,
  step-IsSound, without_pairing, without_pairing-IsSound,
}

abbrev Elsewhere : Text → Text × PendingPairing → Type 0
Elsewhere id e = eqt e.1.node_id id ≡ false

-- No node has the ID, and no pairing is open for it.
pub record IsGone (id : Text) (r : NodeRegistry) : Type 0 where
  pub absent : lookup id r.nodes ≡ none
  pub unpaired : All (Elsewhere id) r.pairings

abbrev pub creates_pairing : Request → Bool
creates_pairing (creates name mode repair_id now raw) = true
creates_pairing _ = false

save-IsGone :
    (id : Text) (r : NodeRegistry) (disk_ok : Bool) → IsGone id r → IsGone id (save r disk_ok).0
unfolding save
save-IsGone id r true g = record { absent = g.absent; unpaired = g.unpaired }
save-IsGone id r false g = g

-- A node that is stored under an ID that exists is another one.
store-IsGone :
    (id j : Text) (n d : Node) (r : NodeRegistry)
    → lookup j r.nodes ≡ some d
    → IsGone id r
    → IsGone id (record r { nodes = store j n r.nodes })
store-IsGone id j n d r e g = record {
  absent = ground (arith, lookup-store id j n r.nodes, eqt_iff j id, g.absent);
  unpaired = g.unpaired;
}

others-IsGone :
    (id : Text) (j : Text) (r : NodeRegistry) (key : Text) (disk_ok : Bool)
    → IsGone id r
    → IsGone id (add_node_key r j key disk_ok).0 × IsGone id (retire_node_keys r j key disk_ok).0
unfolding add_node_key retire_node_keys
others-IsGone id j r key disk_ok g = elim (Option-cases (lookup j r.nodes)) [
  | inl e ↦ (rw (e, add_node_key) g, rw (e, retire_node_keys) g)
  | inr (n, e) ↦
      let stored = λ (v : Node). save-IsGone id _ disk_ok (store-IsGone id j v n r e g) in
      (
        rw (e, add_node_key)
            (elim (Bool-cases (text_mem key n.keys)) [
              | inl old ↦ rw (old, add_node_key) g
              | inr new ↦ rw (new, add_node_key) (stored _)
            ]),
        rw (e, retire_node_keys)
            (elim (Bool-cases (only_key n.keys key)) [
              | inl old ↦ rw (old, retire_node_keys) g
              | inr new ↦ rw (new, retire_node_keys) (stored _)
            ]),
      )
]

update_node-IsGone :
    (id j name mode : Text) (r : NodeRegistry) (disk_ok : Bool)
    → IsGone id r
    → IsGone id (update_node r j name mode disk_ok).0
unfolding update_node
update_node-IsGone id j name mode r disk_ok g =
    elim (Bool-cases (eqt (sanitize_display_text (trim_space name) 64) [])) [
      | inl empty ↦ rw (empty, update_node) g
      | inr given ↦ elim (Bool-cases (not (is_valid_agent_mode mode))) [
        | inl bad ↦ rw (given, bad, update_node) g
        | inr good ↦ elim (Option-cases (lookup j r.nodes)) [
          | inl e ↦ rw (given, good, e, update_node) g
          | inr (n, e) ↦
              rw (given, good, e, update_node)
                (save-IsGone id _ disk_ok (store-IsGone id j _ n r e g))
        ]
      ]
    ]

seen-IsGone :
    (id j version : Text) (now : ℕ) (r : NodeRegistry) (disk_ok : Bool)
    → IsGone id r
    → IsGone id (seen r j version now disk_ok)
unfolding seen
seen-IsGone id j version now r disk_ok g = elim (Option-cases (lookup j r.nodes)) [
  | inl e ↦ rw (e, seen) g
  | inr (n, e) ↦
      let given = sanitize_display_text version 64 in
      elim (Bool-cases (
        ltb now (n.last_seen + 60_000_000_000)
        && eqt n.version (if eqt given [] then n.version else given))) [
          | inl soon ↦ rw (e, soon, seen) g
          | inr late ↦ rw (e, late, seen) (save-IsGone id _ disk_ok (store-IsGone id j _ n r e g))
        ]
]

remove_node-IsGone :
    (id j : Text) (r : NodeRegistry) (disk_ok : Bool)
    → IsGone id r
    → IsGone id (remove_node r j disk_ok).0
unfolding remove_node
remove_node-IsGone id j r disk_ok g = elim (Option-cases (lookup j r.nodes)) [
  | inl e ↦ rw (e, remove_node) g
  | inr (n, e) ↦
      rw (e, remove_node)
        (save-IsGone id _ disk_ok (record {
          absent = ground (arith, lookup-delete id j r.nodes, g.absent);
          unpaired = All-retain (Elsewhere id) (other_id j) r.pairings g.unpaired;
        }))
]

-- The removal itself.
apart : (id : Text) (m : Table PendingPairing) → All (Elsewhere id) (retain (other_id id) m)
unfolding retain
apart id [] = tt
apart id ((k, p) ∷ m) = elim (Bool-cases (eqt p.node_id id)) [
  | inl same ↦ rw same (apart id m)
  | inr other ↦ rw other (other, apart id m)
]

removal :
    (id : Text) (r : NodeRegistry) (disk_ok : Bool) (n : Node)
    → lookup id r.nodes ≡ some n
    → IsGone id (remove_node r id disk_ok).0
unfolding remove_node
removal id r disk_ok n e =
    rw (e, remove_node)
      (save-IsGone id _ disk_ok (record {
        absent = ground (arith, lookup-delete id id r.nodes, eqt_refl id);
        unpaired = apart id r.pairings;
      }))

store_node-IsGone :
    (id : Text) (r : NodeRegistry) (n : Node) (repair : Bool) (key : Text) (disk_ok : Bool)
    → eqt n.id id ≡ false
    → IsGone id r
    → IsGone id (store_node r n repair key disk_ok).0
unfolding store_node
store_node-IsGone id r n repair key true d g = save-IsGone id _ true (record {
  absent = ground (arith, lookup-store id n.id n r.nodes, g.absent);
  unpaired = g.unpaired;
})
store_node-IsGone id r n true key false d g = record {
  absent = ground (arith, lookup-store id n.id n r.nodes, g.absent);
  unpaired = g.unpaired;
}
store_node-IsGone id r n false key false d g = record {
  absent = ground (
    arith,
    lookup-delete id n.id (store n.id n r.nodes),
    lookup-store id n.id n r.nodes,
    g.absent,
  );
  unpaired = g.unpaired;
}

enroll_with-IsGone :
    (id : Text) (r : NodeRegistry) (req : EnrollRequest) (p : PendingPairing) (now : ℕ)
    (issued disk_ok : Bool)
    → IsSound r
    → eqt p.node_id id ≡ false
    → IsGone id r
    → IsGone id (enroll_with r req p now issued disk_ok).0
unfolding enroll_with paired
enroll_with-IsGone id r req p now issued disk_ok s d g =
    elim (Option-cases (sign_node_csr req.csr p.node_id issued)) [
      | inl u ↦ rw (u, enroll_with) g
      | inr (key, k) ↦ elim (Option-cases (lookup p.node_id r.nodes)) [
        | inl e ↦ elim (Bool-cases p.repair) [
          | inl repairs ↦ rw (k, e, repairs, enroll_with) g
          | inr new ↦
              rw (k, e, enroll_with)
                (rw new (
                  store_node-IsGone id r (paired req key p now (blank_node p)) false key disk_ok d
                    g))
        ]
        | inr (n, e) ↦ elim (Bool-cases p.repair) [
          | inl repairs ↦
              let q : n.id ≡ p.node_id = keyed_at r p.node_id n s e in
              let f : eqt n.id id ≡ false = rw q d in
              rw (k, e, enroll_with)
                (rw repairs (store_node-IsGone id r (paired req key p now n) true key disk_ok f g))
          | inr new ↦ rw (k, e, enroll_with) (rw new g)
        ]
      ]
    ]

prune-IsGone : (id : Text) (r : NodeRegistry) (now : ℕ) → IsGone id r → IsGone id (prune r now)
prune-IsGone id r now g = record {
  absent = g.absent;
  unpaired =
      All-retain (Elsewhere id) (λ (p : PendingPairing). ltb now p.expires) r.pairings g.unpaired;
}

enroll-IsGone :
    (c : Crypto) (id : Text) (r : NodeRegistry) (req : EnrollRequest) (now : ℕ)
    (issued disk_ok : Bool)
    → IsSound r
    → IsGone id r
    → IsGone id (enroll c r req now issued disk_ok).0
unfolding enroll
enroll-IsGone c id r req now issued disk_ok s g =
    let k = pairing_key c req.token in
    let h = prune-IsGone id r now g in
    elim (Option-cases (lookup k (prune r now).pairings)) [
      | inl e ↦ rw (e, enroll) h
      | inr (p, e) ↦
          rw (e, enroll)
            (enroll_with-IsGone id (without_pairing (prune r now) k) req p now issued disk_ok
              (without_pairing-IsSound (prune r now) k (prune-IsSound r now s))
              (All-lookup (Elsewhere id) k (prune r now).pairings p h.unpaired e)
              (record {
                absent = h.absent;
                unpaired = All-delete (Elsewhere id) k (prune r now).pairings h.unpaired;
              }))
    ]

step-IsGone :
    (c : Crypto) (id : Text) (r : NodeRegistry) (q : Request)
    → creates_pairing q ≡ false
    → IsSound r
    → IsGone id r
    → IsGone id (step c r q)
unfolding step
step-IsGone c id r (creates name mode repair_id now raw) h s g = cc
step-IsGone c id r (enrolls req now issued disk_ok) h s g =
    enroll-IsGone c id r req now issued disk_ok s g
step-IsGone c id r (adds_key j key disk_ok) h s g = (others-IsGone id j r key disk_ok g).0
step-IsGone c id r (retires_keys j key disk_ok) h s g = (others-IsGone id j r key disk_ok g).1
step-IsGone c id r (removes j disk_ok) h s g = remove_node-IsGone id j r disk_ok g
step-IsGone c id r (updates j name mode disk_ok) h s g =
    update_node-IsGone id j name mode r disk_ok g
step-IsGone c id r (is_seen j version now disk_ok) h s g = seen-IsGone id j version now r disk_ok g

run-IsGone :
    (c : Crypto) (id : Text) (r : NodeRegistry) (qs : List Request)
    → All (λ q. creates_pairing q ≡ false) qs
    → IsSound r
    → IsGone id r
    → IsGone id (run c r qs)
unfolding run
run-IsGone c id r [] h s g = g
run-IsGone c id r (q ∷ qs) h s g =
    run-IsGone c id (step c r q) qs h.1 (step-IsSound c r q s) (step-IsGone c id r q h.0 s g)

gone_refused : (id key : Text) (r : NodeRegistry) → IsGone id r → verify_node_cert r id key ≢ none
unfolding verify_node_cert
gone_refused id key r g h = ground (arith, g.absent)

-- From a sound registry, once a node was removed, also if the file could not be written, no certificate
-- with its ID is accepted after any requests among which no administrator opens a new pairing: pairings
-- that were open at the removal cannot bring it back.
pub removed_stays_out :
    (c : Crypto) (r : NodeRegistry) (id key : Text) (disk_ok : Bool) (qs : List Request) (n : Node)
    → IsSound r
    → lookup id r.nodes ≡ some n
    → All (λ q. creates_pairing q ≡ false) qs
    → verify_node_cert (run c (remove_node r id disk_ok).0 qs) id key ≢ none
removed_stays_out c r id key disk_ok qs n s e h =
    gone_refused id key (run c (remove_node r id disk_ok).0 qs) (
      run-IsGone c id (remove_node r id disk_ok).0 qs h (remove_node-IsSound r id disk_ok s)
        (removal id r disk_ok n e))
