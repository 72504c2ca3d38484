-- ===== src/Nodes/Enrolled.antt =====
-- About the ways in which Enroll (backend/agent_nodes.go) ends, and which keys connect afterwards.
use linuxgsm_dashboard.Base.{
  ℕ, ◌≡◌, refl, inl, inr, Text, [], ◌∷◌, Bool, true, false, none, some, ok, err, Result, arith,
  eqt_refl, Bool-cases, Option-cases, ltb,
}
use linuxgsm_dashboard.Base.Tables.{Table, lookup, retain, lookup-store, lookup-delete}
use linuxgsm_dashboard.Passwords.{Crypto}
use linuxgsm_dashboard.Nodes.{
  Node, NodeRegistry, NodeError, PendingPairing, prune, save, pairing_key, invalid_token,
  not_signed, save_failed,
}
use linuxgsm_dashboard.Nodes.Pairing.{
  EnrollRequest, EnrollResponse, sign_node_csr, paired, blank_node, store_node, enroll_with, enroll,
}
use linuxgsm_dashboard.Nodes.Sound.{is_some, IsSound}
use linuxgsm_dashboard.Nodes.Steps.{prune-IsSound}
use linuxgsm_dashboard.Nodes.Runs.{without_pairing, IsTaken, IsTaken_lem}

-- The errors that a request to enroll can meet.
pub data IsExpected : NodeError → Type 0 where
  by_token : {e : NodeError} → e ≡ invalid_token → IsExpected e
  by_request : {e : NodeError} → e ≡ not_signed → IsExpected e
  by_file : {e : NodeError} → e ≡ save_failed → IsExpected e

-- An answer is the node's with its new key in force, or one of the expected errors.
abbrev pub Answers : NodeRegistry → Result NodeError EnrollResponse → Type 0
Answers r (err e) = IsExpected e
Answers r (ok a) = (n : Node) × (lookup a.node_id r.nodes ≡ some n) × (n.keys ≡ a.key ∷ [])

stored-Answers :
    (r : NodeRegistry) (n : Node) (repair : Bool) (key : Text) (disk_ok : Bool)
    → n.keys ≡ key ∷ []
    → Answers (store_node r n repair key disk_ok).0 (store_node r n repair key disk_ok).1
unfolding store_node save
stored-Answers r n repair key true k =
    (n, ground (arith, lookup-store n.id n.id n r.nodes, eqt_refl n.id), k)
stored-Answers r n repair key false k = by_file refl

taken-Answers :
    (r : NodeRegistry) (req : EnrollRequest) (p : PendingPairing) (now : ℕ) (issued disk_ok : Bool)
    → IsTaken r p
    → Answers (enroll_with r req p now issued disk_ok).0 (enroll_with r req p now issued disk_ok).1
unfolding enroll_with paired
taken-Answers r req p now issued disk_ok t =
    elim (Option-cases (sign_node_csr req.csr p.node_id issued)) [
      | inl u ↦ rw (u, enroll_with) (by_request refl)
      | inr (key, g) ↦ elim (Option-cases (lookup p.node_id r.nodes)) [
        | inl e ↦ elim (Bool-cases p.repair) [
          | inl repairs ↦
              let w : is_some (lookup p.node_id r.nodes) ≡ p.repair = t.waits in
              absurd (ground (arith, w))
          | inr new ↦
              rw (g, e, enroll_with)
                (rw new
                  (stored-Answers r (paired req key p now (blank_node p)) false key disk_ok refl))
        ]
        | inr (n, e) ↦ elim (Bool-cases p.repair) [
          | inl repairs ↦
              rw (g, e, enroll_with)
                (rw repairs (stored-Answers r (paired req key p now n) true key disk_ok refl))
          | inr new ↦
              let w : is_some (lookup p.node_id r.nodes) ≡ p.repair = t.waits in
              absurd (ground (arith, w))
        ]
      ]
    ]

-- From a sound registry, enrolling ends in one of four ways: the node is stored with the new key as its
-- only one, or the token is not open, or the certificate is refused, or the file cannot be written. That
-- the ID of the pairing was given away meanwhile, or its node removed, does not happen.
pub enroll-Answers :
    (c : Crypto) (r : NodeRegistry) (req : EnrollRequest) (now : ℕ) (issued disk_ok : Bool)
    → IsSound r
    → Answers (enroll c r req now issued disk_ok).0 (enroll c r req now issued disk_ok).1
unfolding enroll
enroll-Answers c r req now issued disk_ok s =
    let k = pairing_key c req.token in
    elim (Option-cases (lookup k (prune r now).pairings)) [
      | inl e ↦ rw (e, enroll) (by_token refl)
      | inr (p, e) ↦
          rw (e, enroll)
            (taken-Answers (without_pairing (prune r now) k) req p now issued disk_ok
              (IsTaken_lem (prune r now) k p (prune-IsSound r now s) e))
    ]

lookup-retain-none :
    (f : PendingPairing → Bool) (k : Text) (m : Table PendingPairing)
    → lookup k m ≡ none
    → lookup k (retain f m) ≡ none
unfolding lookup retain
lookup-retain-none f k [] h = refl
lookup-retain-none f k ((j, p) ∷ m) h = ground (arith, lookup-retain-none f k m)

spent :
    (c : Crypto) (r : NodeRegistry) (req : EnrollRequest) (now : ℕ) (issued disk_ok : Bool)
    → lookup (pairing_key c req.token) r.pairings ≡ none
    → (enroll c r req now issued disk_ok).1 ≡ err invalid_token
unfolding enroll
spent c r req now issued disk_ok h =
    rw
      (
        lookup-retain-none (λ (p : PendingPairing). ltb now p.expires) (pairing_key c req.token)
            r.pairings h,
        enroll,
      )
      refl

pairings-enroll_with :
    (r : NodeRegistry) (req : EnrollRequest) (p : PendingPairing) (now : ℕ) (issued disk_ok : Bool)
    → (enroll_with r req p now issued disk_ok).0.pairings ≡ r.pairings
unfolding enroll_with store_node save
pairings-enroll_with r req p now issued disk_ok = ground arith

pairings-enroll :
    (c : Crypto) (r : NodeRegistry) (req : EnrollRequest) (now : ℕ) (issued disk_ok : Bool)
    → lookup (pairing_key c req.token) (enroll c r req now issued disk_ok).0.pairings ≡ none
unfolding enroll
pairings-enroll c r req now issued disk_ok =
    let k = pairing_key c req.token in
    elim (Option-cases (lookup k (prune r now).pairings)) [
      | inl e ↦ rw (e, enroll) e
      | inr (p, e) ↦
          rw
            (
              e,
              enroll,
              pairings-enroll_with (without_pairing (prune r now) k) req p now issued disk_ok,
            )
            (ground (arith, lookup-delete k k (prune r now).pairings, eqt_refl k))
    ]

-- A token works once: whatever became of the first request that named it, any other request with it,
-- at any later time, is refused like an unknown one.
pub enroll_once :
    (c : Crypto) (r : NodeRegistry) (req again : EnrollRequest) (now later : ℕ)
    (issued disk_ok issued' disk_ok' : Bool)
    → pairing_key c again.token ≡ pairing_key c req.token
    → (enroll c (enroll c r req now issued disk_ok).0 again later issued' disk_ok').1
      ≡ err invalid_token
enroll_once c r req again now later issued disk_ok issued' disk_ok' same =
    spent c (enroll c r req now issued disk_ok).0 again later issued' disk_ok'
      (rw same (pairings-enroll c r req now issued disk_ok))
