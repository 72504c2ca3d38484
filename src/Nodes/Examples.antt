-- ===== src/Nodes/Examples.antt =====
-- A node is paired, removed, and refused.
use linuxgsm_dashboard.Base.{
  ◌≡◌, ◌≢◌, refl, codes, List, [], ◌∷◌, true, false, none, some, err, arith, eqt,
}
use linuxgsm_dashboard.Base.Tables.{lookup}
use linuxgsm_dashboard.Passwords.Examples.{toy}
use linuxgsm_dashboard.Nodes.{Node, NodeRegistry, PendingPairing, id_taken, invalid_token}
use linuxgsm_dashboard.Nodes.Pairing.{EnrollRequest, enroll, remove_node, verify_node_cert, free_id}
use linuxgsm_dashboard.Nodes.Names.{free_id_lem}
use linuxgsm_dashboard.Nodes.Sound.{IsSound}
use linuxgsm_dashboard.Nodes.Runs.{Request, creates, enrolls, removes, run, nodes-IsSound}
use linuxgsm_dashboard.Nodes.Enrolled.{Answers, enroll-Answers, enroll_once}
use linuxgsm_dashboard.Nodes.Removed.{removed_stays_out}

abbrev box : Node
box = record {
  id = codes "box";
  name = codes "Box";
  mode = codes "read-only";
  keys = codes "k1" ∷ [];
  machine_id = [];
  hostname = [];
  paired_at = 5;
  last_seen = 5;
  version = [];
}

abbrev repair : PendingPairing
repair = record {
  node_id = codes "box";
  name = codes "Box";
  mode = codes "read-write";
  repair = true;
  expires = 900;
}

abbrev small : NodeRegistry
small = record {
  nodes = (codes "box", box) ∷ [];
  pairings = (codes "key", repair) ∷ [];
  disk = none;
}

small-IsSound : IsSound small
unfolding lookup eqt
small-IsSound = record {
  keyed = (refl, tt);
  waiting = (refl, tt);
  apart = (tt, tt);
  few = omega arith;
}

abbrev request : EnrollRequest
request = record {
  token = codes "ab-cd";
  csr = some (codes "k2");
  machine_id = [];
  hostname = [];
  version = [];
}

abbrev traffic : List Request
traffic =
    creates (codes "Box") (codes "read-only") [] 10 (some (codes "raw"))
    ∷ enrolls request 20 true true
    ∷ removes (codes "box") false
    ∷ []

nodes-IsSound_example : IsSound (run toy small traffic)
nodes-IsSound_example = nodes-IsSound toy small traffic small-IsSound

enroll-Answers_example :
    Answers (enroll toy small request 20 true true).0 (enroll toy small request 20 true true).1
enroll-Answers_example = enroll-Answers toy small request 20 true true small-IsSound

enroll_once_example :
    (enroll toy (enroll toy small request 20 true false).0 request 30 true true).1
    ≡ err invalid_token
enroll_once_example = enroll_once toy small request request 20 30 true false true true refl

there : lookup (codes "box") small.nodes ≡ some box
unfolding lookup eqt
there = refl

removed_stays_out_example :
    verify_node_cert
      (run toy (remove_node small (codes "box") true).0 (enrolls request 20 true true ∷ []))
      (codes "box")
      (codes "k2")
    ≢ none
removed_stays_out_example =
    removed_stays_out toy small (codes "box") (codes "k2") true (enrolls request 20 true true ∷ [])
      box small-IsSound there (refl, tt)

free_id_lem_example : id_taken small (free_id small (codes "Box")) ≡ false
free_id_lem_example = free_id_lem small (codes "Box")
