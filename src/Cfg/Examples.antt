-- ===== src/Cfg/Examples.antt =====
-- One key is saved into a file that sets it twice, and another key besides.
use linuxgsm_dashboard.Base.{
  sym, ◌≡◌, ◌∷◌, [], ◌++◌, refl, Text, codes, true, false, not, ◌||◌, none, some, arith, eqt,
  eqt_iff, text_mem, Bool-cases, inl, inr,
}
use linuxgsm_dashboard.Base.Tables.{Table, lookup}
use linuxgsm_dashboard.Ids.{is_safe_cfg_value}
use linuxgsm_dashboard.Cfg.{cfg_values}
use linuxgsm_dashboard.Cfg.Updates.{Writable}
use linuxgsm_dashboard.Cfg.RoundTrip.{saved, cfg_round_trip, cfg_keeps_others}

abbrev port : Text
port = codes "port"

abbrev values : Table Text
values = (port, codes "2 # 3") ∷ []

abbrev content : Text
content = codes "port='1' # old" ++ (10 ∷ (codes "ip=\"1\"" ++ (10 ∷ codes "port=5")))

port-safe : is_safe_cfg_value (codes "2 # 3") ≡ true
unfolding is_safe_cfg_value
port-safe = refl

values-Writable : Writable values
unfolding lookup
values-Writable k v h = elim (Bool-cases (eqt port k)) [
  | inl same ↦
      let q : port ≡ k = (eqt_iff port k).0 same in
      let r : codes "2 # 3" ≡ v = ground arith in (rw (sym q) refl, rw (sym r) port-safe)
  | inr other ↦ absurd (ground arith)
]

has_port : lookup port values ≡ some (codes "2 # 3")
unfolding lookup eqt
has_port = refl

asked : text_mem port (port ∷ []) ≡ true
unfolding text_mem eqt
asked = refl

full : not (eqt (codes "2 # 3") []) || false ≡ true
unfolding eqt
full = refl

cfg_round_trip_example :
    lookup port (cfg_values (saved content values (port ∷ []) false)) ≡ some (codes "2 # 3")
cfg_round_trip_example =
    cfg_round_trip content values (port ∷ []) false port (codes "2 # 3") values-Writable has_port
      full asked

no_ip : lookup (codes "ip") values ≡ none
unfolding lookup eqt
no_ip = refl

cfg_keeps_others_example :
    lookup (codes "ip") (cfg_values (saved content values (port ∷ []) false))
    ≡ lookup (codes "ip") (cfg_values content)
cfg_keeps_others_example =
    cfg_keeps_others content values (port ∷ []) false (codes "ip") values-Writable no_ip
