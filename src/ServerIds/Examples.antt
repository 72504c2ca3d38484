-- ===== src/ServerIds/Examples.antt =====
-- One new server next to a stored ID that it must not take.
use linuxgsm_dashboard.Base.{
  zero, suc, refl, Text, codes, [], ◌∷◌, true, arith, eqt, contains, has_prefix, itoa, itoa_from,
}
use linuxgsm_dashboard.Base.Tables.{Table}
use linuxgsm_dashboard.Base.Fresh.{candidate}
use linuxgsm_dashboard.Ids.{is_valid_local_server_id, matches}
use linuxgsm_dashboard.ServerIds.{Instance, assign_stable_ids}
use linuxgsm_dashboard.ServerIds.Distinct.{Tryable, Distinct, ids, assign_stable_ids-Distinct}

abbrev server : Instance
server = record {
  id = codes "vh";
  script = codes "vh";
  user = [];
  key = codes "/srv/vh";
  host = true;
}

abbrev stored : Table Text
stored = (codes "/old/vh", codes "vh") ∷ []

server-Tryable : Tryable 4 server
unfolding is_valid_local_server_id matches contains has_prefix candidate itoa itoa_from eqt
server-Tryable zero h = refl
server-Tryable (suc zero) h = refl
server-Tryable (suc (suc zero)) h = refl
server-Tryable (suc (suc (suc zero))) h = refl
server-Tryable (suc (suc (suc (suc zero)))) h = refl
server-Tryable (suc (suc (suc (suc (suc k))))) h = absurd (omega arith)

assign_stable_ids-Distinct_example : Distinct (ids (assign_stable_ids stored (server ∷ [])).servers)
assign_stable_ids-Distinct_example =
    assign_stable_ids-Distinct stored (server ∷ []) (refl, tt) (server-Tryable, tt)
