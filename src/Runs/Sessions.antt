-- ===== src/Runs/Sessions.antt =====
-- A run of the BGP sessions over a small database.
use sonic_snmpagent.Prelude.{ℕ, ◌≡◌, refl, List, [], ◌∷◌, none, some, ok}
use sonic_snmpagent.Dict.{list_eq}
use sonic_snmpagent.Strings.{codes, split_at}
use sonic_snmpagent.Order.{In, sorted}
use sonic_snmpagent.Mibs.Effect.{for_each, with_result}
use sonic_snmpagent.Mibs.Rows.{no_rows, add_row, sort_rows, item_at}
use sonic_snmpagent.Mibs.Rows.Steps.{then_sort}
use sonic_snmpagent.Util.Ip.{ip_address, ip2byte_tuple}
use sonic_snmpagent.Mib.Successor.{IsLawful}
use sonic_snmpagent.Mibs.Namespace.{DbConn, or_empty}
use sonic_snmpagent.Mibs.Bgp
use sonic_snmpagent.Mibs.Bgp.{BgpSessionUpdater, sessionstatus, cbgp_peer2_state}
use sonic_snmpagent.Mibs.Bgp.Table.{peer_state-IsLawful, IsStatus}
use sonic_snmpagent.Runs.Mibs.{no_ipv6}

-- One neighbour, whose session is active.
abbrev bgp_db : DbConn
bgp_db = record {
  namespace = [];
  keys = λ db pattern. none;
  get_all = λ db key. some ((codes "state", codes "Active") ∷ []);
}

abbrev bgp : BgpSessionUpdater
bgp = record {
  db_conn = bgp_db ∷ [];
  neigh_state_map = (codes "NEIGH_STATE_TABLE|10.0.0.1", 0) ∷ [];
  rows = record { value_map = []; sub_ids = [] };
}

abbrev bgp' : BgpSessionUpdater
bgp' = record bgp {
  rows = record {
    value_map = (1 ∷ 4 ∷ 10 ∷ 0 ∷ 0 ∷ 1 ∷ [], 3) ∷ [];
    sub_ids = (1 ∷ 4 ∷ 10 ∷ 0 ∷ 0 ∷ 1 ∷ []) ∷ [];
  };
}

bgp_run : Bgp.update_data no_ipv6 bgp ≡ (ok tt, bgp')
unfolding Bgp.update_data then_sort for_each with_result item_at split_at or_empty ip_address
    ip2byte_tuple sort_rows add_row sorted no_rows
bgp_run = refl

peer_state-IsLawful_example :
    IsLawful (cbgp_peer2_state bgp' (1 ∷ 3 ∷ []) 2) (λ k. In k bgp'.rows.sub_ids)
    × ((k : List ℕ)
        → In k bgp'.rows.sub_ids
        → (n : ℕ) × (sessionstatus bgp' k ≡ some n) × IsStatus n)
peer_state-IsLawful_example = peer_state-IsLawful no_ipv6 bgp bgp' (1 ∷ 3 ∷ []) 2 bgp_run
