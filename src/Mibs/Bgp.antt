-- ===== src/Mibs/Bgp.antt =====
-- src/sonic_ax_impl/mibs/vendor/cisco/bgp4.py: BgpSessionUpdater.
pub mod Table
use sonic_snmpagent.Prelude.{
  ℕ, List, [], ◌∷◌, ◌++◌, Option, none, some, Result, ok, ◌>>=◌, if◌then◌else◌,
}
use sonic_snmpagent.Constants.{integer}
use sonic_snmpagent.Util.Ip
use sonic_snmpagent.Util.Ip.{IpAddress, ipv4, ipv6, ip2byte_tuple}
use sonic_snmpagent.Util.Text.{is_group}
use sonic_snmpagent.Dict.{Dict, find, item, list_eq}
use sonic_snmpagent.Strings.{Text, codes, split_at, vbar}
use sonic_snmpagent.Mib.Entry.{MibEntry, subtree}
use sonic_snmpagent.Mibs.Effect.{Effect, with_result, for_each}
use sonic_snmpagent.Mibs.Keys.{state_db}
use sonic_snmpagent.Mibs.Namespace.{DbConn, or_empty, dbs_keys_namespace}
use sonic_snmpagent.Mibs.Rows.{Rows, no_rows, add_row, value_of, next_sub_id, item_at}
use sonic_snmpagent.Mibs.Rows.Steps.{Step, then_sort}
use sonic_snmpagent.Mibs.Values.{int_data}

unfoldable pub state_code : Dict Text ℕ
state_code =
    (codes "Idle", 1)
    ∷ (codes "Idle (Admin)", 1)
    ∷ (codes "Connect", 2)
    ∷ (codes "Active", 3)
    ∷ (codes "OpenSent", 4)
    ∷ (codes "OpenConfirm", 5)
    ∷ (codes "Established", 6)
    ∷ []

-- `rows` holds `session_status_map` and `session_status_list`.
pub record BgpSessionUpdater : Type 0 where
  pub db_conn : List DbConn
  pub neigh_state_map : Dict Text ℕ
  pub rows : Rows ℕ

unfoldable pub init : List DbConn → BgpSessionUpdater
init dbs = record { db_conn = dbs; neigh_state_map = []; rows = no_rows }

unfoldable pub reinit_data : BgpSessionUpdater → BgpSessionUpdater
reinit_data u = record u {
  neigh_state_map = dbs_keys_namespace u.db_conn state_db (codes "NEIGH_STATE_TABLE|*");
}

unfoldable pub oid_head : IpAddress → List ℕ
oid_head (ipv4 bs) = 1 ∷ 4 ∷ []
oid_head (ipv6 bs) = 2 ∷ 16 ∷ []

-- A state of digits is an established session; another that is no name of a state is skipped.
unfoldable pub status_of : Text → Option ℕ
unfolding state_code
status_of state = if is_group state then some 6 else find state state_code

unfoldable pub add_status : List ℕ → Option ℕ → Rows ℕ → Step ℕ
add_status oid none r = (ok tt, r)
add_status oid (some status) r = (ok tt, add_row oid status r)

module _ (parse_ipv6 : Text → Option (List ℕ)) where
  -- The state of a neighbour, and its sub-identifier.
  unfoldable pub session_of : Text → Dict Text Text → Result (Text × List ℕ)
  unfolding oid_head
  session_of neigh_str neigh_info = do
    state ← item (codes "state") neigh_info
    ip ← Ip.ip_address parse_ipv6 neigh_str
    oid_ip ← ip2byte_tuple parse_ipv6 neigh_str
    ok (state, oid_head ip ++ oid_ip)

  unfoldable pub add_session : Text → Dict Text Text → Rows ℕ → Step ℕ
  unfolding session_of status_of add_status
  add_session neigh_str [] r = (ok tt, r)
  add_session neigh_str (field ∷ neigh_info) r =
      with_result (session_of neigh_str (field ∷ neigh_info)) r
        (λ session. add_status session.1 (status_of session.0) r)

  unfoldable pub update_neigh : List DbConn → Text × ℕ → Rows ℕ → Step ℕ
  unfolding add_session
  update_neigh db_conn (neigh_key, db_index) r =
      with_result (item_at (split_at vbar neigh_key) 1) r (λ neigh_str.
        with_result (item_at db_conn db_index) r
          (λ db. add_session neigh_str (or_empty (db.get_all state_db neigh_key)) r))

  unfoldable pub update_rows : BgpSessionUpdater → Step ℕ
  unfolding update_neigh
  update_rows u = then_sort (for_each (update_neigh u.db_conn) u.neigh_state_map no_rows)

  unfoldable pub update_data : BgpSessionUpdater → Effect BgpSessionUpdater
  unfolding update_rows
  update_data u = let (raised, rows) = update_rows u in (raised, record u { rows = rows })

unfoldable pub sessionstatus : BgpSessionUpdater → List ℕ → Option ℕ
sessionstatus u sub_id = value_of u.rows sub_id

unfoldable pub cbgp_peer2_state : BgpSessionUpdater → List ℕ → ℕ → MibEntry
cbgp_peer2_state u prefix prefixlen = record {
  value_type = integer;
  subtree = 1 ∷ 2 ∷ 5 ∷ 1 ∷ 3 ∷ [];
  prefix = prefix;
  prefixlen = prefixlen;
  handler = subtree (next_sub_id u.rows.sub_ids) (λ sub_id. int_data (sessionstatus u sub_id));
}
