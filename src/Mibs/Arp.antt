-- ===== src/Mibs/Arp.antt =====
-- src/sonic_ax_impl/mibs/ietf/rfc1213.py: the ARP table.
pub mod Table
use sonic_snmpagent.Prelude.{
  ℕ, zero, suc, List, [], ◌∷◌, length, Option, none, some, Result, ok, err, value_error, ◌>>=◌,
  Bool, true, false, ◌&&◌, ltb, if◌then◌else◌,
}
use sonic_snmpagent.Constants.{octet_string}
use sonic_snmpagent.Util.Ip.{ip2byte_tuple}
use sonic_snmpagent.Util.Mac.{mac_decimals}
use sonic_snmpagent.Dict.{Dict, ◌≟◌, item, list_eq}
use sonic_snmpagent.Strings.{Text, codes}
use sonic_snmpagent.Mib.Entry.{MibEntry, subtree}
use sonic_snmpagent.Mibs.Keys.{appl_db, get_neigh_info}
use sonic_snmpagent.Mibs.Namespace.{DbConn, or_empty, dbs_keys_namespace}
use sonic_snmpagent.Mibs.PortUtil.{PortUtil}
use sonic_snmpagent.Mibs.Values.{chars_data}
use sonic_snmpagent.Mibs.Rows.{Rows, no_rows, add_row, value_of, next_sub_id, item_at}
use sonic_snmpagent.Mibs.Effect.{and_then, with_result, for_each}
use sonic_snmpagent.Mibs.Rows.Steps.{Step, then_sort}

-- `rows` holds `arp_dest_map` and `arp_dest_list`. `neigh_key_list` gives the index of the database
-- of each key.
pub record ArpUpdater : Type 0 where
  pub db_conn : List DbConn
  pub neigh_key_list : Dict Text ℕ
  pub rows : Rows Text

unfoldable pub init : List DbConn → ArpUpdater
init db_conn = record { db_conn = db_conn; neigh_key_list = []; rows = no_rows }

unfoldable pub reinit_data : ArpUpdater → ArpUpdater
reinit_data u = record u {
  neigh_key_list = dbs_keys_namespace u.db_conn appl_db (codes "NEIGH_TABLE:*");
}

-- `''.join(chr(b) for b in mactuple)`; `chr` refuses what is no code point.
unfoldable pub all_chr : List ℕ → Result Text
all_chr [] = ok []
all_chr (b ∷ bs) = do text ← all_chr bs; if ltb 1114111 b then err value_error else ok (b ∷ text)

-- `parse_ipv6` is Python's parser of IPv6 addresses, `arp_table` what python_arptable reads from the
-- kernel.
module _ (parse_ipv6 : Text → Option (List ℕ)) (port_util : PortUtil)
    (arp_table : List (Dict Text Text)) where
  -- The key and the value of a neighbour.
  unfoldable pub arp_row : ℕ → Text → Text → Result (List ℕ × Text)
  unfolding all_chr
  arp_row if_index mac ip = do
    mactuple ← mac_decimals mac
    machex ← all_chr mactuple
    iptuple ← ip2byte_tuple parse_ipv6 ip
    ok (if_index ∷ iptuple, machex)

  unfoldable pub update_at : Option ℕ → Text → Text → Rows Text → Step Text
  unfolding arp_row
  update_at none mac ip r = (ok tt, r)
  update_at (some if_index) mac ip r =
      with_result (arp_row if_index mac ip) r (λ row. (ok tt, add_row row.0 row.1 r))

  unfoldable pub update_arp_info : Text → Text → Text → Rows Text → Step Text
  unfolding update_at
  update_arp_info dev mac ip r = update_at (port_util.get_index_from_str dev) mac ip r

  unfoldable pub entry_fields : Dict Text Text → Result (Text × (Text × Text))
  entry_fields entry = do
    dev ← item (codes "Device") entry
    mac ← item (codes "HW address") entry
    ip ← item (codes "IP address") entry
    ok (dev, (mac, ip))

  unfoldable pub update_from_entry : Dict Text Text → Rows Text → Step Text
  unfolding entry_fields update_arp_info
  update_from_entry entry r =
      with_result (entry_fields entry) r (λ f. update_arp_info f.0 f.1.0 f.1.1 r)

  unfoldable pub update_from_arptable : Rows Text → Step Text
  unfolding update_from_entry
  update_from_arptable r = for_each update_from_entry arp_table r

  unfoldable pub is_docker_bridge : ℕ → Text → Bool
  is_docker_bridge connectors dev = ltb 1 connectors && dev ≟ codes "eth0"

  -- The device, the address and the MAC of an IPv4 neighbour.
  unfoldable pub neigh_fields : Text → Dict Text Text → Result (Text × (Text × Text))
  neigh_fields neigh_key neigh_info = do
    (dev, ip) ← get_neigh_info neigh_key
    mac ← item (codes "neigh") neigh_info
    ok (dev, (mac, ip))

  unfoldable pub update_neigh : ℕ → Text → Dict Text Text → Rows Text → Step Text
  unfolding neigh_fields is_docker_bridge update_arp_info
  update_neigh connectors neigh_key [] r = (ok tt, r)
  update_neigh connectors neigh_key (field ∷ neigh_info) r =
      with_result (item (codes "family") (field ∷ neigh_info)) r (λ ip_family.
        if ip_family ≟ codes "IPv4"
        then with_result (neigh_fields neigh_key (field ∷ neigh_info)) r (λ f.
          if is_docker_bridge connectors f.0 then (ok tt, r) else update_arp_info f.0 f.1.0 f.1.1 r)
        else (ok tt, r))

  unfoldable pub update_from_key : List DbConn → Text × ℕ → Rows Text → Step Text
  unfolding update_neigh
  update_from_key db_conn (neigh_key, db_index) r =
      with_result (item_at db_conn db_index) r
        (λ db. update_neigh (length db_conn) neigh_key (or_empty (db.get_all appl_db neigh_key)) r)

  unfoldable pub update_rows : ArpUpdater → Step Text
  unfolding update_from_key update_from_arptable
  update_rows u = then_sort (
      and_then (for_each (update_from_key u.db_conn) u.neigh_key_list no_rows)
        (λ r. if ltb 1 (length u.db_conn) then update_from_arptable r else (ok tt, r)))

  unfoldable pub update_data : ArpUpdater → Result (Unit {0}) × ArpUpdater
  unfolding update_rows
  update_data u = let (raised, rows) = update_rows u in (raised, record u { rows = rows })

unfoldable pub arp_dest : ArpUpdater → List ℕ → Option Text
arp_dest u sub_id = value_of u.rows sub_id

unfoldable pub ip_net_to_media_phys_address : ArpUpdater → List ℕ → ℕ → MibEntry
ip_net_to_media_phys_address u prefix prefixlen = record {
  value_type = octet_string;
  subtree = 22 ∷ 1 ∷ 2 ∷ [];
  prefix = prefix;
  prefixlen = prefixlen;
  handler = subtree (next_sub_id u.rows.sub_ids) (λ sub_id. chars_data (arp_dest u sub_id));
}
