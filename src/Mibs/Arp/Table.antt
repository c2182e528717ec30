-- ===== src/Mibs/Arp/Table.antt =====
-- The ARP table as a table of the MIB.
use sonic_snmpagent.Prelude.{
  ℕ, ◌≡◌, refl, ap, ap₂, List, [], ◌∷◌, length, Option, none, some, Result, ok, Bool-cases, inl,
  inr, if◌then◌else◌, ltb, >>=-eq-ok,
}
use sonic_snmpagent.Dict.{Dict, ◌≟◌, item, list_eq}
use sonic_snmpagent.Encodings.Value.{chars}
use sonic_snmpagent.Strings.{Text, codes}
use sonic_snmpagent.Util.Ip.{ip2byte_tuple}
use sonic_snmpagent.Util.Mac.{mac_decimals}
use sonic_snmpagent.Order.{◌≺◌, In, lt_tuple}
use sonic_snmpagent.Mib.Successor.{IsLawful}
use sonic_snmpagent.Mibs.Keys.{appl_db}
use sonic_snmpagent.Mibs.Namespace.{DbConn, or_empty}
use sonic_snmpagent.Mibs.PortUtil.{PortUtil}
use sonic_snmpagent.Mibs.Values.{chars_data}
use sonic_snmpagent.Mibs.Rows.{Rows, no_rows, value_of, item_at}
use sonic_snmpagent.Mibs.Rows.Table.{IsTable, no_rows-IsTable, add_row-IsTable, subtree-IsLawful}
use sonic_snmpagent.Mibs.Effect.{Keeps, for_each, and_then-Keeps, with_result-Keeps, for_each-Keeps}
use sonic_snmpagent.Mibs.Rows.Steps.{then_sort_lem}
use sonic_snmpagent.Mibs.Arp.{
  ArpUpdater, all_chr, arp_row, update_at, update_arp_info, entry_fields, update_from_entry,
  update_from_arptable, is_docker_bridge, neigh_fields, update_neigh, update_from_key, update_rows,
  update_data, arp_dest, ip_net_to_media_phys_address,
}

-- Any value is served.
abbrev Any : Text → Type 0
Any v = Unit

abbrev Table : Rows Text → Type 0
Table r = IsTable Any r

module _ (parse_ipv6 : Text → Option (List ℕ)) (port_util : PortUtil)
    (arp_table : List (Dict Text Text)) where
  arp_row_filled :
      (if_index : ℕ) (mac ip : Text) (row : List ℕ × Text)
      → arp_row parse_ipv6 port_util arp_table if_index mac ip ≡ ok row
      → [] ≺ row.0
  unfolding arp_row
  arp_row_filled if_index mac ip (key, value) h =
      let (m, p, h1) = >>=-eq-ok (mac_decimals mac) _ h in
      let (x, q, h2) = >>=-eq-ok (all_chr m) _ h1 in
      let (t, r, h3) = >>=-eq-ok (ip2byte_tuple parse_ipv6 ip) _ h2 in filled key value t x h3
    where
      filled :
          (k v : List ℕ) (t x : List ℕ)
          → ◌≡◌ {A = Result (List ℕ × List ℕ)} (ok (if_index ∷ t, x)) (ok (k, v))
          → [] ≺ k
      filled [] v t x e = cc
      filled (y ∷ k) v t x e = unfold lt_tuple in refl

  update_arp_info-Keeps :
      (dev mac ip : Text) (r : Rows Text)
      → Table r
      → Keeps Table (update_arp_info parse_ipv6 port_util arp_table dev mac ip r)
  unfolding update_arp_info
  update_arp_info-Keeps dev mac ip r t = at (port_util.get_index_from_str dev)
    where
      at :
          (index : Option ℕ) → Keeps Table (update_at parse_ipv6 port_util arp_table index mac ip r)
      at none = unfold update_at in t
      at (some if_index) =
          unfold update_at in
          with_result-Keeps Table (arp_row parse_ipv6 port_util arp_table if_index mac ip) r _
            (λ row e. add_row-IsTable Any row.0 row.1 r (arp_row_filled if_index mac ip row e) tt t)

  update_from_entry-Keeps :
      (entry : Dict Text Text) (r : Rows Text)
      → Table r
      → Keeps Table (update_from_entry parse_ipv6 port_util arp_table entry r)
  unfolding update_from_entry
  update_from_entry-Keeps entry r t =
      with_result-Keeps Table (entry_fields parse_ipv6 port_util arp_table entry) r _
        (λ f e. update_arp_info-Keeps f.0 f.1.0 f.1.1 r t)

  update_neigh-Keeps :
      (connectors : ℕ) (key : Text) (info : Dict Text Text) (r : Rows Text)
      → Table r
      → Keeps Table (update_neigh parse_ipv6 port_util arp_table connectors key info r)
  unfolding update_neigh
  update_neigh-Keeps connectors key [] r t = t
  update_neigh-Keeps connectors key (field ∷ info) r t =
      with_result-Keeps Table (item (codes "family") (field ∷ info)) r _ (λ family e.
        elim (Bool-cases (family ≟ codes "IPv4")) [
          | inr other ↦ rw other t
          | inl is ↦ rw is (
              with_result-Keeps Table
                (neigh_fields parse_ipv6 port_util arp_table key (field ∷ info)) r _
                (λ f h.
                  elim (Bool-cases
                    (is_docker_bridge parse_ipv6 port_util arp_table connectors f.0)) [
                      | inl b ↦ rw b t
                      | inr b ↦ rw b (update_arp_info-Keeps f.0 f.1.0 f.1.1 r t)
                    ]))
        ])

  update_from_key-Keeps :
      (db_conn : List DbConn) (key : Text × ℕ) (r : Rows Text)
      → Table r
      → Keeps Table (update_from_key parse_ipv6 port_util arp_table db_conn key r)
  unfolding update_from_key
  update_from_key-Keeps db_conn (key, db_index) r t =
      with_result-Keeps Table (item_at db_conn db_index) r _
        (λ db e. update_neigh-Keeps (length db_conn) key (or_empty (db.get_all appl_db key)) r t)

  from_arptable-Keeps :
      (u : ArpUpdater) (r : Rows Text)
      → Table r
      → Keeps Table (
          if ltb 1 (length u.db_conn)
          then update_from_arptable parse_ipv6 port_util arp_table r
          else (ok tt, r))
  unfolding update_from_arptable
  from_arptable-Keeps u r t = elim (Bool-cases (ltb 1 (length u.db_conn))) [
    | inl e ↦
        rw e (for_each-Keeps Table _ arp_table r (λ entry s w. update_from_entry-Keeps entry s w) t)
    | inr e ↦ rw e t
  ]

  -- After an update that returns, ipNetToMediaPhysAddress fulfils the contract of a handler over
  -- the listed neighbours.
  pub arp-IsLawful :
      (u u' : ArpUpdater) (prefix : List ℕ) (prefixlen : ℕ)
      → update_data parse_ipv6 port_util arp_table u ≡ (ok tt, u')
      → IsLawful (ip_net_to_media_phys_address u' prefix prefixlen) (λ k. In k u'.rows.sub_ids)
  unfolding update_data update_rows ip_net_to_media_phys_address
  arp-IsLawful u u' prefix prefixlen e =
      let kept =
        and_then-Keeps Table
          (for_each (update_from_key parse_ipv6 port_util arp_table u.db_conn) u.neigh_key_list
            no_rows)
          _
          (for_each-Keeps Table _ u.neigh_key_list no_rows
            (λ key s t. update_from_key-Keeps u.db_conn key s t) (no_rows-IsTable Any))
          (λ r t. from_arptable-Keeps u r t) in
      let (t, order) =
        then_sort_lem Any _ u'.rows kept
          (ap₂ (λ raised rows. (raised, rows)) (ap (λ p. p.0) e) (ap (λ p. p.1.rows) e)) in
      subtree-IsLawful _ _ prefix prefixlen u'.rows.sub_ids _ order t.filled (λ k i.
        let (machex, found, _) = t.valued k i in
        (chars machex, unfold arp_dest value_of chars_data in ap (λ o. chars_data o) found))
