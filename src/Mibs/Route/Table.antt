-- ===== src/Mibs/Route/Table.antt =====
-- The default routes as a table of the MIB.
use sonic_snmpagent.Prelude.{
  ℕ, ◌≡◌, refl, ap, ap₂, List, [], ◌∷◌, ◌++◌, Option, none, some, ok, Bool-cases, inl, inr,
}
use sonic_snmpagent.Dict.{Dict, list_eq}
use sonic_snmpagent.Encodings.Value.{bytes}
use sonic_snmpagent.Strings.{Text, codes}
use sonic_snmpagent.Util.Ip.{ip2byte_tuple}
use sonic_snmpagent.Order.{◌≺◌, In, lt_tuple}
use sonic_snmpagent.Mib.Successor.{IsLawful}
use sonic_snmpagent.Mibs.Keys.{appl_db}
use sonic_snmpagent.Mibs.Values.{bytes_data}
use sonic_snmpagent.Mibs.Namespace.{DbConn, get_non_host_dbs}
use sonic_snmpagent.Mibs.Rows.{Rows, no_rows, value_of}
use sonic_snmpagent.Mibs.Rows.Table.{IsTable, no_rows-IsTable, add_row-IsTable, subtree-IsLawful}
use sonic_snmpagent.Mibs.Effect.{Keeps, for_each, and_then-Keeps, with_result-Keeps, for_each-Keeps}
use sonic_snmpagent.Mibs.Rows.Steps.{then_sort_lem}
use sonic_snmpagent.Mibs.Route.{
  RouteUpdater, MultiAsic, zeros, ones, add_loopback_route, add_nexthop, add_nexthops, add_entry,
  add_routes, update_rows, update_data, route_dest, ip_cidr_route_dest, is_ignored, is_back,
}

-- Any value is served.
abbrev Any : List ℕ → Type 0
Any v = Unit

abbrev Table : Rows (List ℕ) → Type 0
Table r = IsTable Any r

module _ (parse_ipv6 : Text → Option (List ℕ)) (multi_asic : MultiAsic) where
  add_loopback_route-Keeps :
      (tos : ℕ) (lo : Text × List ℕ) (r : Rows (List ℕ))
      → Table r
      → Keeps Table (add_loopback_route parse_ipv6 multi_asic tos lo r)
  unfolding add_loopback_route
  add_loopback_route-Keeps tos (loip, ipa) r t =
      with_result-Keeps Table (ip2byte_tuple parse_ipv6 loip) r _
        (λ ip e. add_row-IsTable Any (ip ++ (ones ++ (tos ∷ zeros))) ipa r (full ip) tt t)
    where
      full : (ip : List ℕ) → [] ≺ ip ++ (ones ++ (tos ∷ zeros))
      full [] = unfold lt_tuple in refl
      full (x ∷ ip) = unfold lt_tuple in refl

  add_nexthop-Keeps :
      (tos : ℕ) (namespace : Text) (hop : Text × Text) (r : Rows (List ℕ))
      → Table r
      → Keeps Table (add_nexthop parse_ipv6 multi_asic tos namespace hop r)
  unfolding add_nexthop
  add_nexthop-Keeps tos namespace (nh, ifn) r t =
      elim (Bool-cases (is_ignored parse_ipv6 multi_asic namespace ifn)) [
        | inl e ↦ rw e t
        | inr e ↦ rw e (
            with_result-Keeps Table (ip2byte_tuple parse_ipv6 nh) r _ (λ ip h.
              add_row-IsTable Any (zeros ++ (zeros ++ (tos ∷ ip))) zeros r (unfold lt_tuple in refl)
                tt t))
      ]

  add_nexthops-Keeps :
      (tos : ℕ) (namespace : Text) (nexthops ifnames : Option Text) (r : Rows (List ℕ))
      → Table r
      → Keeps Table (add_nexthops parse_ipv6 multi_asic tos namespace nexthops ifnames r)
  unfolding add_nexthops
  add_nexthops-Keeps tos namespace none ifnames r t = t
  add_nexthops-Keeps tos namespace (some n) none r t = t
  add_nexthops-Keeps tos namespace (some n) (some i) r t =
      for_each-Keeps Table _ _ r (λ hop s u. add_nexthop-Keeps tos namespace hop s u) t

  add_entry-Keeps :
      (tos : ℕ) (namespace : Text) (ent : Option (Dict Text Text)) (r : Rows (List ℕ))
      → Table r
      → Keeps Table (add_entry parse_ipv6 multi_asic tos namespace ent r)
  unfolding add_entry
  add_entry-Keeps tos namespace none r t = t
  add_entry-Keeps tos namespace (some ent) r t = add_nexthops-Keeps tos namespace _ _ r t

  add_routes-Keeps :
      (tos : ℕ) (db_conn : DbConn) (r : Rows (List ℕ))
      → Table r
      → Keeps Table (add_routes parse_ipv6 multi_asic tos db_conn r)
  unfolding add_routes
  add_routes-Keeps tos db_conn r t =
      elim (Bool-cases (is_back parse_ipv6 multi_asic multi_asic.front_ns db_conn.namespace)) [
        | inl e ↦ rw e t
        | inr e ↦ rw e (
            add_entry-Keeps tos db_conn.namespace
              (db_conn.get_all appl_db (codes "ROUTE_TABLE:0.0.0.0/0")) r t)
      ]

  -- After an update that returns, ipCidrRouteDest fulfils the contract of a handler over the
  -- listed routes.
  pub route-IsLawful :
      (u u' : RouteUpdater) (prefix : List ℕ) (prefixlen : ℕ)
      → update_data parse_ipv6 multi_asic u ≡ (ok tt, u')
      → IsLawful (ip_cidr_route_dest u' prefix prefixlen) (λ k. In k u'.rows.sub_ids)
  unfolding update_data update_rows ip_cidr_route_dest
  route-IsLawful u u' prefix prefixlen e =
      let kept =
        and_then-Keeps Table
          (for_each (add_loopback_route parse_ipv6 multi_asic u.tos) u.loips no_rows) _
          (for_each-Keeps Table _ u.loips no_rows (λ lo s t. add_loopback_route-Keeps u.tos lo s t)
            (no_rows-IsTable Any))
          (λ r t.
            for_each-Keeps Table _ (get_non_host_dbs u.db_conn) r
              (λ db s w. add_routes-Keeps u.tos db s w) t) in
      let (t, order) =
        then_sort_lem Any _ u'.rows kept
          (ap₂ (λ raised rows. (raised, rows)) (ap (λ p. p.0) e) (ap (λ p. p.1.rows) e)) in
      subtree-IsLawful _ _ prefix prefixlen u'.rows.sub_ids _ order t.filled (λ k i.
        let (dest, found, _) = t.valued k i in
        (bytes dest, unfold route_dest value_of bytes_data in ap (λ o. bytes_data o) found))
