-- ===== src/Mibs/NextHop.antt =====
-- src/sonic_ax_impl/mibs/ietf/rfc1213.py: the next hop of the default route.
use sonic_snmpagent.Prelude.{
  ℕ, ◌≡◌, refl, ap, ap₂, List, [], ◌∷◌, length, drop, Option, none, some, Result, ok, ◌>>=◌,
  Bool-cases, inl, inr, if◌then◌else◌,
}
use sonic_snmpagent.Constants.{ip_address}
use sonic_snmpagent.Encodings.Value.{bytes}
use sonic_snmpagent.Util.Ip
use sonic_snmpagent.Util.Ip.{packed}
use sonic_snmpagent.Dict.{Dict, ◌≟◌, find, list_eq}
use sonic_snmpagent.Strings.{Text, codes, split_at, comma}
use sonic_snmpagent.Order.{In, lt_tuple}
use sonic_snmpagent.Mib.Entry.{MibEntry, subtree}
use sonic_snmpagent.Mib.Successor.{IsLawful}
use sonic_snmpagent.Mibs.Keys.{appl_db}
use sonic_snmpagent.Mibs.Namespace.{DbConn, dbs_keys, dbs_get_all}
use sonic_snmpagent.Mibs.Values.{bytes_data}
use sonic_snmpagent.Mibs.Rows.{Rows, no_rows, value_of, next_sub_id}
use sonic_snmpagent.Mibs.Rows.Table.{IsTable, no_rows-IsTable, add_row-IsTable, subtree-IsLawful}
use sonic_snmpagent.Mibs.Effect.{Keeps, for_each, for_each-Keeps}
use sonic_snmpagent.Mibs.Rows.Steps.{Step, append_then, then_sort, then_sort_lem}

-- `rows` holds `nexthop_map` and `route_list`.
pub record NextHopUpdater : Type 0 where
  pub db_conn : List DbConn
  pub rows : Rows (List ℕ)

abbrev zeros : List ℕ
zeros = 0 ∷ 0 ∷ 0 ∷ 0 ∷ []

module _ (parse_ipv6 : Text → Option (List ℕ)) where
  -- Only the first next hop is taken; its row is listed before its address is read.
  unfoldable pub add_first : List Text → Rows (List ℕ) → Step (List ℕ)
  add_first [] r = (ok tt, r)
  add_first (nh ∷ more) r =
      append_then zeros (do ipa ← Ip.ip_address parse_ipv6 nh; ok (packed ipa)) r

  unfoldable pub add_nexthops : Option Text → Rows (List ℕ) → Step (List ℕ)
  unfolding add_first
  add_nexthops none r = (ok tt, r)
  add_nexthops (some nexthops) r = add_first (split_at comma nexthops) r

  unfoldable pub add_fields : Dict Text Text → Rows (List ℕ) → Step (List ℕ)
  unfolding add_nexthops
  add_fields [] r = (ok tt, r)
  add_fields (field ∷ ent) r = add_nexthops (find (codes "nexthop") (field ∷ ent)) r

  unfoldable pub add_route : List DbConn → Text → Rows (List ℕ) → Step (List ℕ)
  unfolding add_fields
  add_route db_conn route_entry r =
      if drop (length (codes "ROUTE_TABLE:")) route_entry ≟ codes "0.0.0.0/0"
      then add_fields (dbs_get_all db_conn appl_db route_entry) r
      else (ok tt, r)

  unfoldable pub update_rows : NextHopUpdater → Step (List ℕ)
  unfolding add_route
  update_rows u =
      then_sort (
        for_each (add_route u.db_conn) (dbs_keys u.db_conn appl_db (codes "ROUTE_TABLE:*")) no_rows)

  unfoldable pub update_data : NextHopUpdater → Result (Unit {0}) × NextHopUpdater
  unfolding update_rows
  update_data u = let (raised, rows) = update_rows u in (raised, record u { rows = rows })

unfoldable pub nexthop : NextHopUpdater → List ℕ → Option (List ℕ)
nexthop u sub_id = value_of u.rows sub_id

unfoldable pub ip_route_next_hop : NextHopUpdater → List ℕ → ℕ → MibEntry
ip_route_next_hop u prefix prefixlen = record {
  value_type = ip_address;
  subtree = 21 ∷ 1 ∷ 7 ∷ [];
  prefix = prefix;
  prefixlen = prefixlen;
  handler = subtree (next_sub_id u.rows.sub_ids) (λ sub_id. bytes_data (nexthop u sub_id));
}

abbrev Any : List ℕ → Type 0
Any v = Unit

abbrev Table : Rows (List ℕ) → Type 0
Table r = IsTable Any r

append_then-Keeps :
    (value : Result (List ℕ)) (r : Rows (List ℕ))
    → Table r
    → Keeps Table (append_then zeros value r)
unfolding append_then
append_then-Keeps (Result.err e) r t = tt
append_then-Keeps (ok v) r t = add_row-IsTable Any zeros v r (unfold lt_tuple in refl) tt t

module _ (parse_ipv6 : Text → Option (List ℕ)) where
  add_first-Keeps :
      (nhs : List Text) (r : Rows (List ℕ)) → Table r → Keeps Table (add_first parse_ipv6 nhs r)
  unfolding add_first
  add_first-Keeps [] r t = t
  add_first-Keeps (nh ∷ more) r t =
      append_then-Keeps (Ip.ip_address parse_ipv6 nh >>= λ ipa. ok (packed ipa)) r t

  add_nexthops-Keeps :
      (nhs : Option Text) (r : Rows (List ℕ))
      → Table r
      → Keeps Table (add_nexthops parse_ipv6 nhs r)
  unfolding add_nexthops
  add_nexthops-Keeps none r t = t
  add_nexthops-Keeps (some nhs) r t = add_first-Keeps (split_at comma nhs) r t

  add_fields-Keeps :
      (ent : Dict Text Text) (r : Rows (List ℕ))
      → Table r
      → Keeps Table (add_fields parse_ipv6 ent r)
  unfolding add_fields
  add_fields-Keeps [] r t = t
  add_fields-Keeps (field ∷ ent) r t = add_nexthops-Keeps (find (codes "nexthop") (field ∷ ent)) r t

  add_route-Keeps :
      (dbs : List DbConn) (entry : Text) (r : Rows (List ℕ))
      → Table r
      → Keeps Table (add_route parse_ipv6 dbs entry r)
  unfolding add_route
  add_route-Keeps dbs entry r t =
      elim (Bool-cases (drop (length (codes "ROUTE_TABLE:")) entry ≟ codes "0.0.0.0/0")) [
        | inl e ↦ rw e (add_fields-Keeps (dbs_get_all dbs appl_db entry) r t)
        | inr e ↦ rw e t
      ]

  -- After an update that returns, the entry is lawful over the listed rows.
  pub nexthop-IsLawful :
      (u u' : NextHopUpdater) (prefix : List ℕ) (prefixlen : ℕ)
      → update_data parse_ipv6 u ≡ (ok tt, u')
      → IsLawful (ip_route_next_hop u' prefix prefixlen) (λ k. In k u'.rows.sub_ids)
  unfolding update_data update_rows ip_route_next_hop
  nexthop-IsLawful u u' prefix prefixlen e =
      let (t, order) =
        then_sort_lem Any _ u'.rows
          (for_each-Keeps Table _ _ no_rows (λ entry s t. add_route-Keeps u.db_conn entry s t)
            (no_rows-IsTable Any))
          (ap₂ (λ raised rows. (raised, rows)) (ap (λ p. p.0) e) (ap (λ p. p.1.rows) e)) in
      subtree-IsLawful _ _ prefix prefixlen u'.rows.sub_ids _ order t.filled (λ k i.
        let (dest, found, _) = t.valued k i in
        (bytes dest, unfold nexthop value_of bytes_data in ap (λ o. bytes_data o) found))
