-- ===== src/Mibs/Fdb/Table.antt =====
-- The forwarding database as a table of the MIB.
use sonic_snmpagent.Prelude.{
  ℕ, ◌≡◌, ◌⊎◌, inl, inr, refl, List, [], ◌∷◌, Option, none, some, ok, err, Result-cases, >>=-eq-ok,
  pos, ap, drop,
}
use mathlib.Core.Path.{subst, ◌∙◌}
use sonic_snmpagent.Dict.{Dict, find, item, list_eq}
use sonic_snmpagent.Util.Mac.{mac_decimals}
use sonic_snmpagent.Mibs.Keys.{asic_db}
use sonic_snmpagent.Mibs.Namespace.{dbs_get_all}
use sonic_snmpagent.Encodings.Value.{int}
use sonic_snmpagent.Strings.{Text, codes, colon, last_part, to_int}
use sonic_snmpagent.Order.{◌≺◌, In, lt_tuple}
use sonic_snmpagent.Order.Sorting.{IsSorted, sorted-IsSorted}
use sonic_snmpagent.Mib.Successor.{IsLawful}
use sonic_snmpagent.Mibs.PortUtil.{PortUtil}
use sonic_snmpagent.Mibs.Values.{int_data}
use sonic_snmpagent.Mibs.Rows.{value_of, flatten, sort_rows, no_rows}
use sonic_snmpagent.Mibs.Rows.Table.{
  IsTable, no_rows-IsTable, add_row-IsTable, sort_rows-IsTable, subtree-IsLawful,
}
use sonic_snmpagent.Mibs.Fdb.{
  FdbUpdater, Outcome, vlanmac_of, vlanmac_if, cache_vlan, by_bvid, vlanmac_by,
  dbs_get_vlan_id_from_bvid, fdb_vlanmac, with_vlanmac, port_name, with_name, with_port,
  with_bridge_port, with_entry, with_fdb, update_from, update_data, fdb_ifindex, dot1q_tp_fdb_port,
}

abbrev IsIndexed : Option ℕ → Type 0
IsIndexed index = (n : ℕ) × (index ≡ some n)

-- The ports and the LAGs of the maps have an index.
abbrev pub HasIndices : PortUtil → FdbUpdater → Type 0
HasIndices port_util u =
    (id name : Text)
    → (find id u.if_id_map ≡ some name) ⊎ (find id u.sai_lag_map ≡ some name)
    → IsIndexed (port_util.get_index_from_str name)

vlanmac_of_filled :
    (fdb : Dict Text Text) (vlan_id : Text) (vlanmac : List ℕ)
    → vlanmac_of fdb vlan_id ≡ ok vlanmac
    → [] ≺ vlanmac
unfolding vlanmac_of lt_tuple
vlanmac_of_filled fdb vlan_id vlanmac h =
    let (vlan, p, h1) = >>=-eq-ok (to_int vlan_id) _ h in
    let (mac, q, h2) = >>=-eq-ok (item (codes "mac") fdb) _ h1 in
    let (decimals, r, h3) = >>=-eq-ok (mac_decimals mac) _ h2 in filled vlan decimals vlanmac h3
  where
    filled : (x : ℕ) (xs vm : List ℕ) → ok (x ∷ xs) ≡ ok vm → [] ≺ vm
    filled x xs [] e = cc
    filled x xs (y ∷ vm) e = refl

vlanmac_if_filled :
    (fdb : Dict Text Text) (vlan_id : Option Text) (vlanmac : List ℕ)
    → vlanmac_if fdb vlan_id ≡ ok (some vlanmac)
    → [] ≺ vlanmac
unfolding vlanmac_if
vlanmac_if_filled fdb none vlanmac h = cc
vlanmac_if_filled fdb (some vlan_id) vlanmac h =
    let (vm, p, q) = >>=-eq-ok (vlanmac_of fdb vlan_id) _ h in
    vlanmac_of_filled fdb vlan_id vlanmac (cc (p, q))

ifindex_value :
    (u : FdbUpdater) (k : List ℕ) (index : Option ℕ) (n : ℕ)
    → find k u.rows.value_map ≡ some index
    → index ≡ some n
    → int_data (fdb_ifindex u k) ≡ ok (some (int (pos n)))
unfolding fdb_ifindex value_of flatten int_data
ifindex_value u k index n found is = ap (λ o. int_data (flatten o)) found ∙ ap (λ o. int_data o) is

module _ (loads : Text → Option (Dict Text Text)) (port_util : PortUtil) where
  -- What every step of the loop keeps.
  abbrev IsFdb : FdbUpdater → Type 0
  IsFdb u = HasIndices port_util u × IsTable IsIndexed u.rows

  -- A key that `fdb_vlanmac` returns is not empty.
  abbrev IsFilled : Outcome (Option (List ℕ)) → Type 0
  IsFilled o = IsFdb o.1 × ((vlanmac : List ℕ) → o.0 ≡ ok (some vlanmac) → [] ≺ vlanmac)

  cache_vlan-IsFdb :
      (bvid : Text) (v : Option Text) (u : FdbUpdater) → IsFdb u → IsFdb (cache_vlan bvid v u)
  unfolding cache_vlan
  cache_vlan-IsFdb bvid none u h = h
  cache_vlan-IsFdb bvid (some v) u h = h

  by_bvid-IsFilled :
      (fdb : Dict Text Text) (u : FdbUpdater) (bvid : Text) (cached : Option Text)
      → IsFdb u
      → IsFilled (by_bvid loads port_util fdb u bvid cached)
  unfolding by_bvid
  by_bvid-IsFilled fdb u bvid (some v) h = (h, vlanmac_if_filled fdb (some v))
  by_bvid-IsFilled fdb u bvid none h =
      let v = dbs_get_vlan_id_from_bvid port_util u.db_conn bvid in
      (cache_vlan-IsFdb bvid v u h, vlanmac_if_filled fdb v)

  vlanmac_by-IsFilled :
      (fdb : Dict Text Text) (u : FdbUpdater) (vlan bvid : Option Text)
      → IsFdb u
      → IsFilled (vlanmac_by loads port_util fdb u vlan bvid)
  unfolding vlanmac_by
  vlanmac_by-IsFilled fdb u (some v) bvid h = (h, vlanmac_if_filled fdb (some v))
  vlanmac_by-IsFilled fdb u none (some bvid) h =
      by_bvid-IsFilled fdb u bvid (find bvid u.bvid_vlan_map) h
  vlanmac_by-IsFilled fdb u none none h = (h, λ vlanmac e. absurd cc)

  with_vlanmac-IsFdb :
      (index : Option ℕ) (o : Outcome (Option (List ℕ)))
      → IsIndexed index
      → IsFilled o
      → IsFdb (with_vlanmac loads port_util index o).1
  unfolding with_vlanmac
  with_vlanmac-IsFdb index (err e, u) i (h, f) = h
  with_vlanmac-IsFdb index (ok none, u) i (h, f) = h
  with_vlanmac-IsFdb index (ok (some vlanmac), u) i ((n, t), f) =
      (n, add_row-IsTable IsIndexed vlanmac index u.rows (f vlanmac refl) i t)

  with_name-IsFdb :
      (u : FdbUpdater) (fdb : Dict Text Text) (name : Option Text)
      → ((n : Text) → name ≡ some n → IsIndexed (port_util.get_index_from_str n))
      → IsFdb u
      → IsFdb (with_name loads port_util u fdb name).1
  unfolding with_name fdb_vlanmac
  with_name-IsFdb u fdb none i h = h
  with_name-IsFdb u fdb (some name) i h =
      with_vlanmac-IsFdb (port_util.get_index_from_str name)
        (vlanmac_by loads port_util fdb u (find (codes "vlan") fdb) (find (codes "bvid") fdb))
        (i name refl)
        (vlanmac_by-IsFilled fdb u (find (codes "vlan") fdb) (find (codes "bvid") fdb) h)

  port_name_lem :
      (port lag : Option Text) (n : Text)
      → port_name loads port_util port lag ≡ some n
      → (port ≡ some n) ⊎ (lag ≡ some n)
  unfolding port_name
  port_name_lem none lag n e = inr e
  port_name_lem (some p) lag n e = inl e

  with_port-IsFdb :
      (u : FdbUpdater) (fdb : Dict Text Text) (port : Option Text)
      → IsFdb u
      → IsFdb (with_port loads port_util u fdb port).1
  unfolding with_port
  with_port-IsFdb u fdb none h = h
  with_port-IsFdb u fdb (some id) h =
      with_name-IsFdb u fdb
        (port_name loads port_util (find id u.if_id_map) (find id u.sai_lag_map))
        (λ n e. h.0 id n (port_name_lem (find id u.if_id_map) (find id u.sai_lag_map) n e)) h

  with_bridge_port-IsFdb :
      (u : FdbUpdater) (s : Text) (fdb : Dict Text Text) (attr : Option Text)
      → IsFdb u
      → IsFdb (with_bridge_port loads port_util u s fdb attr).1
  unfolding with_bridge_port
  with_bridge_port-IsFdb u s fdb none h = h
  with_bridge_port-IsFdb u s fdb (some attr) h =
      with_port-IsFdb u fdb (find (drop 6 attr) u.if_bpid_map) h

  with_entry-IsFdb :
      (u : FdbUpdater) (s : Text) (fdb ent : Dict Text Text)
      → IsFdb u
      → IsFdb (with_entry loads port_util u s fdb ent).1
  unfolding with_entry
  with_entry-IsFdb u s fdb [] h = h
  with_entry-IsFdb u s fdb (field ∷ ent) h = with_bridge_port-IsFdb u s fdb _ h

  with_fdb-IsFdb :
      (u : FdbUpdater) (s : Text) (fdb : Option (Dict Text Text))
      → IsFdb u
      → IsFdb (with_fdb loads port_util u s fdb).1
  unfolding with_fdb
  with_fdb-IsFdb u s none h = h
  with_fdb-IsFdb u s (some fdb) h = with_entry-IsFdb u s fdb (dbs_get_all u.db_conn asic_db s) h

  abbrev IsUpdated : FdbUpdater → Type 0
  IsUpdated u = IsTable IsIndexed u.rows × IsSorted u.rows.sub_ids

  update_from-IsUpdated :
      (u u' : FdbUpdater) (fdb_strings : List Text)
      → IsFdb u
      → update_from loads port_util u fdb_strings ≡ (ok tt, u')
      → IsUpdated u'
  unfolding update_from sort_rows
  update_from-IsUpdated u u' [] h e =
      subst IsUpdated (ap (λ o. o.1) e)
        (sort_rows-IsTable IsIndexed u.rows h.1, sorted-IsSorted u.rows.sub_ids)
  update_from-IsUpdated u u' (s ∷ fdb_strings) h e =
      let step = with_fdb loads port_util u s (loads (last_part colon 2 s)) in
      elim (Result-cases step.0) [
        | inl (done, r) ↦
            update_from-IsUpdated step.1 u' fdb_strings
              (with_fdb-IsFdb u s (loads (last_part colon 2 s)) h) (rw (update_from, r) at e)
        | inr (x, r) ↦ absurd (cc (ap (λ o. o.0) (rw (update_from, r) at e)))
      ]

  -- After an update that returns, dot1qTpFdbPort fulfils the contract of a handler over the listed
  -- keys: its search is their successor, an iteration starts at the least of them, and each has a
  -- value. The names of the ports and the LAGs have an index.
  pub fdb-IsLawful :
      (u u' : FdbUpdater) (prefix : List ℕ) (prefixlen : ℕ)
      → HasIndices port_util u
      → update_data loads port_util u ≡ (ok tt, u')
      → IsLawful (dot1q_tp_fdb_port u' prefix prefixlen) (λ k. In k u'.rows.sub_ids)
  unfolding update_data dot1q_tp_fdb_port
  fdb-IsLawful u u' prefix prefixlen named e =
      let (t, order) =
        update_from-IsUpdated (record u { rows = no_rows }) u' _ (named, no_rows-IsTable IsIndexed)
          e in
      subtree-IsLawful _ _ prefix prefixlen u'.rows.sub_ids _ order t.filled (λ k i.
        let (index, found, (n, is)) = t.valued k i in
        (int (pos n), ifindex_value u' k index n found is))
