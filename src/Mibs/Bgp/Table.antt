-- ===== src/Mibs/Bgp/Table.antt =====
-- The table of the BGP sessions after an update.
use sonic_snmpagent.Prelude.{
  ℕ, pos, ◌≤◌, ◌≡◌, refl, ap, ap₂, arith, List, [], ◌∷◌, ◌++◌, Option, none, some, ok, ◌>>=◌,
  Bool-cases, inl, inr, >>=-eq-ok,
}
use sonic_snmpagent.Constants.{integer}
use sonic_snmpagent.Encodings.Value.{int}
use sonic_snmpagent.Util.Ip
use sonic_snmpagent.Util.Ip.{IpAddress, ipv4, ipv6, ip2byte_tuple}
use sonic_snmpagent.Util.Text.{is_group}
use sonic_snmpagent.Dict.{Dict, find, item, ◌≟◌, list_eq}
use sonic_snmpagent.Strings.{Text, codes, split_at, vbar}
use sonic_snmpagent.Order.{◌≺◌, In, lt_tuple}
use sonic_snmpagent.Mib.Successor.{IsLawful}
use sonic_snmpagent.Mibs.Effect.{Keeps, with_result-Keeps, for_each-Keeps}
use sonic_snmpagent.Mibs.Keys.{state_db}
use sonic_snmpagent.Mibs.Namespace.{DbConn, or_empty}
use sonic_snmpagent.Mibs.Rows.{Rows, no_rows, value_of, item_at}
use sonic_snmpagent.Mibs.Rows.Steps.{then_sort_lem}
use sonic_snmpagent.Mibs.Rows.Table.{IsTable, no_rows-IsTable, add_row-IsTable, subtree-IsLawful}
use sonic_snmpagent.Mibs.Values.{int_data}
use sonic_snmpagent.Mibs.Bgp.{
  BgpSessionUpdater, state_code, oid_head, status_of, add_status, session_of, add_session,
  update_neigh, update_rows, update_data, sessionstatus, cbgp_peer2_state,
}

-- The numbers of the states of a session.
abbrev pub IsStatus : ℕ → Type 0
IsStatus n = (1 ≤ n) × (n ≤ 6)

-- What is found in a dict fulfils what all its values fulfil.
module _ (P : ℕ → Type 0) where
  abbrev AllValues : Dict Text ℕ → Type 0
  AllValues [] = Unit
  AllValues (j ∷ d) = P j.1 × AllValues d

  find_value : (k : Text) (d : Dict Text ℕ) (v : ℕ) → AllValues d → find k d ≡ some v → P v
  find_value k [] v a h = absurd cc
  find_value k ((j, w) ∷ d) v (p, a) h = elim (Bool-cases (k ≟ j)) [
    | inl e ↦ let same : w ≡ v = cc in rw (← same) p
    | inr e ↦ find_value k d v a (rw e at h)
  ]

status_of-IsStatus : (state : Text) (n : ℕ) → status_of state ≡ some n → IsStatus n
unfolding status_of
status_of-IsStatus state n h = elim (Bool-cases (is_group state)) [
  | inl e ↦ let six : 6 ≡ n = cc in rw (← six) (omega arith, omega arith)
  | inr e ↦ find_value IsStatus state state_code n codes_bounded (rw e at h)
]
  where
    codes_bounded : AllValues IsStatus state_code
    codes_bounded =
        unfold state_code in
        ((
          (omega arith, omega arith),
          (
            (omega arith, omega arith),
            (
              (omega arith, omega arith),
              (
                (omega arith, omega arith),
                (
                  (omega arith, omega arith),
                  ((omega arith, omega arith), ((omega arith, omega arith), tt)),
                ),
              ),
            ),
          ),
        ))

oid_head_full : (ip : IpAddress) (more : List ℕ) → [] ≺ oid_head ip ++ more
unfolding oid_head lt_tuple
oid_head_full (ipv4 bs) more = refl
oid_head_full (ipv6 bs) more = refl

abbrev IsFilled : Rows ℕ → Type 0
IsFilled r = IsTable IsStatus r

add_status-Keeps :
    (oid : List ℕ) (status : Option ℕ) (r : Rows ℕ)
    → [] ≺ oid
    → ((n : ℕ) → status ≡ some n → IsStatus n)
    → IsFilled r
    → Keeps IsFilled (add_status oid status r)
unfolding add_status
add_status-Keeps oid none r f h t = t
add_status-Keeps oid (some n) r f h t = add_row-IsTable IsStatus oid n r f (h n refl) t

module _ (parse_ipv6 : Text → Option (List ℕ)) where
  session_of_full :
      (neigh_str : Text) (neigh_info : Dict Text Text) (state : Text) (oid : List ℕ)
      → session_of parse_ipv6 neigh_str neigh_info ≡ ok (state, oid)
      → [] ≺ oid
  unfolding session_of
  session_of_full neigh_str neigh_info state oid h =
      let (s, e1, h1) =
        >>=-eq-ok (item (codes "state") neigh_info)
          (λ found. Ip.ip_address parse_ipv6 neigh_str >>= λ ip.
            ip2byte_tuple parse_ipv6 neigh_str >>= λ oid_ip. ok (found, oid_head ip ++ oid_ip))
          h in
      let (ip, e2, h2) =
        >>=-eq-ok (Ip.ip_address parse_ipv6 neigh_str)
          (λ ip. ip2byte_tuple parse_ipv6 neigh_str >>= λ oid_ip. ok (s, oid_head ip ++ oid_ip))
          h1 in
      let (oid_ip, e3, h3) =
        >>=-eq-ok (ip2byte_tuple parse_ipv6 neigh_str) (λ oid_ip. ok (s, oid_head ip ++ oid_ip))
          h2 in
      let same : oid_head ip ++ oid_ip ≡ oid = cc in rw (← same) (oid_head_full ip oid_ip)

  add_session-Keeps :
      (neigh_str : Text) (neigh_info : Dict Text Text) (r : Rows ℕ)
      → IsFilled r
      → Keeps IsFilled (add_session parse_ipv6 neigh_str neigh_info r)
  unfolding add_session
  add_session-Keeps neigh_str [] r t = t
  add_session-Keeps neigh_str (field ∷ neigh_info) r t =
      with_result-Keeps IsFilled (session_of parse_ipv6 neigh_str (field ∷ neigh_info)) r _
        (λ session e.
          add_status-Keeps session.1 (status_of session.0) r
            (session_of_full neigh_str (field ∷ neigh_info) session.0 session.1 e)
            (status_of-IsStatus session.0) t)

  update_neigh-Keeps :
      (dbs : List DbConn) (neigh : Text × ℕ) (r : Rows ℕ)
      → IsFilled r
      → Keeps IsFilled (update_neigh parse_ipv6 dbs neigh r)
  unfolding update_neigh
  update_neigh-Keeps dbs (neigh_key, db_index) r t =
      with_result-Keeps IsFilled (item_at (split_at vbar neigh_key) 1) r _ (λ neigh_str e.
        with_result-Keeps IsFilled (item_at dbs db_index) r _
          (λ db h. add_session-Keeps neigh_str (or_empty (db.get_all state_db neigh_key)) r t))

  -- After an update that returns, cbgpPeer2State fulfils the contract of a handler over the listed
  -- sessions, and the state of each is a number from 1 to 6.
  pub peer_state-IsLawful :
      (u u' : BgpSessionUpdater) (prefix : List ℕ) (prefixlen : ℕ)
      → update_data parse_ipv6 u ≡ (ok tt, u')
      → IsLawful (cbgp_peer2_state u' prefix prefixlen) (λ k. In k u'.rows.sub_ids)
        × ((k : List ℕ)
            → In k u'.rows.sub_ids
            → (n : ℕ) × (sessionstatus u' k ≡ some n) × IsStatus n)
  unfolding update_data update_rows cbgp_peer2_state sessionstatus value_of
  peer_state-IsLawful u u' prefix prefixlen e =
      let (t, order) =
        then_sort_lem IsStatus _ u'.rows
          (for_each-Keeps IsFilled _ u.neigh_state_map no_rows
            (λ neigh s w. update_neigh-Keeps u.db_conn neigh s w) (no_rows-IsTable IsStatus))
          (ap₂ (λ raised rows. (raised, rows)) (ap (λ p. p.0) e) (ap (λ p. p.1.rows) e)) in
      (
        subtree-IsLawful integer _ prefix prefixlen u'.rows.sub_ids _ order t.filled (λ k i.
            let (n, found, fine) = t.valued k i in
            (int (pos n), unfold int_data in ap (λ o. int_data o) found)),
        t.valued,
      )
