-- ===== src/Mibs/Interfaces/Table.antt =====
-- The interfaces as a table of the MIB.
use sonic_snmpagent.Prelude.{
  ℕ, ◌≡◌, inl, inr, refl, List, [], ◌∷◌, ◌++◌, map, some, Result, ok, >>=-eq-ok, pos,
}
use mathlib.Core.Path.{subst}
use sonic_snmpagent.Constants.{integer}
use sonic_snmpagent.Encodings.Value.{int}
use sonic_snmpagent.Dict.{keys}
use sonic_snmpagent.Order.{◌≺◌, In, lt_tuple}
use sonic_snmpagent.Order.Sorting.{IsSorted, sorted-IsSorted}
use sonic_snmpagent.Mib.Entry.{MibEntry, subtree}
use sonic_snmpagent.Mib.Successor.{IsLawful}
use sonic_snmpagent.Mibs.Effect.{Keeps, and_then_last, Keeps-ok, with_result-Keeps}
use sonic_snmpagent.Mibs.Numbers.{sort_nat, single, map-sort_nat}
use sonic_snmpagent.Mibs.PortUtil.{PortUtil}
use sonic_snmpagent.Mibs.Rows.{next_sub_id}
use sonic_snmpagent.Mibs.Rows.Table.{subtree-IsLawful}
use sonic_snmpagent.Mibs.Values.{int_data}
use sonic_snmpagent.Mibs.Interfaces.{
  InterfacesUpdater, numbers, range_of, set_range, update_data, update_if_counters,
  update_rif_counters, aggregate_counters,
}
use sonic_snmpagent.Mibs.Interfaces.Handlers.{get_oper_status}

-- `ifOperStatus` under the given prefix of its class.
unfoldable pub if_oper_status : InterfacesUpdater → List ℕ → ℕ → MibEntry
if_oper_status u prefix prefixlen = record {
  value_type = integer;
  subtree = 2 ∷ 1 ∷ 8 ∷ [];
  prefix = prefix;
  prefixlen = prefixlen;
  handler = subtree (next_sub_id u.if_range) (λ sub_id. int_data (some (get_oper_status u sub_id)));
}

In-map-single : (k : List ℕ) (xs : List ℕ) → In k (map single xs) → (n : ℕ) × (k ≡ single n)
In-map-single k [] i = absurd i
In-map-single k (x ∷ xs) (inl e) = (x, e)
In-map-single k (x ∷ xs) (inr i) = In-map-single k xs i

-- A sorted list of tuples of one number.
abbrev IsRange : InterfacesUpdater → Type 0
IsRange u = IsSorted u.if_range × ((k : List ℕ) → In k u.if_range → [] ≺ k)

range_lem :
    (xs : List ℕ)
    → IsSorted (map single (sort_nat xs))
      × ((k : List ℕ) → In k (map single (sort_nat xs)) → [] ≺ k)
range_lem xs = (
  rw (map-sort_nat xs) (sorted-IsSorted (map single xs)),
  λ k i. filled k (In-map-single k (sort_nat xs) i),
)
  where
    filled : (k : List ℕ) → (n : ℕ) × (k ≡ single n) → [] ≺ k
    filled k (n, e) = unfold lt_tuple in rw e refl

set_range-Keeps :
    (port_util : PortUtil) (u : InterfacesUpdater) → Keeps IsRange (set_range port_util u)
unfolding set_range range_of
set_range-Keeps port_util u = with_result-Keeps IsRange (range_of u) u _ (λ range e.
    let (mgmt, p, q) = >>=-eq-ok (numbers (keys u.mgmt_oid_name_map)) _ e in
    subst (λ r. IsSorted r × ((k : List ℕ) → In k r → [] ≺ k)) (ok_inj q)
      (range_lem
        (keys u.oid_name_map ++ (keys u.oid_lag_name_map ++ (mgmt ++ keys u.vlan_oid_name_map)))))
  where
    ok_inj : {a b : List (List ℕ)} → ◌≡◌ {A = Result (List (List ℕ))} (ok a) (ok b) → a ≡ b
    ok_inj h = cc

-- After an update that returns, ifOperStatus fulfils the contract of a handler over the range of
-- the interfaces.
pub oper_status-IsLawful :
    (port_util : PortUtil) (u u' : InterfacesUpdater) (prefix : List ℕ) (prefixlen : ℕ)
    → update_data port_util u ≡ (ok tt, u')
    → IsLawful (if_oper_status u' prefix prefixlen) (λ k. In k u'.if_range)
unfolding update_data if_oper_status
oper_status-IsLawful port_util u u' prefix prefixlen e =
    let kept = and_then_last IsRange (update_if_counters port_util u) _ (λ u1.
      and_then_last IsRange (update_rif_counters port_util u1) _ (λ u2.
        and_then_last IsRange (aggregate_counters port_util u2) _ (set_range-Keeps port_util))) in
    let (order, filled) = Keeps-ok IsRange (update_data port_util u) u' kept e in
    subtree-IsLawful _ _ prefix prefixlen u'.if_range _ order filled
      (λ k i. (int (pos (get_oper_status u' k)), unfold int_data in refl))
