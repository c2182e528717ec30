-- ===== src/Mibs/Namespace.antt =====
-- The class Namespace of src/sonic_ax_impl/mibs/__init__.py: the databases of all namespaces.
use sonic_snmpagent.Prelude.{
  map, ℕ, zero, suc, ◌+◌, List, [], ◌∷◌, ◌++◌, Option, none, some, Result, ok, err, index_error,
  ◌>>=◌, if◌then◌else◌,
}
use sonic_snmpagent.Dict.{Dict, set, update, ◌≟◌, list_eq, Eq}
use sonic_snmpagent.Strings.{Text}

-- A connector of swsscommon to the databases of one namespace, with what they hold: the keys that
-- match a pattern, and the fields under a key. `none` stands for `None`.
pub record DbConn : Type 0 where
  pub namespace : Text
  pub keys : Text → Text → Option (List Text)
  pub get_all : Text → Text → Option (Dict Text Text)

-- `x or []`
unfoldable pub or_empty {ℓ} : {A : Type ℓ} → Option (List A) → List A
or_empty none = []
or_empty (some xs) = xs

unfoldable pub get_namespace_db_map : Dict Text DbConn → List DbConn → Dict Text DbConn
get_namespace_db_map db_map [] = db_map
get_namespace_db_map db_map (db_conn ∷ dbs) =
    get_namespace_db_map (set db_conn.namespace db_conn db_map) dbs

unfoldable pub dbs_keys : List DbConn → Text → Text → List Text
unfolding or_empty
dbs_keys [] db_name pattern = []
dbs_keys (db_conn ∷ dbs) db_name pattern =
    or_empty (db_conn.keys db_name pattern) ++ dbs_keys dbs db_name pattern

-- `dict.fromkeys(keys, value)`
unfoldable pub from_keys {ℓ} : {A : Type ℓ} → List Text → A → Dict Text A → Dict Text A
from_keys [] value d = d
from_keys (key ∷ keys) value d = from_keys keys value (set key value d)

unfoldable pub keys_namespace_from : List DbConn → ℕ → Text → Text → Dict Text ℕ → Dict Text ℕ
unfolding or_empty from_keys
keys_namespace_from [] db_index db_name pattern result_keys = result_keys
keys_namespace_from (db_conn ∷ dbs) db_index db_name pattern result_keys =
    keys_namespace_from dbs (db_index + 1) db_name pattern
      (update result_keys (from_keys (or_empty (db_conn.keys db_name pattern)) db_index []))

unfoldable pub dbs_keys_namespace : List DbConn → Text → Text → Dict Text ℕ
unfolding keys_namespace_from
dbs_keys_namespace dbs db_name pattern = keys_namespace_from dbs 0 db_name pattern []

unfoldable pub get_all_from : List DbConn → Text → Text → Dict Text Text → Dict Text Text
unfolding or_empty
get_all_from [] db_name key result = result
get_all_from (db_conn ∷ dbs) db_name key result =
    get_all_from dbs db_name key (update result (or_empty (db_conn.get_all db_name key)))

-- A missing entry is an empty dict here. `blocking` only makes the connector wait for the entry.
unfoldable pub dbs_get_all : List DbConn → Text → Text → Dict Text Text
unfolding get_all_from
dbs_get_all dbs db_name key = get_all_from dbs db_name key []

unfoldable pub get_non_host_dbs : List DbConn → List DbConn
get_non_host_dbs [] = []
get_non_host_dbs (db_conn ∷ []) = db_conn ∷ []
get_non_host_dbs (db_conn ∷ other ∷ dbs) = other ∷ dbs

module _ {ℓ κ} {K : Type ℓ} {V : Type κ} ⦃e : Eq K⦄ where
  -- The loop over the indices of `ns_tuple`: `result_map` holds the indices from 0 on.
  unfoldable pub merge_tuple : List (Dict K V) → List (Dict K V) → List (Dict K V)
  merge_tuple [] [] = []
  merge_tuple [] (new ∷ ns_tuple) = new ∷ merge_tuple [] ns_tuple
  merge_tuple (old ∷ result_map) [] = old ∷ result_map
  merge_tuple (old ∷ result_map) (new ∷ ns_tuple) = update old new ∷ merge_tuple result_map ns_tuple

  unfoldable pub merge_all : List (List (Dict K V)) → List (Dict K V) → List (Dict K V)
  unfolding merge_tuple
  merge_all [] result_map = result_map
  merge_all (ns_tuple ∷ ns_tuples) result_map =
      merge_all ns_tuples (merge_tuple result_map ns_tuple)

-- The calls of the loop of `get_sync_d_from_all_namespace`, which may raise.
unfoldable pub call_all {ℓ} : {A : Type ℓ} → (DbConn → Result A) → List DbConn → Result (List A)
call_all per_namespace_func [] = ok []
call_all per_namespace_func (db_conn ∷ dbs) = do
  ns_tuple ← per_namespace_func db_conn
  rest ← call_all per_namespace_func dbs
  ok (ns_tuple ∷ rest)

-- Of the tuples that are merged, the component that `component` takes: the others are merged
-- independently of it.
unfoldable pub get_sync_d_from_all_namespace {ℓ κ μ} :
    {K : Type ℓ} {V : Type κ} {A : Type μ} ⦃e : Eq K⦄
    → (DbConn → Result A)
    → (A → Dict K V)
    → List DbConn
    → Result (List (Dict K V))
unfolding call_all merge_all get_non_host_dbs
get_sync_d_from_all_namespace per_namespace_func component dbs = do
  ns_tuples ← call_all per_namespace_func (get_non_host_dbs dbs)
  ok (merge_all (map (λ t. component t ∷ []) ns_tuples) [])

-- The loop of `dbs_get_bridge_port_map`, with the function of port_util that it calls.
unfoldable pub bridge_ports_from :
    (DbConn → Dict Text Text) → List DbConn → Dict Text Text → Dict Text Text
bridge_ports_from get_bridge_port_map [] if_br_oid_map = if_br_oid_map
bridge_ports_from get_bridge_port_map (db_conn ∷ dbs) if_br_oid_map =
    bridge_ports_from get_bridge_port_map dbs (update if_br_oid_map (get_bridge_port_map db_conn))

unfoldable pub dbs_get_bridge_port_map : (DbConn → Dict Text Text) → List DbConn → Dict Text Text
unfolding bridge_ports_from get_non_host_dbs
dbs_get_bridge_port_map get_bridge_port_map dbs =
    bridge_ports_from get_bridge_port_map (get_non_host_dbs dbs) []

-- The index of the last namespace that is the default one, or 0.
unfoldable pub host_index : Text → ℕ → ℕ → List Text → ℕ
host_index default_namespace idx host_namespace_idx [] = host_namespace_idx
host_index default_namespace idx host_namespace_idx (namespace ∷ ns_list) =
    host_index default_namespace (idx + 1)
      (if namespace ≟ default_namespace then idx else host_namespace_idx) ns_list

-- `xs[i] = x`, and the element that stood there
unfoldable pub replace {ℓ} : {A : Type ℓ} → List A → ℕ → A → Result (A × List A)
replace [] i x = err index_error
replace (y ∷ ys) zero x = ok (y, x ∷ ys)
replace (y ∷ ys) (suc i) x = do (old, rest) ← replace ys i x; ok (old, y ∷ rest)

-- `db_conn[0], db_conn[i] = db_conn[i], db_conn[0]`
unfoldable pub swap_first {ℓ} : {A : Type ℓ} → List A → ℕ → Result (List A)
unfolding replace
swap_first [] i = err index_error
swap_first (x ∷ xs) zero = ok (x ∷ xs)
swap_first (x ∷ xs) (suc i) = do (old, rest) ← replace xs i x; ok (old ∷ rest)

-- The connectors are opened by `connector`, in the order of the list of namespaces.
unfoldable pub open_all : (Text → DbConn) → List Text → List DbConn
open_all connector [] = []
open_all connector (namespace ∷ ns_list) = connector namespace ∷ open_all connector ns_list

unfoldable pub init_namespace_dbs : (Text → DbConn) → Text → List Text → Result (List DbConn)
unfolding open_all host_index swap_first
init_namespace_dbs connector default_namespace ns_list =
    swap_first (open_all connector ns_list) (host_index default_namespace 0 0 ns_list)
