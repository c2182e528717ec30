-- ===== src/Mibs/OidTree.antt =====
-- The class RedisOidTreeUpdater of src/sonic_ax_impl/mibs/__init__.py: values by whole OIDs, which an
-- OverlayAdpaterMIBEntry lays over a subtree.
use sonic_snmpagent.Prelude.{
  ℕ, ◌≡◌, refl, false, ◌∙◌, List, ◌++◌, Option, none, some, Result, ok, err, value_error, ◌>>=◌,
  ◌||◌, pos, if◌then◌else◌,
}
use sonic_snmpagent.Encodings.Value.{Data, int}
use sonic_snmpagent.Util.Text.{oid2tuple}
use sonic_snmpagent.Dict.{Dict, ◌≟◌, item, list_eq}
use sonic_snmpagent.Strings.{Text, codes, to_int}
use sonic_snmpagent.Mib.Entry.{
  MibEntry, by_oid, overlay, get_next, next_of, first, first_of, call, call_handler, prefer,
}
use sonic_snmpagent.Mib.Successor.{IsLawful}
use sonic_snmpagent.Mibs.Keys.{snmp_overlay_db}
use sonic_snmpagent.Mibs.Namespace.{DbConn, dbs_keys, dbs_get_all}
use sonic_snmpagent.Mibs.Values.{int_data}
use sonic_snmpagent.Mibs.Rows.{Rows, no_rows, value_of}
use sonic_snmpagent.Mibs.Effect.{with_result, for_each}
use sonic_snmpagent.Mibs.Rows.Steps.{Step, append_then, then_sort}

-- `rows` holds `oid_map` and `oid_list`. The constructor does not set them: the record is the state
-- from the first update on.
pub record RedisOidTreeUpdater : Type 0 where
  pub db_conn : List DbConn
  pub prefix_str : Text
  pub rows : Rows ℕ

unfoldable pub counter_value : Dict Text Text → Result ℕ
counter_value value = do
  type_ ← item (codes "type") value
  if type_ ≟ codes "COUNTER_32" || type_ ≟ codes "COUNTER_64"
      then (do data_ ← item (codes "data") value; to_int data_)
      else err value_error

unfoldable pub add_key : List DbConn → Text → Rows ℕ → Step ℕ
unfolding counter_value
add_key db_conn key r =
    with_result (oid2tuple key false) r
      (λ oid. append_then oid (counter_value (dbs_get_all db_conn snmp_overlay_db key)) r)

unfoldable pub update_rows : RedisOidTreeUpdater → Step ℕ
unfolding add_key
update_rows u = then_sort (
    for_each (add_key u.db_conn) (dbs_keys u.db_conn snmp_overlay_db (u.prefix_str ++ codes "*"))
      no_rows)

unfoldable pub update_data : RedisOidTreeUpdater → Result (Unit {0}) × RedisOidTreeUpdater
unfolding update_rows
update_data u = let (raised, rows) = update_rows u in (raised, record u { rows = rows })

unfoldable pub get_oidvalue : RedisOidTreeUpdater → List ℕ → Option ℕ
get_oidvalue u oid = value_of u.rows oid

-- A subtree with the values of the updater over it, as the counters of InterfacesMIB have it.
unfoldable pub overlaid : RedisOidTreeUpdater → MibEntry → MibEntry
overlaid u e = record e {
  handler = overlay e.handler (by_oid (λ oid. int_data (get_oidvalue u oid)));
}

-- The value of the overlay, if it has one, else what the entry below gives.
abbrev pub laid_over : Option ℕ → Result (Option Data) → Result (Option Data)
laid_over none underlay = underlay
laid_over (some n) underlay = ok (some (int (pos n)))

call-overlaid :
    (u : RedisOidTreeUpdater) (e : MibEntry) (k : List ℕ) (o : Option ℕ)
    → get_oidvalue u (e.prefix ++ k) ≡ o
    → call (overlaid u e) k ≡ laid_over o (call e k)
unfolding call call_handler overlaid int_data prefer
call-overlaid u e k none h = rw h refl
call-overlaid u e k (some n) h = rw h refl

laid_over-some :
    (o : Option ℕ) (underlay : Result (Option Data)) (v : Data)
    → underlay ≡ ok (some v)
    → (w : Data) × (laid_over o underlay ≡ ok (some w))
laid_over-some none underlay v h = (v, h)
laid_over-some (some n) underlay v h = (int (pos n), refl)

-- Laid over an entry that fulfils the contract of a handler, the values of a RedisOidTreeUpdater
-- leave its keys and its search as they are, and the value at a key is that of the updater for the
-- whole OID, if it has one, and that of the entry below otherwise.
pub overlaid-IsLawful :
    (u : RedisOidTreeUpdater) (e : MibEntry) (Key : List ℕ → Type 0) (k : List ℕ)
    → IsLawful e Key
    → IsLawful (overlaid u e) Key
      × (call (overlaid u e) k ≡ laid_over (get_oidvalue u (e.prefix ++ k)) (call e k))
unfolding overlaid get_next next_of first first_of
overlaid-IsLawful u e Key k l = (
  record {
    next_some = l.next_some;
    next_none = l.next_none;
    first_ok = l.first_ok;
    first_some = l.first_some;
    first_none = l.first_none;
    has_value = λ j key. value j (l.has_value j key);
  },
  call-overlaid u e k (get_oidvalue u (e.prefix ++ k)) refl,
)
  where
    value :
        (j : List ℕ)
        → (v : Data) × (call e j ≡ ok (some v))
        → (v : Data) × (call (overlaid u e) j ≡ ok (some v))
    value j (v, c) =
        let o = get_oidvalue u (e.prefix ++ j) in
        let (w, h) = laid_over-some o (call e j) v c in (w, call-overlaid u e j o refl ∙ h)
