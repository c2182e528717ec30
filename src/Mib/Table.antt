-- ===== src/Mib/Table.antt =====
-- The class MIBTable of src/ax_interface/mib.py: `get` and `get_next`.
use sonic_snmpagent.Prelude.{
  ℕ, List, [], ◌∷◌, length, take, drop, Option, none, some, Result, ok, err, key_error,
  attribute_error, ◌>>=◌, ◌==◌, if◌then◌else◌,
}
use sonic_snmpagent.Constants.{ValueType, no_such_object, no_such_instance, end_of_mib_view}
use sonic_snmpagent.Encodings.Oid.{ObjectIdentifier, to_tuple, eq_tuple}
use sonic_snmpagent.Encodings.Range.{SearchRange}
use sonic_snmpagent.Encodings.Value.{Data, nothing, ValueRepresentation, from_typecast}
use sonic_snmpagent.Order.{lt_tuple, sorted, bisect_right, last?}
use sonic_snmpagent.Mib.Entry.{MibEntry, call, get_next, first, get_sub_id, replace_sub_id}

-- The dict of entries by prefix, and the list of prefixes by priority.
pub record MibTable : Type 0 where
  pub entries : List (List ℕ × MibEntry)
  pub prefixes : List (List ℕ)

unfoldable pub lookup {ℓ} : {A : Type ℓ} → List ℕ → List (List ℕ × A) → Option A
unfolding eq_tuple
lookup key [] = none
lookup key ((k, v) ∷ rest) = if eq_tuple k key then some v else lookup key rest

-- `preceding_oids[-1] == item[:len(preceding_oids[-1])]`
unfoldable pub parent_of : List ℕ → Option (List ℕ) → Option (List ℕ)
parent_of item none = none
parent_of item (some oid) = if eq_tuple oid (take (length oid) item) then some oid else none

unfoldable pub find_parent_prefix : MibTable → List ℕ → Option (List ℕ)
unfolding parent_of
find_parent_prefix t item =
    let oids = sorted t.prefixes in parent_of item (last? (take (bisect_right oids item) oids))

-- `super().get(prefix)` gives None for a missing key, which has no attribute `get_sub_id`.
unfoldable pub parent_entry : Option MibEntry → Result MibEntry
parent_entry none = err attribute_error
parent_entry (some e) = ok e

-- `self[oid_key]`
unfoldable pub item_entry : Option MibEntry → Result MibEntry
item_entry none = err key_error
item_entry (some e) = ok e

unfoldable pub typecast_value :
    ValueType → List ℕ → Option Data → Result (Option ValueRepresentation)
typecast_value type_ name none = ok none
typecast_value type_ name (some v) = do vr ← from_typecast type_ name v; ok (some vr)

unfoldable pub get_value : MibEntry → List ℕ → Result (Option ValueRepresentation)
unfolding typecast_value
get_value e oid_key = do
  oid_value ← call e (get_sub_id e oid_key)
  typecast_value e.value_type oid_key oid_value

unfoldable pub value_at : MibEntry → List ℕ → Option (List ℕ) → Result (Option ValueRepresentation)
unfolding typecast_value
value_at e oid_key none = ok none
value_at e oid_key (some key1) = do
  val1 ← call e key1
  typecast_value e.value_type (replace_sub_id e oid_key key1) val1

unfoldable pub get_nextvalue : MibEntry → List ℕ → Result (Option ValueRepresentation)
unfolding value_at
get_nextvalue e oid_key = value_at e oid_key (get_next e (get_sub_id e oid_key))

-- The answer that carries no value.
unfoldable pub exception_value : ValueType → ObjectIdentifier → ValueRepresentation
exception_value type_ start = record { type_ = type_; reserved = 0; name = start; value = nothing }

unfoldable pub or_exception :
    ValueType → ObjectIdentifier → Option ValueRepresentation → ValueRepresentation
or_exception type_ start none = exception_value type_ start
or_exception type_ start (some vr) = vr

unfoldable pub get_under :
    MibTable → ObjectIdentifier → Option (List ℕ) → Result ValueRepresentation
unfolding parent_entry or_exception
get_under t start none = ok (exception_value no_such_object start)
get_under t start (some prefix) = do
  e ← parent_entry (lookup prefix t.entries)
  vr ← get_value e (to_tuple start)
  ok (or_exception no_such_instance start vr)

unfoldable pub get : MibTable → SearchRange → Result ValueRepresentation
unfolding get_under
get t sr = get_under t sr.start (find_parent_prefix t (to_tuple sr.start))

-- The loop of `get_next` over the prefixes behind the start; `later` is the rest of the loop.
unfoldable pub walk_value :
    ValueType → List ℕ → Result ValueRepresentation → Option Data → Result ValueRepresentation
walk_value type_ name later none = later
walk_value type_ name later (some val1) = from_typecast type_ name val1

unfoldable pub walk_key :
    MibEntry → List ℕ → Result ValueRepresentation → Option (List ℕ) → Result ValueRepresentation
unfolding walk_value
walk_key e oid_key later none = later
walk_key e oid_key later (some key1) = do
  val1 ← call e key1
  walk_value e.value_type (replace_sub_id e oid_key key1) later val1

unfoldable pub walk_entry :
    Option MibEntry → List ℕ → Result ValueRepresentation → Result ValueRepresentation
unfolding walk_key item_entry
walk_entry found oid_key later = do
  e ← item_entry found
  key1 ← first e
  walk_key e oid_key later key1

unfoldable pub walk :
    MibTable → ObjectIdentifier → List ℕ → List (List ℕ) → Result ValueRepresentation
unfolding walk_entry
walk t start end_key [] = ok (exception_value end_of_mib_view start)
walk t start end_key (oid_key ∷ rest) =
    let later = walk t start end_key rest in
    if lt_tuple oid_key end_key
    then walk_entry (lookup oid_key t.entries) oid_key later
    else ok (exception_value end_of_mib_view start)

-- The value at the start itself is asked for only if the range includes it.
unfoldable pub included_value : ℕ → MibEntry → List ℕ → Result (Option ValueRepresentation)
included_value include e start_key = if include == 0 then ok none else get_value e start_key

unfoldable pub or_else :
    Option ValueRepresentation
    → Result (Option ValueRepresentation)
    → Result (Option ValueRepresentation)
or_else (some vr) later = ok (some vr)
or_else none later = later

-- The first part of `get_next`: the entry that the start stands under.
unfoldable pub next_under :
    MibTable → ObjectIdentifier → Option (List ℕ) → Result (Option ValueRepresentation)
unfolding parent_entry included_value or_else
next_under t start none = ok none
next_under t start (some prefix) = do
  e ← parent_entry (lookup prefix t.entries)
  vr ← included_value start.include e (to_tuple start)
  or_else vr (get_nextvalue e (to_tuple start))

unfoldable pub or_walk :
    Option ValueRepresentation → Result ValueRepresentation → Result ValueRepresentation
or_walk (some vr) later = ok vr
or_walk none later = later

unfoldable pub remaining_oids : MibTable → List ℕ → List (List ℕ)
remaining_oids t start_key =
    let oid_list = sorted t.prefixes in drop (bisect_right oid_list start_key) oid_list

unfoldable pub get_next_value : MibTable → SearchRange → Result ValueRepresentation
unfolding next_under or_walk remaining_oids walk
get_next_value t sr = do
  vr ← next_under t sr.start (find_parent_prefix t (to_tuple sr.start))
  or_walk vr (walk t sr.start (to_tuple sr.end) (remaining_oids t (to_tuple sr.start)))
