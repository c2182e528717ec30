-- ===== src/Runs/Walk.antt =====
-- A walk over the table of two scalars.
use mathlib.Core.List.{append-nil}
use sonic_snmpagent.Prelude.{
  ℕ, ◌≡◌, inl, inr, refl, sym, ap, ◌∙◌, arith, List, [], ◌∷◌, ◌++◌, length, Option, none, some, ok,
}
use sonic_snmpagent.Constants.{ValueType, internet_prefix, integer}
use sonic_snmpagent.Encodings.Oid.{ObjectIdentifier, to_tuple, prefix, from_iterable, eq_tuple}
use sonic_snmpagent.Encodings.Value.{Data, ValueRepresentation, from_typecast, layout, typecast}
use sonic_snmpagent.Order.{In, lt_tuple}
use sonic_snmpagent.Mib.Entry.{MibEntry}
use sonic_snmpagent.Mib.Table.{lookup}
use sonic_snmpagent.Mib.Successor.{IsUnder, IsServed}
use sonic_snmpagent.Mib.Successor.Reach.{Walks, walk_reaches}
use sonic_snmpagent.Runs.Table.{table, View, prefixes, high, low, free, holds, range_of}

-- A walk from 1 to 1.9 over the two scalars.
abbrev start_of_walk : ObjectIdentifier
start_of_walk = record { n_subid = 1; prefix_ = 0; include = 0; reserved = 0; subids = 1 ∷ [] }

names_of : (m : List ℕ) → IsUnder View prefixes m → In m prefixes
names_of m u = under_prefix u.there (u.joined ∙ ap (λ k. u.prefix ++ k) u.key ∙ append-nil u.prefix)
  where
    under_prefix : {p : List ℕ} → In p prefixes → m ≡ p → In m prefixes
    under_prefix (inl e) h = inl (h ∙ e)
    under_prefix (inr (inl e)) h = inr (inl (h ∙ e))
    under_prefix (inr (inr none_left)) h = absurd none_left

not_internet : (m rest : List ℕ) → IsUnder View prefixes m → m ≡ internet_prefix ++ (0 ∷ rest) → ⊥
not_internet m rest u e = apart (names_of m u)
  where
    apart : In m prefixes → ⊥
    apart (inl h) = grind arith
    apart (inr (inl h)) = grind arith
    apart (inr (inr none_left)) = none_left

-- The value type of an entry, and that of a scalar where there is none.
type_or_integer : Option MibEntry → ValueType
type_or_integer none = integer
type_or_integer (some e) = e.value_type

integer_of :
    (p : List ℕ) (e : MibEntry)
    → In p prefixes
    → lookup p table.entries ≡ some e
    → e.value_type ≡ integer
unfolding lookup type_or_integer
integer_of p e (inl h) f = sym (ap type_or_integer (rw h at f))
integer_of p e (inr (inl h)) f = sym (ap type_or_integer (rw h at f))
integer_of p e (inr (inr none_left)) f = absurd none_left

abbrev value_at_name : List ℕ → Data → ValueRepresentation
value_at_name name d = record {
  type_ = integer;
  reserved = 0;
  name = record { n_subid = length name; prefix_ = 0; include = 0; reserved = 0; subids = name };
  value = d;
}

sendable :
    (name : List ℕ) (d : Data)
    → In name prefixes
    → (vr : ValueRepresentation) × (from_typecast integer name d ≡ ok vr)
unfolding from_typecast layout typecast from_iterable eq_tuple
sendable name d (inl h) = rw h (value_at_name high d, refl)
sendable name d (inr (inl h)) = rw h (value_at_name low d, refl)
sendable name d (inr (inr none_left)) = absurd none_left

typed :
    (name : List ℕ) (type_ : ValueType) (d : Data)
    → IsServed table View name type_ d
    → (vr : ValueRepresentation) × (from_typecast type_ name d ≡ ok vr)
typed name type_ d sv =
    let same : type_ ≡ integer = sv.typed ∙ integer_of sv.prefix sv.entry sv.there sv.found in
    rw same (
      sendable name d (
        names_of name (record {
          prefix = sv.prefix;
          sub_id = sv.sub_id;
          there = sv.there;
          key = sv.key;
          joined = sv.joined;
        })))

high_there : IsUnder View prefixes high
high_there = record { prefix = high; sub_id = []; there = inl refl; key = refl; joined = refl }

walk_reaches_example : Walks table (range_of low).end high start_of_walk
unfolding lt_tuple to_tuple prefix
walk_reaches_example =
    walk_reaches table View (record { free = free; holds = holds }) (range_of low).end prefixes
      names_of not_internet typed start_of_walk high refl high_there refl refl
