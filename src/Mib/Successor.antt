-- ===== src/Mib/Successor.antt =====
-- What a client of the MIB table may expect of GetNext, as a relation between the start of a
-- search and the names that the handlers instantiate.
pub mod Under
pub mod Walk
pub mod Main
pub mod Reach
use sonic_snmpagent.Prelude.{ℕ, ◌≡◌, ◌⊎◌, List, ◌++◌, length, Option, some, none, Result, ok}
use sonic_snmpagent.Constants.{ValueType, end_of_mib_view}
use sonic_snmpagent.Encodings.Value.{Data, ValueRepresentation, from_typecast}
use sonic_snmpagent.Encodings.Oid.{ObjectIdentifier}
use sonic_snmpagent.Order.{◌≺◌, ◌≼◌, In, lt_tuple}
use sonic_snmpagent.Mib.Entry.{MibEntry, get_next, first, call}
use sonic_snmpagent.Mib.Table.{MibTable, lookup, exception_value}
use sonic_snmpagent.Mib.Find.{IsPrefixFree}

-- The contract of the code behind an entry, over the set of the sub-identifiers that it
-- instantiates: `get_next` is the successor in that set, an iteration starts at its least element,
-- and each of them has a value.
pub record IsLawful (e : MibEntry) (Key : List ℕ → Type 0) : Type 0 where
  pub next_some :
      (s k : List ℕ)
      → get_next e s ≡ some k
      → Key k × (s ≺ k) × ((m : List ℕ) → Key m → s ≺ m → k ≼ m)
  pub next_none : (s m : List ℕ) → get_next e s ≡ none → Key m → m ≼ s
  pub first_ok : (k : Option (List ℕ)) × (first e ≡ ok k)
  pub first_some : (k : List ℕ) → first e ≡ ok (some k) → Key k × ((m : List ℕ) → Key m → k ≼ m)
  pub first_none : (m : List ℕ) → first e ≡ ok none → Key m → ⊥
  pub has_value : (k : List ℕ) → Key k → (v : Data) × (call e k ≡ ok (some v))

-- An entry of the table, with the prefix length that its class has set.
pub record Holds (t : MibTable) (p : List ℕ) (Key : List ℕ → Type 0) : Type 0 where
  pub entry : MibEntry
  pub found : lookup p t.entries ≡ some entry
  pub prefixlen : entry.prefixlen ≡ length p
  pub lawful : IsLawful entry Key

-- `View p k` says that the handler of the prefix `p` instantiates the sub-identifier `k`.
pub record IsView (t : MibTable) (View : List ℕ → List ℕ → Type 0) : Type 0 where
  pub free : IsPrefixFree t.prefixes
  pub holds : (p : List ℕ) → In p t.prefixes → Holds t p (View p)

-- The names instantiated under some prefixes.
pub record IsUnder (View : List ℕ → List ℕ → Type 0) (ps : List (List ℕ)) (name : List ℕ)
    : Type 0 where
  pub prefix : List ℕ
  pub sub_id : List ℕ
  pub there : In prefix ps
  pub key : View prefix sub_id
  pub joined : name ≡ prefix ++ sub_id

-- An instantiated name with the type and the value that its handler gives.
pub record IsServed (t : MibTable) (View : List ℕ → List ℕ → Type 0) (name : List ℕ)
    (type_ : ValueType) (v : Data) : Type 0 where
  pub prefix : List ℕ
  pub sub_id : List ℕ
  pub entry : MibEntry
  pub there : In prefix t.prefixes
  pub key : View prefix sub_id
  pub joined : name ≡ prefix ++ sub_id
  pub found : lookup prefix t.entries ≡ some entry
  pub typed : type_ ≡ entry.value_type
  pub value : call entry sub_id ≡ ok (some v)

-- The result of a search above `from`, up to `end`, among the names under `ps`: the least of them
-- with its value, or the end of the view if none of them lies below `end`.
pub data Answer (t : MibTable) (View : List ℕ → List ℕ → Type 0) (ps : List (List ℕ))
    (Above : List ℕ → Type 0) (start : ObjectIdentifier) (end : List ℕ)
    (result : Result ValueRepresentation) : Type 0 where
  successor :
      (name : List ℕ) (type_ : ValueType) (v : Data)
      → IsServed t View name type_ v
      → Above name
      → ((m : List ℕ) → IsUnder View ps m → Above m → name ≼ m)
      → result ≡ from_typecast type_ name v
      → Answer t View ps Above start end result
  exhausted :
      ((m : List ℕ) → IsUnder View ps m → Above m → end ≼ m)
      → result ≡ ok (exception_value end_of_mib_view start)
      → Answer t View ps Above start end result
