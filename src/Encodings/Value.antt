-- ===== src/Encodings/Value.antt =====
-- The class ValueRepresentation of src/ax_interface/encodings.py.
pub mod RoundTrip
use sonic_snmpagent.Prelude.{
  ℕ, ℤ, pos, negsuc, ◌+◌, ◌-◌, ◌%◌, ◌^◌, ◌≡◌, List, [], ◌∷◌, ◌++◌, length, take, drop, Result, ok,
  err, type_error, attribute_error, ◌>>=◌, Bool, true, false,
}
use sonic_snmpagent.Constants.{
  ValueType, integer, octet_string, null, object_identifier, ip_address, counter_32, gauge_32,
  time_ticks, opaque, counter_64, no_such_object, no_such_instance, end_of_mib_view, type_code,
  value_type,
}
use sonic_snmpagent.Struct.{Endian, half, long, quad, pack, unpack}
use sonic_snmpagent.Encodings.Oid
use sonic_snmpagent.Encodings.Oid.{ObjectIdentifier}
use sonic_snmpagent.Encodings.Octets
use sonic_snmpagent.Encodings.Octets.{OctetString, Text, str, raw}

-- What the `data` field may hold: the decoded values, and the Python values that a handler of the
-- MIB returns (`int`, `str` by code points, `bytes`, a tuple of numbers).
pub data Data : Type 0 where
  int : ℤ → Data
  chars : List ℕ → Data
  bytes : List ℕ → Data
  tuple : List ℕ → Data
  oid : ObjectIdentifier → Data
  octets : OctetString → Data
  nothing : Data

pub record ValueRepresentation : Type 0 where
  pub type_ : ValueType
  pub reserved : ℕ
  pub name : ObjectIdentifier
  pub value : Data

-- The lists FOUR_BYTE_TYPES, OCTET_STRINGS and EMPTY_TYPES with the two unique types between.
pub data Layout : Type 0 where
  four_byte eight_byte oid_layout octet_layout empty_layout : Layout

unfoldable pub layout : ValueType → Layout
layout integer = four_byte
layout counter_32 = four_byte
layout gauge_32 = four_byte
layout time_ticks = four_byte
layout counter_64 = eight_byte
layout object_identifier = oid_layout
layout ip_address = octet_layout
layout opaque = octet_layout
layout octet_string = octet_layout
layout null = empty_layout
layout no_such_object = empty_layout
layout no_such_instance = empty_layout
layout end_of_mib_view = empty_layout

-- `data.size`: an AttributeError where the value has none.
unfoldable pub value_size : Data → Result ℕ
value_size (oid o) = ok (Oid.size o)
value_size (octets s) = ok (Octets.size s)
value_size (int n) = err attribute_error
value_size (chars s) = err attribute_error
value_size (bytes s) = err attribute_error
value_size (tuple s) = err attribute_error
value_size nothing = err attribute_error

unfoldable pub size_of : Layout → Data → Result ℕ
unfolding value_size
size_of four_byte d = ok 4
size_of eight_byte d = ok 8
size_of oid_layout d = value_size d
size_of octet_layout d = value_size d
size_of empty_layout d = ok 0

unfoldable pub size : ValueRepresentation → Result ℕ
unfolding layout size_of
size vr = do extra ← size_of (layout vr.type_) vr.value; ok (4 + Oid.size vr.name + extra)

-- `data & (2 ** bits - 1)` on an unbounded integer.
unfoldable pub mask : ℕ → ℤ → ℕ
mask bits (pos n) = n % 2 ^ bits
mask bits (negsuc n) = 2 ^ bits - 1 - n % 2 ^ bits

-- A value that has no `&` raises TypeError.
unfoldable pub masked : ℕ → Data → Result ℕ
unfolding mask
masked bits (int n) = ok (mask bits n)
masked bits (chars s) = err type_error
masked bits (bytes s) = err type_error
masked bits (tuple s) = err type_error
masked bits (oid o) = err type_error
masked bits (octets s) = err type_error
masked bits nothing = err type_error

-- `data.to_bytes(endianness)`: an `int` has a method of that name and refuses the argument.
unfoldable pub value_bytes : Endian → Data → Result (List ℕ)
value_bytes e (oid o) = Oid.to_bytes e o
value_bytes e (octets s) = Octets.to_bytes e s
value_bytes e (int n) = err type_error
value_bytes e (chars s) = err attribute_error
value_bytes e (bytes s) = err attribute_error
value_bytes e (tuple s) = err attribute_error
value_bytes e nothing = err attribute_error

unfoldable pub data_bytes : Endian → Layout → Data → Result (List ℕ)
unfolding masked value_bytes
data_bytes e four_byte d = do n ← masked 32 d; pack e (long ∷ []) (n, tt)
data_bytes e eight_byte d = do n ← masked 64 d; pack e (quad ∷ []) (n, tt)
data_bytes e oid_layout d = value_bytes e d
data_bytes e octet_layout d = value_bytes e d
data_bytes e empty_layout d = ok []

unfoldable pub to_bytes : Endian → ValueRepresentation → Result (List ℕ)
unfolding layout data_bytes
to_bytes e vr = do
  header ← pack e (half ∷ half ∷ []) (type_code vr.type_, (vr.reserved, tt))
  name ← Oid.to_bytes e vr.name
  rest ← data_bytes e (layout vr.type_) vr.value
  ok (header ++ (name ++ rest))

-- `_unpack_data`; the size that it also returns is not used by its caller.
unfoldable pub unpack_data : Endian → Layout → List ℕ → Result Data
unpack_data e four_byte bs = do (n, _) ← unpack e (long ∷ []) (take 4 bs); ok (int (pos n))
unpack_data e eight_byte bs = do (n, _) ← unpack e (quad ∷ []) (take 8 bs); ok (int (pos n))
unpack_data e oid_layout bs = do o ← Oid.from_bytes e bs; ok (oid o)
unpack_data e octet_layout bs = do s ← Octets.from_bytes e bs; ok (octets s)
unpack_data e empty_layout bs = ok nothing

unfoldable pub from_bytes : Endian → List ℕ → Result ValueRepresentation
unfolding layout unpack_data
from_bytes e byte_string = do
  (type_, (reserved, _)) ← unpack e (half ∷ half ∷ []) (take 4 byte_string)
  name ← Oid.from_bytes e (drop 4 byte_string)
  typed_bind ← value_type type_
  value ← unpack_data e (layout typed_bind) (drop (4 + Oid.size name) byte_string)
  ok (record { type_ = typed_bind; reserved = reserved; name = name; value = value })

-- `OctetString.from_string(data)`. Of a tuple or an identifier, which a handler of a string has no
-- reason to give, the source would make a string that fails when it is packed, before anything is
-- written; here it fails at once.
unfoldable pub to_octets : Data → Result Data
to_octets (chars s) = do o ← Octets.from_string (str s); ok (octets o)
to_octets (bytes s) = do o ← Octets.from_string (raw s); ok (octets o)
to_octets (int n) = err type_error
to_octets (tuple s) = err type_error
to_octets (oid o) = err type_error
to_octets (octets s) = err type_error
to_octets nothing = err type_error

-- `ObjectIdentifier.from_iterable(data)`, or `data` if it is one. Of a `str` the source would make
-- an identifier of characters, which fails when it is packed; here it fails at once.
unfoldable pub to_oid : Data → Result Data
to_oid (oid o) = ok (oid o)
to_oid (tuple s) = do o ← Oid.from_iterable s; ok (oid o)
to_oid (bytes s) = do o ← Oid.from_iterable s; ok (oid o)
to_oid (chars s) = err type_error
to_oid (int n) = err type_error
to_oid (octets s) = err type_error
to_oid nothing = err type_error

unfoldable pub typecast : Layout → Data → Result Data
unfolding to_octets to_oid
typecast octet_layout d = to_octets d
typecast oid_layout d = to_oid d
typecast empty_layout d = ok nothing
typecast four_byte d = ok d
typecast eight_byte d = ok d

-- `from_typecast` of a name given as a tuple, as the MIB table calls it.
unfoldable pub from_typecast : ValueType → List ℕ → Data → Result ValueRepresentation
unfolding layout typecast
from_typecast type_ name d = do
  o ← Oid.from_iterable name
  value ← typecast (layout type_) d
  ok (record { type_ = type_; reserved = 0; name = o; value = value })
