-- ===== src/Pdu/Header.antt =====
-- The classes PDUHeaderTags and PDUHeader of src/ax_interface/pdu.py.
pub mod RoundTrip
use Prim.Native.Nat.{bit_and}
use sonic_snmpagent.Prelude.{
  ℕ, List, [], ◌∷◌, ◌++◌, take, drop, Result, ok, err, struct_error, unpack_error, ◌>>=◌, Bool, not,
  ◌==◌, if◌then◌else◌,
}
use sonic_snmpagent.Constants.{agentx_header_length}
use sonic_snmpagent.Struct.{Endian, big, little, Code, byte, long, Values, pack, unpack}

pub record PduHeader : Type 0 where
  pub version : ℕ
  pub type_ : ℕ
  pub flags : ℕ
  pub reserved : ℕ
  pub session_id : ℕ
  pub transaction_id : ℕ
  pub packet_id : ℕ
  pub payload_length : ℕ

-- `bool(self.flags & mask)`
unfoldable pub has_flag : ℕ → ℕ → Bool
has_flag mask flags = not (bit_and flags mask == 0)

unfoldable pub flag_instance_registration : ℕ → Bool
unfolding has_flag
flag_instance_registration = has_flag 0x01

unfoldable pub flag_new_index : ℕ → Bool
unfolding has_flag
flag_new_index = has_flag 0x02

unfoldable pub flag_any_index : ℕ → Bool
unfolding has_flag
flag_any_index = has_flag 0x04

unfoldable pub flag_non_default_context : ℕ → Bool
unfolding has_flag
flag_non_default_context = has_flag 0x08

unfoldable pub flag_network_byte_order : ℕ → Bool
unfolding has_flag
flag_network_byte_order = has_flag 0x10

unfoldable pub endianness : ℕ → Endian
unfolding flag_network_byte_order
endianness flags = if flag_network_byte_order flags then big else little

abbrev pub tags_format : List Code
tags_format = byte ∷ byte ∷ byte ∷ byte ∷ []

abbrev pub identifiers_format : List Code
identifiers_format = long ∷ long ∷ long ∷ long ∷ []

abbrev pub tags : PduHeader → Values tags_format
tags h = (h.version, (h.type_, (h.flags, (h.reserved, tt))))

abbrev pub identifiers : PduHeader → Values identifiers_format
identifiers h = (h.session_id, (h.transaction_id, (h.packet_id, (h.payload_length, tt))))

unfoldable pub to_bytes : PduHeader → Result (List ℕ)
to_bytes h = do
  front ← pack big tags_format (tags h)
  rest ← pack (endianness h.flags) identifiers_format (identifiers h)
  ok (front ++ rest)

-- A struct.error from the four identifiers becomes PDUUnpackError.
unfoldable pub or_unpack_error {ℓ} : {A : Type ℓ} → Result A → Result A
or_unpack_error (ok a) = ok a
or_unpack_error (err struct_error) = err unpack_error
or_unpack_error (err e) = err e

unfoldable pub from_bytes : List ℕ → Result PduHeader
unfolding or_unpack_error
from_bytes byte_string = do
  (version, (type_, (flags, (reserved, _)))) ← unpack big tags_format (take 4 byte_string)
  (session_id, (transaction_id, (packet_id, (payload_length, _)))) ← or_unpack_error (
      unpack (endianness flags) identifiers_format (drop 4 (take agentx_header_length byte_string)))
  ok (record {
    version = version;
    type_ = type_;
    flags = flags;
    reserved = reserved;
    session_id = session_id;
    transaction_id = transaction_id;
    packet_id = packet_id;
    payload_length = payload_length;
  })
