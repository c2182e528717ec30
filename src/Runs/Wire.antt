-- ===== src/Runs/Wire.antt =====
-- Runs of the encodings and of the PDUs.
use sonic_snmpagent.Prelude.{
  ◌≢◌, ℕ, ◌+◌, ◌*◌, ◌≤◌, ◌≡◌, ◌⊎◌, ◌++◌, refl, List, [], ◌∷◌, length, ok, none, some, negsuc, true,
  false, map,
}
use sonic_snmpagent.Constants.{integer, internet_prefix, type_code}
use sonic_snmpagent.Struct.{big, pack, pack_longs}
use sonic_snmpagent.Encodings.Oid
use sonic_snmpagent.Encodings.Oid.{ObjectIdentifier, null_oid}
use sonic_snmpagent.Encodings.Oid.RoundTrip.{oid_from_bytes-to_bytes}
use sonic_snmpagent.Encodings.Oid.Names.{to_tuple-from_iterable}
use sonic_snmpagent.Encodings.Octets
use sonic_snmpagent.Encodings.Octets.{OctetString}
use sonic_snmpagent.Encodings.Value
use sonic_snmpagent.Encodings.Value.{ValueRepresentation, int, layout}
use sonic_snmpagent.Encodings.Value.RoundTrip.{value_from_bytes-to_bytes, canonical}
use sonic_snmpagent.Encodings.Range
use sonic_snmpagent.Encodings.Range.{SearchRange}
use sonic_snmpagent.Pdu.Header
use sonic_snmpagent.Pdu.Header.{PduHeader}
use sonic_snmpagent.Pdu.Header.RoundTrip.{header_from_bytes-to_bytes}
use sonic_snmpagent.Pdu.Body.{get_body, get_next_body, response_body, read_get}
use sonic_snmpagent.Pdu.Codec.{decode, encode, concat_bytes}
use sonic_snmpagent.Pdu.Shrinks.{decode_shrinks}
use sonic_snmpagent.Pdu.Items.Bindings.{read_back}
use sonic_snmpagent.Pdu.ResponseTrip.{decode-encode_response}
use sonic_snmpagent.Pdu.GetTrip.{decode-encode_get_next, read_get_context}
use sonic_snmpagent.Util.{pad4, get_next_update_interval, update_interval_bounds}
use sonic_snmpagent.Util.Text.{oid2tuple, join, dot, int_from, is_group, oid2tuple-join}

-- 1.3.6.1.2.1
abbrev mib_2 : ObjectIdentifier
mib_2 = record { n_subid = 1; prefix_ = 2; include = 0; reserved = 0; subids = 1 ∷ [] }

-- What `from_iterable` makes of 1.3.6.1.0.5.
abbrev zero_prefix : ObjectIdentifier
zero_prefix = record { n_subid = 1; prefix_ = 0; include = 0; reserved = 0; subids = 5 ∷ [] }

abbrev mib_2_bytes : List ℕ
mib_2_bytes = 1 ∷ 2 ∷ 0 ∷ 0 ∷ 0 ∷ 0 ∷ 0 ∷ 1 ∷ []

oid_from_bytes-to_bytes_example : Oid.from_bytes big (mib_2_bytes ++ (7 ∷ [])) ≡ ok mib_2
unfolding Oid.to_bytes pack pack_longs
oid_from_bytes-to_bytes_example =
    oid_from_bytes-to_bytes big mib_2 mib_2_bytes (7 ∷ []) (record { counted = refl }) refl

-- 1.3.6.1.0.5 loses its prefix.
to_tuple-from_iterable_example :
    ((Oid.to_tuple zero_prefix ≡ 1 ∷ 3 ∷ 6 ∷ 1 ∷ 0 ∷ 5 ∷ [])
      × ((tail : List ℕ) → (1 ∷ 3 ∷ 6 ∷ 1 ∷ 0 ∷ 5 ∷ []) ≢ internet_prefix ++ (0 ∷ tail)))
    ⊎ ((tail : List ℕ) × (1 ∷ 3 ∷ 6 ∷ 1 ∷ 0 ∷ 5 ∷ [] ≡ internet_prefix ++ (0 ∷ tail))
        × (Oid.to_tuple zero_prefix ≡ tail))
unfolding Oid.from_iterable
to_tuple-from_iterable_example =
    to_tuple-from_iterable (1 ∷ 3 ∷ 6 ∷ 1 ∷ 0 ∷ 5 ∷ []) zero_prefix refl

-- The string "abc" with its padding.
abbrev abc : OctetString
abc = record { len = 3; string = 97 ∷ 98 ∷ 99 ∷ []; padding = 0 ∷ [] }

-- An integer of -1.
abbrev minus_one : ValueRepresentation
minus_one = record { type_ = integer; reserved = 0; name = mib_2; value = int (negsuc 0) }

value_from_bytes-to_bytes_example :
    Value.from_bytes big
      (((0 ∷ 2 ∷ 0 ∷ 0 ∷ []) ++ (mib_2_bytes ++ (255 ∷ 255 ∷ 255 ∷ 255 ∷ []))) ++ (7 ∷ []))
    ≡ ok (record minus_one { value = canonical (layout integer) (int (negsuc 0)) })
unfolding Value.to_bytes Oid.to_bytes pack pack_longs layout type_code
value_from_bytes-to_bytes_example =
    value_from_bytes-to_bytes big minus_one
      ((0 ∷ 2 ∷ 0 ∷ 0 ∷ []) ++ (mib_2_bytes ++ (255 ∷ 255 ∷ 255 ∷ 255 ∷ []))) (7 ∷ [])
      (record { name = record { counted = refl }; value = tt }) refl

-- A GetNext PDU in network byte order, for the range from 1.3.6.1.2.1 to itself.
abbrev get_next_header : PduHeader
get_next_header = record {
  version = 1;
  type_ = 6;
  flags = 16;
  reserved = 0;
  session_id = 5;
  transaction_id = 1;
  packet_id = 2;
  payload_length = 16;
}

abbrev header_bytes : List ℕ
header_bytes = 1 ∷ 6 ∷ 16 ∷ 0 ∷ 0 ∷ 0 ∷ 0 ∷ 5 ∷ 0 ∷ 0 ∷ 0 ∷ 1 ∷ 0 ∷ 0 ∷ 0 ∷ 2 ∷ 0 ∷ 0 ∷ 0 ∷ 16 ∷ []

abbrev mib_2_range : SearchRange
mib_2_range = record { start = mib_2; end = mib_2 }

header_from_bytes-to_bytes_example :
    Header.from_bytes (header_bytes ++ (7 ∷ [])) ≡ ok get_next_header
unfolding Header.to_bytes Header.endianness pack
header_from_bytes-to_bytes_example =
    header_from_bytes-to_bytes get_next_header header_bytes (7 ∷ []) refl

abbrev wire : List ℕ
wire = header_bytes ++ (mib_2_bytes ++ mib_2_bytes)

decode-encode_get_next_example :
    decode (wire ++ (7 ∷ []))
    ≡ ok (record {
      header = get_next_header;
      body = get_next_body none (mib_2_range ∷ []);
      trailing_bytes = 7 ∷ [];
    })
unfolding encode Header.to_bytes Header.endianness pack pack_longs Oid.to_bytes Range.to_bytes
    Header.flag_non_default_context Header.has_flag
decode-encode_get_next_example =
    decode-encode_get_next get_next_header (mib_2_range ∷ []) (7 ∷ [])
      (record { start = record { counted = refl }; end = record { counted = refl } }, tt) refl []
      wire refl refl refl

decode_shrinks_example : length {A = ℕ} (7 ∷ []) + 20 ≤ length (wire ++ (7 ∷ []))
decode_shrinks_example =
    decode_shrinks (wire ++ (7 ∷ []))
      (record {
        header = get_next_header;
        body = get_next_body none (mib_2_range ∷ []);
        trailing_bytes = 7 ∷ [];
      })
      decode-encode_get_next_example

-- "1.30", ".1.30" and, below the internet prefix, "1.30".
oid2tuple-join_example :
    (oid2tuple (join ((49 ∷ []) ∷ (51 ∷ 48 ∷ []) ∷ [])) false
      ≡ ok (map (int_from 0) ((49 ∷ []) ∷ (51 ∷ 48 ∷ []) ∷ [])))
    × (oid2tuple (dot ∷ join ((49 ∷ []) ∷ (51 ∷ 48 ∷ []) ∷ [])) true
        ≡ ok (map (int_from 0) ((49 ∷ []) ∷ (51 ∷ 48 ∷ []) ∷ [])))
    × (oid2tuple (join ((49 ∷ []) ∷ (51 ∷ 48 ∷ []) ∷ [])) true
        ≡ ok (internet_prefix ++ map (int_from 0) ((49 ∷ []) ∷ (51 ∷ 48 ∷ []) ∷ [])))
unfolding is_group
oid2tuple-join_example = oid2tuple-join (49 ∷ []) ((51 ∷ 48 ∷ []) ∷ []) refl (refl, tt)

update_interval_bounds_example :
    (5 ≤ get_next_update_interval 870000 5)
    × (get_next_update_interval 870000 5 ≤ 60)
    × ((60 ≤ get_next_update_interval 870000 5)
        ⊎ (870000 * 10 ≤ get_next_update_interval 870000 5 * 1000000))
update_interval_bounds_example = update_interval_bounds 870000 5

-- A Get PDU with the context "abc" whose payload length counts the range alone.
abbrev context_header : PduHeader
context_header = record get_next_header { type_ = 5; flags = 24 }

read_get_context_example :
    read_get get_body context_header
      ((0 ∷ 0 ∷ 0 ∷ 3 ∷ 97 ∷ 98 ∷ 99 ∷ 0 ∷ []) ++ ((mib_2_bytes ++ mib_2_bytes) ++ (7 ∷ [])))
    ≡ ok (record {
      header = context_header;
      body = get_body (some abc) (mib_2_range ∷ []);
      trailing_bytes = 7 ∷ [];
    })
unfolding Octets.to_bytes pack pad4 concat_bytes Range.to_bytes Oid.to_bytes pack_longs
    Header.flag_non_default_context Header.has_flag Header.endianness
read_get_context_example =
    read_get_context context_header abc (0 ∷ 0 ∷ 0 ∷ 3 ∷ 97 ∷ 98 ∷ 99 ∷ 0 ∷ []) (mib_2_range ∷ [])
      (mib_2_bytes ++ mib_2_bytes) (7 ∷ []) refl (record { counted = refl; padded = refl }) refl
      (record { start = record { counted = refl }; end = record { counted = refl } }, tt) refl refl

-- A Response PDU with the integer -1, which is read back as 4294967295.
abbrev response_header : PduHeader
response_header = record get_next_header { type_ = 18; payload_length = 24 }

abbrev response_bytes : List ℕ
response_bytes =
    (1 ∷ 18 ∷ 16 ∷ 0 ∷ 0 ∷ 0 ∷ 0 ∷ 5 ∷ 0 ∷ 0 ∷ 0 ∷ 1 ∷ 0 ∷ 0 ∷ 0 ∷ 2 ∷ 0 ∷ 0 ∷ 0 ∷ 24 ∷ [])
    ++ ((0 ∷ 0 ∷ 0 ∷ 7 ∷ 0 ∷ 0 ∷ 0 ∷ 0 ∷ [])
        ++ ((0 ∷ 2 ∷ 0 ∷ 0 ∷ []) ++ (mib_2_bytes ++ (255 ∷ 255 ∷ 255 ∷ 255 ∷ []))))

decode-encode_response_example :
    decode (response_bytes ++ (7 ∷ []))
    ≡ ok (record {
      header = response_header;
      body = response_body 7 0 0 (map read_back (minus_one ∷ []));
      trailing_bytes = 7 ∷ [];
    })
unfolding encode Header.to_bytes Header.endianness pack pack_longs Oid.to_bytes Value.to_bytes
    layout type_code Header.has_flag
decode-encode_response_example =
    decode-encode_response response_header 7 0 0 (minus_one ∷ [])
      (record { name = record { counted = refl }; value = tt }, tt) (7 ∷ []) [] response_bytes refl
      refl refl
