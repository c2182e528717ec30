-- ===== src/Encodings/Octets/RoundTrip.antt =====
-- Octet strings on the wire.
use sonic_snmpagent.Prelude.{ℕ, ◌≡◌, refl, arith, List, ◌++◌, length, ok, take-append}
use sonic_snmpagent.Struct.{Endian, long, calcsize}
use sonic_snmpagent.Struct.RoundTrip.{pack_size, unpack-pack, unpack_first, AllExact}
use sonic_snmpagent.Util.{length-pad4bytes}
use sonic_snmpagent.Encodings.Octets.{
  OctetString, IsWellFormed, from_string, Text, str, raw, octets_format, size, to_bytes, from_bytes,
}

-- `from_string` makes a well-formed string.
pub from_string-IsWellFormed : (t : Text) (s : OctetString) → from_string t ≡ ok s → IsWellFormed s
unfolding from_string
from_string-IsWellFormed (str cs) s h = ground (arith, length-pad4bytes (length cs))
from_string-IsWellFormed (raw cs) s h = ground (arith, length-pad4bytes (length cs))

module _ (e : Endian) (s : OctetString) (bs : List ℕ) (w : IsWellFormed s)
    (h : to_bytes e s ≡ ok bs) where
  abbrev exact : AllExact (octets_format s.len) (s.len, (s.string, (s.padding, tt)))
  exact = (tt, (w.counted, (w.padded, tt)))

  -- The size property tells how many bytes `to_bytes` writes.
  pub length-to_bytes : length bs ≡ size s
  unfolding to_bytes size
  length-to_bytes = ground (arith, pack_size e (octets_format s.len) _ exact h)

  -- `from_bytes` returns the string that `to_bytes` wrote, whatever bytes follow it. The string is
  -- well-formed.
  pub octets_from_bytes-to_bytes : (more : List ℕ) → from_bytes e (bs ++ more) ≡ ok s
  unfolding from_bytes to_bytes
  octets_from_bytes-to_bytes more =
      rw
        (
          unpack_first e long _ s.len _ bs more tt h,
          take-append (calcsize (octets_format s.len)) bs more
              (pack_size e (octets_format s.len) _ exact h),
          unpack-pack e (octets_format s.len) _ bs exact h,
        )
        refl
