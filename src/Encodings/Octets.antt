-- ===== src/Encodings/Octets.antt =====
-- The class OctetString of src/ax_interface/encodings.py.
pub mod RoundTrip
use sonic_snmpagent.Prelude.{
  ℕ, ◌+◌, ◌<◌, ◌≡◌, List, [], ◌∷◌, ◌++◌, length, take, Result, ok, err, value_error, ◌>>=◌, Bool,
  true, ◌&&◌, ltb, if◌then◌else◌,
}
use sonic_snmpagent.Struct.{Endian, Code, text, long, calcsize, pack, unpack}
use sonic_snmpagent.Util.{pad4, pad4bytes}

pub record OctetString : Type 0 where
  pub len : ℕ
  pub string : List ℕ
  pub padding : List ℕ

-- The argument of `from_string`: a `str`, by its code points, or a `bytes`.
pub data Text : Type 0 where
  str : List ℕ → Text
  raw : List ℕ → Text

unfoldable pub is_latin1 : List ℕ → Bool
is_latin1 [] = true
is_latin1 (c ∷ cs) = ltb c 256 && is_latin1 cs

unfoldable pub size : OctetString → ℕ
size s = 4 + s.len + pad4 s.len

-- A character outside latin-1 raises UnicodeEncodeError, which is a ValueError.
unfoldable pub from_string : Text → Result OctetString
unfolding is_latin1
from_string (str s) =
    if is_latin1 s
    then ok (record { len = length s; string = s; padding = pad4bytes (length s) })
    else err value_error
from_string (raw s) = ok (record { len = length s; string = s; padding = pad4bytes (length s) })

-- The format `L{n}s{pad4(n)}s`.
abbrev pub octets_format : ℕ → List Code
octets_format n = long ∷ text n ∷ text (pad4 n) ∷ []

unfoldable pub to_bytes : Endian → OctetString → Result (List ℕ)
to_bytes e s = pack e (octets_format s.len) (s.len, (s.string, (s.padding, tt)))

unfoldable pub from_bytes : Endian → List ℕ → Result OctetString
from_bytes e byte_string = do
  (string_length, _) ← unpack e (long ∷ []) (take 4 byte_string)
  let size = calcsize (octets_format string_length)
  (len, (string, (padding, _))) ← unpack e (octets_format string_length) (take size byte_string)
  ok (record { len = len; string = string; padding = padding })

-- The length field counts the string, and the padding fills a multiple of four.
pub record IsWellFormed (s : OctetString) : Type 0 where
  pub counted : length s.string ≡ s.len
  pub padded : length s.padding ≡ pad4 s.len
