-- ===== src/Encodings/Range.antt =====
-- The class SearchRange of src/ax_interface/encodings.py.
pub mod RoundTrip
use sonic_snmpagent.Prelude.{
  ℕ, ◌+◌, ◌≡◌, refl, List, ◌++◌, drop, Result, ok, ◌>>=◌, >>=-eq-ok, drop-append,
}
use sonic_snmpagent.Struct.{Endian}
use sonic_snmpagent.Encodings.Oid
use sonic_snmpagent.Encodings.Oid.{ObjectIdentifier, IsWellFormed}
use sonic_snmpagent.Encodings.Oid.RoundTrip.{length-to_bytes, oid_from_bytes-to_bytes}
use mathlib.Core.List.{append_assoc}

pub record SearchRange : Type 0 where
  pub start : ObjectIdentifier
  pub end : ObjectIdentifier

unfoldable pub size : SearchRange → ℕ
size sr = Oid.size sr.start + Oid.size sr.end

unfoldable pub to_bytes : Endian → SearchRange → Result (List ℕ)
to_bytes e sr = do start ← Oid.to_bytes e sr.start; end ← Oid.to_bytes e sr.end; ok (start ++ end)

unfoldable pub from_bytes : Endian → List ℕ → Result SearchRange
from_bytes e byte_string = do
  start ← Oid.from_bytes e byte_string
  end ← Oid.from_bytes e (drop (Oid.size start) byte_string)
  ok (record { start = start; end = end })

pub record IsRange (sr : SearchRange) : Type 0 where
  pub start : IsWellFormed sr.start
  pub end : IsWellFormed sr.end
