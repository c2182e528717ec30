-- ===== src/Encodings/Oid.antt =====
-- The class ObjectIdentifier of src/ax_interface/encodings.py.
pub mod RoundTrip
pub mod Names
use sonic_snmpagent.Prelude.{
  ℕ, zero, suc, ◌+◌, ◌*◌, ◌<◌, ◌≡◌, List, [], ◌∷◌, ◌++◌, length, take, drop, All, Result, ok, err,
  index_error, ◌>>=◌, ◌==◌, if◌then◌else◌, Bool, true, false, ◌&&◌,
}
use sonic_snmpagent.Constants.{internet_prefix}
use sonic_snmpagent.Struct.{Endian, byte, pack, unpack, pack_longs, unpack_longs}

pub record ObjectIdentifier : Type 0 where
  pub n_subid : ℕ
  pub prefix_ : ℕ
  pub include : ℕ
  pub reserved : ℕ
  pub subids : List ℕ

unfoldable pub prefix : ObjectIdentifier → List ℕ
prefix o = if o.prefix_ == 0 then [] else internet_prefix ++ (o.prefix_ ∷ [])

unfoldable pub size : ObjectIdentifier → ℕ
size o = 4 + 4 * o.n_subid

unfoldable pub to_tuple : ObjectIdentifier → List ℕ
unfolding prefix
to_tuple o = prefix o ++ o.subids

unfoldable pub to_bytes : Endian → ObjectIdentifier → Result (List ℕ)
to_bytes e o = do
  header ←
      pack e (byte ∷ byte ∷ byte ∷ byte ∷ [])
        (o.n_subid, (o.prefix_, (o.include, (o.reserved, tt))))
  rest ← pack_longs e o.subids
  ok (header ++ rest)

-- `subids[:-1] + (subids[-1] + 1,)`; the last element of an empty tuple is an IndexError.
unfoldable pub inc_last : List ℕ → Result (List ℕ)
inc_last [] = err index_error
inc_last (x ∷ []) = ok ((x + 1) ∷ [])
inc_last (x ∷ y ∷ xs) = do rest ← inc_last (y ∷ xs); ok (x ∷ rest)

unfoldable pub inc : ObjectIdentifier → Result ObjectIdentifier
unfolding inc_last
inc o = do newsubids ← inc_last o.subids; ok (record o { subids = newsubids })

abbrev pub null_oid : ObjectIdentifier
null_oid = record { n_subid = 0; prefix_ = 0; include = 0; reserved = 0; subids = [] }

-- `tuple(xs) == tuple(ys)`
unfoldable pub eq_tuple : List ℕ → List ℕ → Bool
eq_tuple [] [] = true
eq_tuple [] (y ∷ ys) = false
eq_tuple (x ∷ xs) [] = false
eq_tuple (x ∷ xs) (y ∷ ys) = x == y && eq_tuple xs ys

abbrev bare : ℕ → List ℕ → ObjectIdentifier
bare p subids = record {
  n_subid = length subids;
  prefix_ = p;
  include = 0;
  reserved = 0;
  subids = subids;
}

-- After the Internet prefix the next number becomes the prefix field; if there is none, indexing
-- raises IndexError.
unfoldable pub strip : List ℕ → Result ObjectIdentifier
strip [] = err index_error
strip (p ∷ subids) = ok (bare p subids)

unfoldable pub from_iterable : List ℕ → Result ObjectIdentifier
unfolding eq_tuple strip
from_iterable subids =
    if eq_tuple (take 4 subids) internet_prefix then strip (drop 4 subids) else ok (bare 0 subids)

unfoldable pub from_bytes : Endian → List ℕ → Result ObjectIdentifier
from_bytes e byte_string = do
  (n_subid, (prefix, (include, (reserved, _)))) ←
      unpack e (byte ∷ byte ∷ byte ∷ byte ∷ []) (take 4 byte_string)
  subids ← unpack_longs e n_subid (drop 4 (take (4 + n_subid * 4) byte_string))
  ok (record {
    n_subid = n_subid;
    prefix_ = prefix;
    include = include;
    reserved = reserved;
    subids = subids;
  })

-- The count that is sent is the number of sub-identifiers.
pub record IsWellFormed (o : ObjectIdentifier) : Type 0 where
  pub counted : o.n_subid ≡ length o.subids

-- Each field fits its place on the wire.
pub record IsPackable (o : ObjectIdentifier) : Type 0 where
  pub n_subid : o.n_subid < 256
  pub prefix_ : o.prefix_ < 256
  pub include : o.include < 256
  pub reserved : o.reserved < 256
  pub subids : All (λ x. x < 4294967296) o.subids
