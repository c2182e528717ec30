-- ===== src/Pdu/Shrinks.antt =====
-- The bytes that each class of PDU leaves.
use sonic_snmpagent.Prelude.{
  ℕ, zero, suc, ◌+◌, ◌-◌, ◌≤◌, ◌≡◌, arith, List, [], ◌∷◌, length, take, drop, Option, Result, ok,
  err, >>=-eq-ok, Bool-cases, inl, inr, length-drop, ltb, Result-cases,
}
use sonic_snmpagent.Struct.{Endian, half, long, unpack}
use sonic_snmpagent.Encodings.Octets.{OctetString}
use sonic_snmpagent.Encodings.Range.{SearchRange}
use sonic_snmpagent.Encodings.Value.{ValueRepresentation}
use sonic_snmpagent.Pdu.Header
use sonic_snmpagent.Pdu.Header.{PduHeader, flag_non_default_context}
use sonic_snmpagent.Pdu.Items.{read_items, read_range, read_binding, read_ranges, read_bindings}
use sonic_snmpagent.Pdu.Body.{
  Body, get_body, get_next_body, commit_set_body, undo_set_body, cleanup_set_body, Pdu,
  read_context, read_open, read_close, read_register, read_get, read_test_set, read_plain,
  read_ping, read_response,
}
use sonic_snmpagent.Pdu.Codec.{decode, construct, or_decode_error}

length-drop_le {ℓ} : {A : Type ℓ} (n : ℕ) (xs : List A) → length (drop n xs) ≤ length xs
length-drop_le n xs = omega (arith, length-drop n xs)

module _ {A : Type 0} (read_one : List ℕ → Result (A × ℕ)) where
  read_items_shrinks :
      (fuel limit read : ℕ) (bs : List ℕ) (items : List A) (rest : List ℕ)
      → read_items read_one fuel limit read bs ≡ ok (items, rest)
      → length rest ≤ length bs
  unfolding read_items
  read_items_shrinks fuel limit read [] items rest h = ground arith
  read_items_shrinks zero limit read (b ∷ bs) items rest h = cc
  read_items_shrinks (suc fuel) limit read (b ∷ bs) items rest h =
      elim (Bool-cases (ltb read limit)) [
        | inr stop ↦ ground (arith, stop)
        | inl more ↦ elim (Result-cases (read_one (b ∷ bs))) [
          | inr (x, e) ↦ cc (rw (more, e) at h)
          | inl ((a, n), e) ↦
              let ((items', rest'), p, q) =
                >>=-eq-ok (read_items read_one fuel limit (read + n) (drop n (b ∷ bs))) _
                  (rw (more, e) at h) in
              let ih = read_items_shrinks fuel limit (read + n) (drop n (b ∷ bs)) items' rest' p in
              ground (arith, ih, q, length-drop_le n (b ∷ bs))
        ]
      ]

read_ranges_shrinks :
    (e : Endian) (limit : ℕ) (bs : List ℕ) (items : List SearchRange) (rest : List ℕ)
    → read_ranges e limit bs ≡ ok (items, rest)
    → length rest ≤ length bs
unfolding read_ranges
read_ranges_shrinks e limit bs items rest h =
    read_items_shrinks (read_range e) (length bs) limit 0 bs items rest h

read_bindings_shrinks :
    (e : Endian) (limit : ℕ) (bs : List ℕ) (items : List ValueRepresentation) (rest : List ℕ)
    → read_bindings e limit bs ≡ ok (items, rest)
    → length rest ≤ length bs
unfolding read_bindings
read_bindings_shrinks e limit bs items rest h =
    read_items_shrinks (read_binding e) (length bs) limit 0 bs items rest h

context_shrinks :
    (h : PduHeader) (bs : List ℕ) (c : Option OctetString) (rest : List ℕ)
    → read_context h bs ≡ ok (c, rest)
    → length rest ≤ length bs
unfolding read_context
context_shrinks h bs c rest p = grind (arith, length-drop_le)

read_open_shrinks :
    (h : PduHeader) (bs : List ℕ) (pdu : Pdu)
    → read_open h bs ≡ ok pdu
    → length pdu.trailing_bytes ≤ length bs
unfolding read_open
read_open_shrinks h bs pdu p = grind (arith, length-drop_le)

read_close_shrinks :
    (h : PduHeader) (bs : List ℕ) (pdu : Pdu)
    → read_close h bs ≡ ok pdu
    → length pdu.trailing_bytes ≤ length bs
unfolding read_close
read_close_shrinks h bs pdu p = ground arith

read_register_shrinks :
    (h : PduHeader) (bs : List ℕ) (pdu : Pdu)
    → read_register h bs ≡ ok pdu
    → length pdu.trailing_bytes ≤ length bs
unfolding read_register
read_register_shrinks h bs pdu p = grind (arith, length-drop_le)

read_get_shrinks :
    (body : Option OctetString → List SearchRange → Body) (h : PduHeader) (bs : List ℕ) (pdu : Pdu)
    → read_get body h bs ≡ ok pdu
    → length pdu.trailing_bytes ≤ length bs
unfolding read_get
read_get_shrinks body h bs pdu p =
    let ((context, bs'), q, p') = >>=-eq-ok (read_context h bs) _ p in
    let ((sr, rest), r, e) =
      >>=-eq-ok (read_ranges (Header.endianness h.flags) h.payload_length bs') _ p' in
    ground (
      arith,
      e,
      context_shrinks h bs context bs' q,
      read_ranges_shrinks (Header.endianness h.flags) h.payload_length bs' sr rest r,
    )

read_plain_shrinks :
    (body : Body) (h : PduHeader) (bs : List ℕ) (pdu : Pdu)
    → read_plain body h bs ≡ ok pdu
    → length pdu.trailing_bytes ≤ length bs
unfolding read_plain
read_plain_shrinks body h bs pdu p = ground arith

read_test_set_shrinks :
    (h : PduHeader) (bs : List ℕ) (pdu : Pdu)
    → read_test_set h bs ≡ ok pdu
    → length pdu.trailing_bytes ≤ length bs
unfolding read_test_set
read_test_set_shrinks h bs pdu p = grind arith

read_ping_shrinks :
    (h : PduHeader) (bs : List ℕ) (pdu : Pdu)
    → read_ping h bs ≡ ok pdu
    → length pdu.trailing_bytes ≤ length bs
unfolding read_ping
read_ping_shrinks h bs pdu p = grind (arith, length-drop_le)

read_response_shrinks :
    (h : PduHeader) (bs : List ℕ) (pdu : Pdu)
    → read_response h bs ≡ ok pdu
    → length pdu.trailing_bytes ≤ length bs
unfolding read_response
read_response_shrinks h bs pdu p =
    let e = Header.endianness h.flags in
    let (fixed, q, p') = >>=-eq-ok (unpack e (long ∷ half ∷ half ∷ []) (take 8 bs)) _ p in
    let ((values, rest), r, s) =
      >>=-eq-ok (read_bindings e (h.payload_length - 8) (drop 8 bs)) _ p' in
    ground (
      arith,
      s,
      read_bindings_shrinks e (h.payload_length - 8) (drop 8 bs) values rest r,
      length-drop_le 8 bs,
    )

construct_shrinks :
    (h : PduHeader) (bs : List ℕ) (pdu : Pdu)
    → construct h bs ≡ ok pdu
    → length pdu.trailing_bytes ≤ length bs
unfolding construct
construct_shrinks h bs pdu p = ground (
  arith,
  read_open_shrinks h bs pdu,
  read_close_shrinks h bs pdu,
  read_register_shrinks h bs pdu,
  read_get_shrinks get_body h bs pdu,
  read_get_shrinks get_next_body h bs pdu,
  read_test_set_shrinks h bs pdu,
  read_plain_shrinks commit_set_body h bs pdu,
  read_plain_shrinks undo_set_body h bs pdu,
  read_plain_shrinks cleanup_set_body h bs pdu,
  read_ping_shrinks h bs pdu,
  read_response_shrinks h bs pdu,
)

or_decode_ok : (r : Result Pdu) (pdu : Pdu) → or_decode_error r ≡ ok pdu → r ≡ ok pdu
unfolding or_decode_error
or_decode_ok (ok a) pdu h = h
or_decode_ok (err e) pdu h = ground arith

-- A decoded PDU has taken the twenty bytes of its header, and leaves no more than the rest.
pub decode_shrinks :
    (bs : List ℕ) (pdu : Pdu) → decode bs ≡ ok pdu → length pdu.trailing_bytes + 20 ≤ length bs
unfolding decode
decode_shrinks bs pdu p = elim (Bool-cases (ltb (length bs) 20)) [
  | inl short ↦ ground arith
  | inr long_enough ↦
      let (h, q, r) = >>=-eq-ok (Header.from_bytes bs) _ (rw long_enough at p) in
      ground (
        arith,
        construct_shrinks h (drop 20 bs) pdu (or_decode_ok (construct h (drop 20 bs)) pdu r),
        length-drop 20 bs,
      )
]
