-- ===== src/Protocol/Registration.antt =====
-- The registration of the subtrees.
use sonic_snmpagent.Prelude.{
  ℕ, ◌+◌, ◌-◌, ◌≡◌, sym, ap, ◌∙◌, List, [], ◌∷◌, ◌++◌, length, Option, none, Bool-cases, some,
  Result, ok, ◌>>=◌, >>=-eq-ok, inl, inr, true,
}
use mathlib.Core.List.{append-nil, append_assoc}
use sonic_snmpagent.Mib.Table.{MibTable}
use sonic_snmpagent.Pdu.Header.{PduHeader, flag_non_default_context}
use sonic_snmpagent.Encodings.Oid
use sonic_snmpagent.Encodings.Oid.{ObjectIdentifier}
use sonic_snmpagent.Encodings.Octets
use sonic_snmpagent.Struct.{unpack}
use sonic_snmpagent.Encodings.Octets.{OctetString}
use sonic_snmpagent.Pdu.Body.{Pdu, register_body, read_context}
use sonic_snmpagent.Pdu.Make.{new_register, finish, retype}
use sonic_snmpagent.Pdu.Codec.{encode, encode_parts}
use sonic_snmpagent.Protocol.{
  AgentX, Outcome, send_result, register_pdu, register_from, parse_response,
}

-- The messages that register the subtrees: the position in the list is the priority.
unfoldable pub registrations : PduHeader → ℕ → List (List ℕ) → Result (List (List ℕ))
registrations h idx [] = ok []
registrations h idx (subtree ∷ rest) = do
  pdu ← register_pdu h idx subtree
  bytes ← encode pdu
  more ← registrations h (idx + 1) rest
  ok (bytes ∷ more)

abbrev append_sent : AgentX → List (List ℕ) → AgentX
append_sent s bytes = record s { sent = s.sent ++ bytes }

abbrev sent_only : AgentX → List (List ℕ) → Outcome
sent_only s messages = (ok tt, record s { sent = messages })

send_ok :
    (s : AgentX) (r : Result Pdu) (pdu : Pdu) (bytes : List ℕ)
    → s.transport ≡ true
    → r ≡ ok pdu
    → encode pdu ≡ ok bytes
    → send_result s r ≡ (ok tt, append_sent s (bytes ∷ []))
unfolding send_result
send_ok s r pdu bytes c p q = simp (p, q, c)

register_from_lem :
    (h : PduHeader) (idx : ℕ) (subtrees : List (List ℕ)) (s : AgentX) (messages : List (List ℕ))
    → s.transport ≡ true
    → registrations h idx subtrees ≡ ok messages
    → register_from h idx subtrees s ≡ (ok tt, append_sent s messages)
unfolding register_from registrations
register_from_lem h idx [] s messages c e =
    let same : [] ≡ messages = cc in
    ap (sent_only s) (sym (append-nil s.sent) ∙ ap (λ m. s.sent ++ m) same)
register_from_lem h idx (subtree ∷ rest) s messages c e =
    let (pdu, p, e') = >>=-eq-ok (register_pdu h idx subtree) _ e in
    let (bytes, q, e'') = >>=-eq-ok (encode pdu) _ e' in
    let (more, r, e''') = >>=-eq-ok (registrations h (idx + 1) rest) _ e'' in
    let whole : bytes ∷ more ≡ messages = cc in
    rw (send_ok s (register_pdu h idx subtree) pdu bytes c p q) (
      register_from_lem h (idx + 1) rest (append_sent s (bytes ∷ [])) more c r
      ∙ ap (sent_only s) (append_assoc s.sent (bytes ∷ []) more ∙ ap (λ m. s.sent ++ m) whole))

-- The bytes of a Register PDU for a subtree: the session and the flags of the header, a timeout of
-- five seconds, the priority, and the subtree as a whole, without a context or a range.
abbrev pub IsRegistration : PduHeader → ℕ → List ℕ → List ℕ → Type 0
IsRegistration h priority subtree bytes =
    (oid : ObjectIdentifier) × (n : ℕ) × (Oid.from_iterable subtree ≡ ok oid)
    × (encode (record {
      header = record h { type_ = 3; payload_length = n };
      body = register_body none 5 priority 0 0 oid none;
      trailing_bytes = [];
    })
        ≡ ok bytes)

-- One message for each subtree, with priorities that count up from a number.
abbrev pub AreRegistrations : PduHeader → ℕ → List (List ℕ) → List (List ℕ) → Type 0
AreRegistrations h priority [] [] = Unit
AreRegistrations h priority [] (m ∷ messages) = ⊥
AreRegistrations h priority (subtree ∷ rest) [] = ⊥
AreRegistrations h priority (subtree ∷ rest) (m ∷ messages) =
    IsRegistration h priority subtree m × AreRegistrations h (priority + 1) rest messages

no_context :
    (h : PduHeader) (context : Option OctetString) (rest : List ℕ)
    → read_context h [] ≡ ok (context, rest)
    → context ≡ none
unfolding read_context Octets.from_bytes unpack
no_context h context rest e = elim (Bool-cases (flag_non_default_context h.flags)) [
  | inl announced ↦ let f = rw announced at e in cc
  | inr plain ↦ let f = rw plain at e in cc
]

registered :
    (h : PduHeader) (idx n : ℕ) (context : Option OctetString) (oid : ObjectIdentifier) (pdu : Pdu)
    (bytes : List ℕ)
    → context ≡ none
    → ◌≡◌ {A = Result Pdu}
        (ok (record {
          header = record h { type_ = 3; payload_length = n };
          body = register_body context 5 idx 0 0 oid none;
          trailing_bytes = [];
        }))
        (ok pdu)
    → encode pdu ≡ ok bytes
    → encode (record {
      header = record h { type_ = 3; payload_length = n };
      body = register_body none 5 idx 0 0 oid none;
      trailing_bytes = [];
    })
      ≡ ok bytes
registered h idx n context oid pdu bytes z e q =
    let same : ◌≡◌ {A = Pdu}
        (record {
          header = record h { type_ = 3; payload_length = n };
          body = register_body context 5 idx 0 0 oid none;
          trailing_bytes = [];
        })
        pdu =
      cc in
    rw (← z, same) q

register_pdu-IsRegistration :
    (h : PduHeader) (idx : ℕ) (subtree : List ℕ) (pdu : Pdu) (bytes : List ℕ)
    → register_pdu h idx subtree ≡ ok pdu
    → encode pdu ≡ ok bytes
    → IsRegistration h idx subtree bytes
unfolding register_pdu new_register finish
register_pdu-IsRegistration h idx subtree pdu bytes e q =
    let (oid, p, e1) = >>=-eq-ok (Oid.from_iterable subtree) _ e in
    let ((context, rest), c, e2) = >>=-eq-ok (read_context (retype h 3) []) _ e1 in
    let none_read : context ≡ none = no_context (retype h 3) context rest c in
    let (encoded, r, e3) =
      >>=-eq-ok (encode_parts (retype h 3) (register_body context 5 idx 0 0 oid none)) _ e2 in
    (
      oid,
      length encoded - 20,
      p,
      registered h idx (length encoded - 20) context oid pdu bytes none_read e3 q,
    )

registrations-AreRegistrations :
    (h : PduHeader) (idx : ℕ) (subtrees messages : List (List ℕ))
    → registrations h idx subtrees ≡ ok messages
    → AreRegistrations h idx subtrees messages
unfolding registrations
registrations-AreRegistrations h idx [] [] e = tt
registrations-AreRegistrations h idx [] (m ∷ messages) e = cc
registrations-AreRegistrations h idx (subtree ∷ rest) messages e =
    let (pdu, p, e1) = >>=-eq-ok (register_pdu h idx subtree) _ e in
    let (bytes, q, e2) = >>=-eq-ok (encode pdu) _ e1 in
    let (more, r, e3) = >>=-eq-ok (registrations h (idx + 1) rest) _ e2 in
    let whole : bytes ∷ more ≡ messages = cc in
    rw (← whole) (
      register_pdu-IsRegistration h idx subtree pdu bytes p q,
      registrations-AreRegistrations h (idx + 1) rest more r,
    )

-- The first response without an error starts the session: its number is taken from the header, and
-- one registration for each subtree is written, in the order of the list, with the position as the
-- priority, a timeout of five seconds, and no context or range. The connection is there, and the
-- messages can be encoded.
pub parse_response_starts :
    (t : MibTable) (h : PduHeader) (s : AgentX) (messages : List (List ℕ))
    → s.session_id ≡ none
    → s.transport ≡ true
    → registrations h 0 t.prefixes ≡ ok messages
    → (parse_response t h 0 s
        ≡ (ok tt, record s { session_id = some h.session_id; sent = s.sent ++ messages }))
      × AreRegistrations h 0 t.prefixes messages
unfolding parse_response
parse_response_starts t h s messages fresh c e = (
  simp fresh
      (register_from_lem h 0 t.prefixes (record s { session_id = some h.session_id }) messages c e),
  registrations-AreRegistrations h 0 t.prefixes messages e,
)
