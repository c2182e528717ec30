-- ===== src/Protocol/Session.antt =====
-- One session for one connection: what received data can change.
use sonic_snmpagent.Prelude.{
  ℕ, zero, suc, ◌+◌, ◌≡◌, refl, sym, ap, ◌∙◌, List, [], ◌∷◌, ◌++◌, length, Option, none, some,
  Result, ok, err, ◌==◌, Bool-cases, inl, inr, true,
}
use mathlib.Core.List.{append-nil, append_assoc}
use sonic_snmpagent.Mib.Table.{MibTable}
use sonic_snmpagent.Pdu.Header.{PduHeader}
use sonic_snmpagent.Pdu.Body.{Body, response_body, Pdu}
use sonic_snmpagent.Pdu.Codec.{decode, encode}
use sonic_snmpagent.Protocol.{
  AgentX, Outcome, write, write_result, send_result, close_transport, register_pdu, and_then,
  register_from, first_response, unless_established, parse_response, handle_body, handle_pdu,
  with_pdu, handle_stream, data_received,
}

-- `s'` is a later state of the session of `s`: an established session keeps its number, what was
-- sent stays sent, a closed transport stays closed, and the connection is not touched.
pub record IsLater (s s' : AgentX) : Type 0 where
  pub session : (i : ℕ) → s.session_id ≡ some i → s'.session_id ≡ some i
  pub extra : List (List ℕ)
  pub sent : s'.sent ≡ s.sent ++ extra
  pub aborted : s.aborted ≡ true → s'.aborted ≡ true
  pub transport : s'.transport ≡ s.transport
  pub closed : s'.closed ≡ s.closed
  pub counter : s'.counter ≡ s.counter

IsLater-refl : (s : AgentX) → IsLater s s
IsLater-refl s = record {
  session = λ i h. h;
  extra = [];
  sent = sym (append-nil s.sent);
  aborted = λ h. h;
  transport = refl;
  closed = refl;
  counter = refl;
}

IsLater-trans : (s t u : AgentX) → IsLater s t → IsLater t u → IsLater s u
IsLater-trans s t u p q = record {
  session = λ i h. q.session i (p.session i h);
  extra = p.extra ++ q.extra;
  sent = q.sent ∙ ap (λ z. z ++ q.extra) p.sent ∙ append_assoc s.sent p.extra q.extra;
  aborted = λ h. q.aborted (p.aborted h);
  transport = q.transport ∙ p.transport;
  closed = q.closed ∙ p.closed;
  counter = q.counter ∙ p.counter;
}

write-IsLater : (s : AgentX) (bytes : List ℕ) → IsLater s (write s bytes).1
unfolding write
write-IsLater s bytes = elim (Bool-cases s.transport) [
  | inl e ↦ simp e (record {
    session = λ i h. h;
    extra = bytes ∷ [];
    sent = refl;
    aborted = λ h. h;
    transport = sym e;
    closed = refl;
    counter = refl;
  })
  | inr e ↦ simp e (IsLater-refl s)
]

write_result-IsLater : (s : AgentX) (r : Result (List ℕ)) → IsLater s (write_result s r).1
unfolding write_result
write_result-IsLater s (ok bytes) = write-IsLater s bytes
write_result-IsLater s (err e) = IsLater-refl s

send_result-IsLater : (s : AgentX) (r : Result Pdu) → IsLater s (send_result s r).1
unfolding send_result
send_result-IsLater s (ok pdu) = write_result-IsLater s (encode pdu)
send_result-IsLater s (err e) = IsLater-refl s

and_then-IsLater :
    (s : AgentX) (o : Outcome) (rest : AgentX → Outcome)
    → IsLater s o.1
    → ((s' : AgentX) → IsLater s' (rest s').1)
    → IsLater s (and_then o rest).1
unfolding and_then
and_then-IsLater s (ok _, s') rest p q = IsLater-trans s s' (rest s').1 p (q s')
and_then-IsLater s (err e, s') rest p q = p

register_from-IsLater :
    (h : PduHeader) (idx : ℕ) (subtrees : List (List ℕ)) (s : AgentX)
    → IsLater s (register_from h idx subtrees s).1
unfolding register_from
register_from-IsLater h idx [] s = IsLater-refl s
register_from-IsLater h idx (subtree ∷ rest) s =
    and_then-IsLater s (send_result s (register_pdu h idx subtree)) (register_from h (idx + 1) rest)
      (send_result-IsLater s (register_pdu h idx subtree)) (register_from-IsLater h (idx + 1) rest)

start_session :
    (s : AgentX) (i : ℕ) → s.session_id ≡ none → IsLater s (record s { session_id = some i })
start_session s i e = record {
  session = λ j h. cc;
  extra = [];
  sent = sym (append-nil s.sent);
  aborted = λ h. h;
  transport = refl;
  closed = refl;
  counter = refl;
}

close_transport-IsLater : (s : AgentX) → IsLater s (close_transport s).1
unfolding close_transport
close_transport-IsLater s = elim (Bool-cases s.transport) [
  | inl e ↦ simp e (record {
    session = λ i h. h;
    extra = [];
    sent = sym (append-nil s.sent);
    aborted = λ h. refl;
    transport = sym e;
    closed = refl;
    counter = refl;
  })
  | inr e ↦ simp e (IsLater-refl s)
]

module _ (t : MibTable) (h : PduHeader) (error : ℕ) (s : AgentX) where
  first_response-IsLater : s.session_id ≡ none → IsLater s (first_response t h error s).1
  unfolding first_response
  first_response-IsLater fresh = elim (Bool-cases (error == 266)) [
    | inl e ↦ simp e (close_transport-IsLater s)
    | inr e ↦ elim (Bool-cases (error == 256)) [
      | inl e' ↦ simp (e, e') (IsLater-refl s)
      | inr e' ↦ elim (Bool-cases (error == 0)) [
        | inl z ↦ simp (e, e', z) registered
        | inr z ↦ simp (e, e', z) (IsLater-refl s)
      ]
    ]
  ]
    where
      registered :
          IsLater s (register_from h 0 t.prefixes (record s { session_id = some h.session_id })).1
      registered =
          IsLater-trans s (record s { session_id = some h.session_id }) _
            (start_session s h.session_id fresh)
            (register_from-IsLater h 0 t.prefixes (record s { session_id = some h.session_id }))

  parse_response-IsLater : IsLater s (parse_response t h error s).1
  parse_response-IsLater = unfold parse_response in by_session s.session_id first_response-IsLater
    where
      by_session :
          (o : Option ℕ)
          → (o ≡ none → IsLater s (first_response t h error s).1)
          → IsLater s (unless_established o s (first_response t h error s)).1
      by_session none first = unfold unless_established in first refl
      by_session (some i) first = unfold unless_established in IsLater-refl s

  handle_body-IsLater :
      (body : Body) (other : Outcome)
      → IsLater s other.1
      → ((e : ℕ) → IsLater s (parse_response t h e s).1)
      → IsLater s (handle_body t h body s other).1
  unfolding handle_body
  handle_body-IsLater (response_body sys_up_time e index values) other p q = q e
  handle_body-IsLater _ other p q = p

handle_pdu-IsLater : (t : MibTable) (pdu : Pdu) (s : AgentX) → IsLater s (handle_pdu t pdu s).1
unfolding handle_pdu
handle_pdu-IsLater t pdu s =
    handle_body-IsLater t pdu.header 0 s pdu.body _ (write_result-IsLater s _)
      (λ e. parse_response-IsLater t pdu.header e s)

with_pdu-IsLater :
    (r : Result Pdu) (s : AgentX) (go : Pdu → Outcome)
    → ((pdu : Pdu) → IsLater s (go pdu).1)
    → IsLater s (with_pdu r s go).1
unfolding with_pdu
with_pdu-IsLater (ok pdu) s go p = p pdu
with_pdu-IsLater (err e) s go p = IsLater-refl s

handle_stream-IsLater :
    (fuel : ℕ) (t : MibTable) (bs : List ℕ) (s : AgentX) → IsLater s (handle_stream fuel t bs s).1
unfolding handle_stream
handle_stream-IsLater fuel t [] s = IsLater-refl s
handle_stream-IsLater zero t (b ∷ bs) s = IsLater-refl s
handle_stream-IsLater (suc fuel) t (b ∷ bs) s = with_pdu-IsLater (decode (b ∷ bs)) s _ λ pdu.
    and_then-IsLater s (handle_pdu t pdu s) (handle_stream fuel t pdu.trailing_bytes)
      (handle_pdu-IsLater t pdu s) (handle_stream-IsLater fuel t pdu.trailing_bytes)

-- Whatever bytes are received, an established session keeps its number, what was written stays
-- written and only more is appended, a closed transport stays closed, the transport and the
-- `closed` event are as before, and the counter goes up by one.
pub data_received-IsLater :
    (t : MibTable) (bytes : List ℕ) (s : AgentX)
    → IsLater (record s { counter = s.counter + 1 }) (data_received t bytes s)
unfolding data_received
data_received-IsLater t bytes s =
    handle_stream-IsLater (length bytes) t bytes (record s { counter = s.counter + 1 })
