-- ===== src/Protocol.antt =====
-- src/ax_interface/protocol.py: the AgentX session over one connection. The methods change the
-- object and may raise, so they return the new state beside the result.
pub mod Session
pub mod Registration
pub mod Stream
use sonic_snmpagent.Prelude.{
  ℕ, zero, suc, ◌+◌, List, [], ◌∷◌, ◌++◌, length, Option, none, some, Result, ok, err, agent_error,
  attribute_error, out_of_fuel, Bool, true, false, ◌==◌, if◌then◌else◌, ◌>>=◌,
}
use sonic_snmpagent.Constants.{default_pdu_timeout}
use sonic_snmpagent.Encodings.Oid
use sonic_snmpagent.Encodings.Oid.{null_oid}
use sonic_snmpagent.Encodings.Octets.{Text}
use sonic_snmpagent.Mib.Table.{MibTable}
use sonic_snmpagent.Pdu.Header.{PduHeader}
use sonic_snmpagent.Pdu.Body.{
  Body, open_body, close_body, register_body, get_body, get_next_body, test_set_body,
  commit_set_body, undo_set_body, cleanup_set_body, ping_body, response_body, Pdu,
}
use sonic_snmpagent.Pdu.Errors.{error_code, parse_error, open_failed, no_agent_x_error}
use sonic_snmpagent.Pdu.Codec.{decode, encode}
use sonic_snmpagent.Pdu.Make.{new_open, new_register, make_response}

-- `session_id` is `none` for -1. `transport` says whether there is one, `sent` what was written to
-- it, and `aborted` whether the agent has closed it; `closed` is the event.
pub record AgentX : Type 0 where
  pub session_id : Option ℕ
  pub counter : ℕ
  pub transport : Bool
  pub sent : List (List ℕ)
  pub aborted : Bool
  pub closed : Bool

abbrev pub init : AgentX
init = record {
  session_id = none;
  counter = 0;
  transport = false;
  sent = [];
  aborted = false;
  closed = false;
}

-- What a method leaves: whether it returned or raised, and the state.
abbrev pub Outcome : Type 0
Outcome = Result (Unit {0}) × AgentX

-- `self.transport.write(bytes)`: without a connection `transport` is None.
unfoldable pub write : AgentX → List ℕ → Outcome
write s bytes =
    if s.transport
    then (ok tt, record s { sent = s.sent ++ (bytes ∷ []) })
    else (err attribute_error, s)

unfoldable pub write_result : AgentX → Result (List ℕ) → Outcome
unfolding write
write_result s (ok bytes) = write s bytes
write_result s (err e) = (err e, s)

unfoldable pub send_pdu : AgentX → Pdu → Outcome
unfolding write_result
send_pdu s pdu = write_result s (encode pdu)

unfoldable pub send_result : AgentX → Result Pdu → Outcome
unfolding send_pdu
send_result s (ok pdu) = send_pdu s pdu
send_result s (err e) = (err e, s)

unfoldable pub connection_made : AgentX → AgentX
connection_made s = record s { transport = true }

-- Version 1, type Open, network byte order.
abbrev pub open_header : PduHeader
open_header = record {
  version = 1;
  type_ = 1;
  flags = 16;
  reserved = 0;
  session_id = 0;
  transaction_id = 0;
  packet_id = 0;
  payload_length = 0;
}

-- `descr` is SNMP_SUBAGENT_NAME.
unfoldable pub opening_handshake : Text → AgentX → Outcome
unfolding send_result
opening_handshake descr s = send_result s (new_open open_header default_pdu_timeout null_oid descr)

-- A step, and the rest only if it did not raise.
unfoldable pub and_then : Outcome → (AgentX → Outcome) → Outcome
and_then (ok _, s) rest = rest s
and_then (err e, s) rest = (err e, s)

unfoldable pub register_pdu : PduHeader → ℕ → List ℕ → Result Pdu
register_pdu h idx subtree = do
  oid ← Oid.from_iterable subtree
  new_register h default_pdu_timeout idx 0 oid

-- The loop of `register_subtrees`: the index is the priority.
unfoldable pub register_from : PduHeader → ℕ → List (List ℕ) → AgentX → Outcome
unfolding send_result and_then
register_from h idx [] s = (ok tt, s)
register_from h idx (subtree ∷ rest) s =
    and_then (send_result s (register_pdu h idx subtree)) (register_from h (idx + 1) rest)

unfoldable pub register_subtrees : MibTable → PduHeader → AgentX → Outcome
unfolding register_from
register_subtrees t h s = register_from h 0 t.prefixes (record s { session_id = some h.session_id })

-- `self.transport.close()`
unfoldable pub close_transport : AgentX → Outcome
close_transport s =
    if s.transport then (ok tt, record s { aborted = true }) else (err attribute_error, s)

-- The errors PARSE_ERROR, OPEN_FAILED and NO_AGENT_X_ERROR, before a session is established.
unfoldable pub first_response : MibTable → PduHeader → ℕ → AgentX → Outcome
unfolding register_subtrees close_transport
first_response t h error s =
    if error == error_code parse_error
    then close_transport s
    else if error == error_code open_failed
    then (ok tt, s)
    else if error == error_code no_agent_x_error
    then register_subtrees t h s
    else (err agent_error, s)

-- Within a session a response is only logged.
unfoldable pub unless_established : Option ℕ → AgentX → Outcome → Outcome
unless_established none s first = first
unless_established (some _) s first = (ok tt, s)

unfoldable pub parse_response : MibTable → PduHeader → ℕ → AgentX → Outcome
unfolding first_response unless_established
parse_response t h error s = unless_established s.session_id s (first_response t h error s)

unfoldable pub handle_body : MibTable → PduHeader → Body → AgentX → Outcome → Outcome
handle_body t h (response_body sys_up_time error index values) s other = parse_response t h error s
handle_body t h _ s other = other

-- A response is parsed; to any other PDU a response is made and written.
unfoldable pub handle_pdu : MibTable → Pdu → AgentX → Outcome
unfolding handle_body
handle_pdu t pdu s =
    handle_body t pdu.header pdu.body s
      (write_result s (do reply ← make_response t pdu; encode reply))

unfoldable pub with_pdu : Result Pdu → AgentX → (Pdu → Outcome) → Outcome
with_pdu (ok pdu) s go = go pdu
with_pdu (err e) s go = (err e, s)

-- `for pdu in PDUStream(data)`: each PDU is handled before the next is decoded.
unfoldable pub handle_stream : ℕ → MibTable → List ℕ → AgentX → Outcome
unfolding with_pdu and_then
handle_stream fuel t [] s = (ok tt, s)
handle_stream zero t (b ∷ bs) s = (err out_of_fuel, s)
handle_stream (suc fuel) t (b ∷ bs) s =
    with_pdu (decode (b ∷ bs)) s
      (λ pdu. and_then (handle_pdu t pdu s) (λ s'. handle_stream fuel t pdu.trailing_bytes s'))

-- Every exception of the loop is caught and logged.
unfoldable pub data_received : MibTable → List ℕ → AgentX → AgentX
unfolding handle_stream
data_received t bytes s =
    (handle_stream (length bytes) t bytes (record s { counter = s.counter + 1 })).1

unfoldable pub connection_lost : AgentX → AgentX
connection_lost s = record s { closed = true }
