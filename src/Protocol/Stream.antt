-- ===== src/Protocol/Stream.antt =====
-- The rounds that a stream of PDUs takes.
use sonic_snmpagent.Prelude.{
  ℕ, zero, suc, ◌≤◌, ◌≡◌, refl, ap, arith, List, [], ◌∷◌, length, ok, err, Exn, ◌⊎◌, inl, inr,
  Result-cases,
}
use mathlib.Core.Path.{fun_ext}
use sonic_snmpagent.Mib.Table.{MibTable}
use sonic_snmpagent.Pdu.Body.{Pdu}
use sonic_snmpagent.Pdu.Codec.{decode}
use sonic_snmpagent.Pdu.Shrinks.{decode_shrinks}
use sonic_snmpagent.Protocol.{AgentX, Outcome, and_then, handle_pdu, handle_stream}

-- What the loop over a stream leaves, without a bound on its rounds: a stream that it never comes to
-- the end of has no derivation.
pub data Handles (t : MibTable) : List ℕ → AgentX → Outcome → Type 0 where
  done : {s : AgentX} → Handles t [] s (ok tt, s)
  undecoded :
      {b : ℕ} {bs : List ℕ} {s : AgentX} {e : Exn}
      → decode (b ∷ bs) ≡ err e
      → Handles t (b ∷ bs) s (err e, s)
  raises :
      {b : ℕ} {bs : List ℕ} {s s' : AgentX} {e : Exn} (pdu : Pdu)
      → decode (b ∷ bs) ≡ ok pdu
      → handle_pdu t pdu s ≡ (err e, s')
      → Handles t (b ∷ bs) s (err e, s')
  next :
      {b : ℕ} {bs : List ℕ} {s s' : AgentX} {o : Outcome} (pdu : Pdu)
      → decode (b ∷ bs) ≡ ok pdu
      → handle_pdu t pdu s ≡ (ok tt, s')
      → Handles t pdu.trailing_bytes s' o
      → Handles t (b ∷ bs) s o

-- With enough rounds for the bytes, more rounds change nothing.
handle_stream_enough :
    (f g : ℕ) (t : MibTable) (bs : List ℕ) (s : AgentX)
    → length bs ≤ f
    → length bs ≤ g
    → handle_stream f t bs s ≡ handle_stream g t bs s
unfolding handle_stream
handle_stream_enough f g t [] s p q = refl
handle_stream_enough zero g t (b ∷ bs) s p q = absurd (omega arith)
handle_stream_enough (suc f) zero t (b ∷ bs) s p q = absurd (omega arith)
handle_stream_enough (suc f) (suc g) t (b ∷ bs) s p q = elim (Result-cases (decode (b ∷ bs))) [
  | inl (pdu, e) ↦
      let shorter = decode_shrinks (b ∷ bs) pdu e in
      let same =
        fun_ext
          λ s'. handle_stream_enough f g t pdu.trailing_bytes s' (omega arith) (omega arith) in
      rw e (ap (and_then (handle_pdu t pdu s)) same)
  | inr (x, e) ↦ rw e
]

Outcome-cases :
    (o : Outcome)
    → ((s : AgentX) × (o ≡ (ok tt, s))) ⊎ ((e : Exn) × (s : AgentX) × (o ≡ (err e, s)))
Outcome-cases (ok _, s) = inl (s, refl)
Outcome-cases (err e, s) = inr (e, s, refl)

handle_stream-Handles :
    (fuel : ℕ) (t : MibTable) (bs : List ℕ) (s : AgentX)
    → length bs ≤ fuel
    → Handles t bs s (handle_stream fuel t bs s)
unfolding handle_stream
handle_stream-Handles fuel t [] s h = Handles.done
handle_stream-Handles zero t (b ∷ bs) s h = absurd (omega arith)
handle_stream-Handles (suc fuel) t (b ∷ bs) s h = elim (Result-cases (decode (b ∷ bs))) [
  | inr (x, e) ↦ rw e (Handles.undecoded e)
  | inl (pdu, e) ↦ elim (Outcome-cases (handle_pdu t pdu s)) [
    | inr (x, s', p) ↦ rw (e, p) (Handles.raises pdu e p)
    | inl (s', p) ↦
        let shorter = decode_shrinks (b ∷ bs) pdu e in
        rw (e, p)
          (Handles.next pdu e p (handle_stream-Handles fuel t pdu.trailing_bytes s' (omega arith)))
  ]
]

-- With any number of rounds from the number of bytes on, the loop over a stream comes to an end:
-- its result is that of the loop without a bound on its rounds, and the same for all these
-- numbers.
pub handle_stream_fuel :
    (fuel : ℕ) (t : MibTable) (bs : List ℕ) (s : AgentX)
    → length bs ≤ fuel
    → Handles t bs s (handle_stream fuel t bs s)
      × (handle_stream fuel t bs s ≡ handle_stream (length bs) t bs s)
handle_stream_fuel fuel t bs s h = (
  handle_stream-Handles fuel t bs s h,
  handle_stream_enough fuel (length bs) t bs s h (omega arith),
)
