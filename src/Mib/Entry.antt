-- ===== src/Mib/Entry.antt =====
-- The classes MIBEntry, SubtreeMIBEntry, OidMIBEntry and OverlayAdpaterMIBEntry of
-- src/ax_interface/mib.py. The handlers, the code of the MIBs, are functions that return `none` for
-- `None` and may raise.
use sonic_snmpagent.Prelude.{
  ℕ, List, [], ◌++◌, take, drop, Option, none, some, Result, ok, err, not_implemented_error, ◌>>=◌,
}
use sonic_snmpagent.Constants.{ValueType}
use sonic_snmpagent.Encodings.Value.{Data}

-- `scalar` is MIBEntry with its callable and arguments, `subtree` SubtreeMIBEntry with the method
-- `get_next` of its iterator and its callable, `by_oid` OidMIBEntry, and `overlay` the adapter with
-- the underlay first.
pub data Handler : Type 0 where
  scalar : Result (Option Data) → Handler
  subtree : (List ℕ → Result (Option (List ℕ))) → (List ℕ → Result (Option Data)) → Handler
  by_oid : (List ℕ → Result (Option Data)) → Handler
  overlay : Handler → Handler → Handler

-- The attributes `__prefix__` and `__prefixlen__` are set by the class that holds the entry.
pub record MibEntry : Type 0 where
  pub value_type : ValueType
  pub subtree : List ℕ
  pub prefix : List ℕ
  pub prefixlen : ℕ
  pub handler : Handler

-- `except Exception: return None`
unfoldable pub caught {ℓ} : {A : Type ℓ} → Result (Option A) → Option A
caught (ok r) = r
caught (err e) = none

unfoldable pub prefer : Option Data → Result (Option Data) → Result (Option Data)
prefer (some v) underlay = ok (some v)
prefer none underlay = underlay

-- `mib_entry(sub_id)`: a plain entry ignores `sub_id`; a subtree entry catches what its callable
-- raises; the adapter asks the overlay first.
unfoldable pub call_handler : List ℕ → Handler → List ℕ → Result (Option Data)
unfolding caught prefer
call_handler prefix (scalar value) sub_id = value
call_handler prefix (subtree next callable) sub_id = ok (caught (callable sub_id))
call_handler prefix (by_oid callable) sub_id = callable (prefix ++ sub_id)
call_handler prefix (overlay under over) sub_id =
    let underlay_val = call_handler prefix under sub_id in
    do overlay_val ← call_handler prefix over sub_id; prefer overlay_val underlay_val

unfoldable pub call : MibEntry → List ℕ → Result (Option Data)
unfolding call_handler
call e sub_id = call_handler e.prefix e.handler sub_id

-- `mib_entry.get_next(sub_id)`
unfoldable pub next_of : Handler → List ℕ → Option (List ℕ)
unfolding caught
next_of (scalar value) sub_id = none
next_of (subtree next callable) sub_id = caught (next sub_id)
next_of (by_oid callable) sub_id = none
next_of (overlay under over) sub_id = next_of under sub_id

unfoldable pub get_next : MibEntry → List ℕ → Option (List ℕ)
unfolding next_of
get_next e sub_id = next_of e.handler sub_id

-- `next(iter(mib_entry))`, with `none` for StopIteration: the generator of a subtree entry starts
-- from the empty tuple.
unfoldable pub first_of : Handler → Result (Option (List ℕ))
unfolding caught
first_of (scalar value) = ok (some [])
first_of (subtree next callable) = ok (caught (next []))
first_of (by_oid callable) = err not_implemented_error
first_of (overlay under over) = first_of under

unfoldable pub first : MibEntry → Result (Option (List ℕ))
unfolding first_of
first e = first_of e.handler

unfoldable pub get_sub_id : MibEntry → List ℕ → List ℕ
get_sub_id e oid_key = drop e.prefixlen oid_key

unfoldable pub replace_sub_id : MibEntry → List ℕ → List ℕ → List ℕ
replace_sub_id e oid_key sub_id = take e.prefixlen oid_key ++ sub_id
