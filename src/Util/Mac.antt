-- ===== src/Util/Mac.antt =====
-- src/ax_interface/util.py: MAC addresses. Of the texts that `int(h, 16)` admits, those of ASCII
-- hexadecimal digits are modelled.
use sonic_snmpagent.Prelude.{
  ℕ, ◌+◌, ◌-◌, ◌*◌, List, [], ◌∷◌, Option, none, some, Result, ok, err, value_error, ◌>>=◌, leb,
  if◌then◌else◌, ◌&&◌,
}
use sonic_snmpagent.Strings.{Text, colon, split_at}

unfoldable pub hex_digit : ℕ → Option ℕ
hex_digit c =
    if leb 48 c && leb c 57
    then some (c - 48)
    else if leb 97 c && leb c 102
    then some (c - 87)
    else if leb 65 c && leb c 70
    then some (c - 55)
    else none

unfoldable pub hex_from : ℕ → Text → Result ℕ
unfolding hex_digit
hex_from n [] = ok n
hex_from n (c ∷ cs) = elim (hex_digit c) [
  | none ↦ err value_error
  | some d ↦ hex_from (n * 16 + d) cs
]

-- `int(h, 16)`
unfoldable pub hex_int : Text → Result ℕ
unfolding hex_from
hex_int [] = err value_error
hex_int (c ∷ cs) = hex_from 0 (c ∷ cs)

unfoldable pub hex_ints : List Text → Result (List ℕ)
unfolding hex_int
hex_ints [] = ok []
hex_ints (h ∷ hs) = do n ← hex_int h; ns ← hex_ints hs; ok (n ∷ ns)

unfoldable pub mac_decimals : Text → Result (List ℕ)
unfolding hex_ints
mac_decimals mac = hex_ints (split_at colon mac)
