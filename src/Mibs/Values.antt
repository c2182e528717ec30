-- ===== src/Mibs/Values.antt =====
-- What the callables of the MIBs return, as data of a variable binding.
use sonic_snmpagent.Prelude.{ℕ, List, Option, none, some, Result, ok, pos}
use sonic_snmpagent.Encodings.Value.{Data, int, chars, bytes}

unfoldable pub int_data : Option ℕ → Result (Option Data)
int_data none = ok none
int_data (some n) = ok (some (int (pos n)))

unfoldable pub bytes_data : Option (List ℕ) → Result (Option Data)
bytes_data none = ok none
bytes_data (some bs) = ok (some (bytes bs))

unfoldable pub chars_data : Option (List ℕ) → Result (Option Data)
chars_data none = ok none
chars_data (some s) = ok (some (chars s))
