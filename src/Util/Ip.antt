-- ===== src/Util/Ip.antt =====
-- src/ax_interface/util.py: IP addresses. Of Python's module ipaddress, IPv4 addresses are modelled;
-- the IPv6 ones are a parameter, which gives the packed address of a text.
use sonic_snmpagent.Prelude.{
  ℕ, List, [], ◌∷◌, length, Option, none, some, Result, ok, err, value_error, ◌>>=◌, Bool, false,
  ◌&&◌, leb, ◌==◌, if◌then◌else◌,
}
use sonic_snmpagent.Util.Text.{is_group, int_from, dot}
use sonic_snmpagent.Strings.{Text, split_at}

-- An IPv4Address or an IPv6Address, by its packed bytes.
pub data IpAddress : Type 0 where
  ipv4 ipv6 : List ℕ → IpAddress

unfoldable pub packed : IpAddress → List ℕ
packed (ipv4 bs) = bs
packed (ipv6 bs) = bs

unfoldable pub is_zero_led : Text → Bool
is_zero_led [] = false
is_zero_led (c ∷ []) = false
is_zero_led (c ∷ d ∷ text) = c == 48

-- An octet has at most three digits, no leading zero and a value of at most 255.
unfoldable pub octet : Text → Option ℕ
unfolding is_group is_zero_led int_from
octet text =
    if is_group text && leb (length text) 3
    then (if is_zero_led text
        then none
        else if leb (int_from 0 text) 255
        then some (int_from 0 text)
        else none)
    else none

unfoldable pub octets : List Text → Option (List ℕ)
unfolding octet
octets [] = some []
octets (part ∷ parts) =
    let rest = octets parts in
    elim (octet part) [ none ↦ none | some n ↦ elim rest [ none ↦ none | some ns ↦ some (n ∷ ns) ] ]

unfoldable pub parse_ipv4 : Text → Option (List ℕ)
unfolding octets
parse_ipv4 text = if length (split_at dot text) == 4 then octets (split_at dot text) else none

unfoldable pub or_ipv6 : Option (List ℕ) → Option (List ℕ) → Result IpAddress
or_ipv6 (some bs) six = ok (ipv4 bs)
or_ipv6 none (some bs) = ok (ipv6 bs)
or_ipv6 none none = err value_error

-- `ipaddress.ip_address(text)`
unfoldable pub ip_address : (Text → Option (List ℕ)) → Text → Result IpAddress
unfolding parse_ipv4 or_ipv6
ip_address parse_ipv6 text = or_ipv6 (parse_ipv4 text) (parse_ipv6 text)

unfoldable pub ip2byte_tuple : (Text → Option (List ℕ)) → Text → Result (List ℕ)
unfolding ip_address packed
ip2byte_tuple parse_ipv6 ip = do ipa ← ip_address parse_ipv6 ip; ok (packed ipa)
