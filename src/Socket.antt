-- ===== src/Socket.antt =====
-- src/ax_interface/socket_io.py: the configured address of the AgentX socket. A string is the list
-- of its code points. Of the digits that Python's `isdigit` admits, only the ASCII ones are
-- modelled.
pub mod Address
pub mod Connection
use sonic_snmpagent.Prelude.{
  ℕ, List, [], ◌∷◌, ◌++◌, Option, none, some, Result, ok, err, index_error, ◌>>=◌, Bool, true,
  false, ◌&&◌, ◌||◌, ◌==◌, if◌then◌else◌,
}
use sonic_snmpagent.Util.Text.{is_group}

abbrev pub Text : Type 0
Text = List ℕ

-- The attributes that `parse_socket` sets: `host` and `port` for TCP alone.
pub data SocketType : Type 0 where
  unix tcp : SocketType

pub record Socket : Type 0 where
  pub ax_socket_path : Text
  pub ax_socket_type : SocketType
  pub address : Option (Text × Text)

-- `/var/agentx/master`
abbrev pub agentx_socket_path : Text
agentx_socket_path =
    47 ∷ 118 ∷ 97 ∷ 114 ∷ 47 ∷ 97 ∷ 103 ∷ 101 ∷ 110 ∷ 116 ∷ 120 ∷ 47 ∷ 109 ∷ 97 ∷ 115 ∷ 116 ∷ 101
    ∷ 114 ∷ []

-- `localhost`
abbrev pub localhost : Text
localhost = 108 ∷ 111 ∷ 99 ∷ 97 ∷ 108 ∷ 104 ∷ 111 ∷ 115 ∷ 116 ∷ []

abbrev pub colon : ℕ
colon = 58

abbrev pub slash : ℕ
slash = 47

-- `text.startswith(method)`
unfoldable pub starts_with : Text → Text → Bool
starts_with [] text = true
starts_with (m ∷ method) [] = false
starts_with (m ∷ method) (c ∷ text) = m == c && starts_with method text

-- `c in text`
unfoldable pub contains : ℕ → Text → Bool
contains c [] = false
contains c (d ∷ text) = c == d || contains c text

-- `text.split(':', 1)[1]`: what follows the first colon; an IndexError where there is none.
unfoldable pub after_colon : Text → Result Text
after_colon [] = err index_error
after_colon (c ∷ text) = if c == colon then ok text else after_colon text

-- The parts before and behind the last colon, if there is one.
unfoldable pub at_last : ℕ → Option (Text × Text) → Text → Option (Text × Text)
at_last c (some (front, back)) text = some (c ∷ front, back)
at_last c none text = if c == colon then some ([], text) else none

-- `address.rsplit(':', 1)`
unfoldable pub rsplit : Text → Option (Text × Text)
unfolding at_last
rsplit [] = none
rsplit (c ∷ text) = at_last c (rsplit text) text

-- `get_ip_port`: without a colon the address is a port.
unfoldable pub ip_port : Text → Option (Text × Text) → Text × Text
ip_port address none = (localhost, address)
ip_port address (some parts) = parts

unfoldable pub get_ip_port : Text → Text × Text
unfolding ip_port
get_ip_port address = ip_port address (rsplit address)

abbrev pub udp : Text
udp = 117 ∷ 100 ∷ 112 ∷ []

abbrev pub tcp_name : Text
tcp_name = 116 ∷ 99 ∷ 112 ∷ []

abbrev pub unix_name : Text
unix_name = 117 ∷ 110 ∷ 105 ∷ 120 ∷ []

-- `ssh`, `dtlsudp`, `ipx`, `aal5pvc`, `udp`
abbrev pub unsuported_list : List Text
unsuported_list =
    (115 ∷ 115 ∷ 104 ∷ [])
    ∷ (100 ∷ 116 ∷ 108 ∷ 115 ∷ 117 ∷ 100 ∷ 112 ∷ [])
    ∷ (105 ∷ 112 ∷ 120 ∷ [])
    ∷ (97 ∷ 97 ∷ 108 ∷ 53 ∷ 112 ∷ 118 ∷ 99 ∷ [])
    ∷ udp
    ∷ []

-- The loop over the list.
unfoldable pub is_unsuported : List Text → Text → Bool
unfolding starts_with
is_unsuported [] path = false
is_unsuported (method ∷ methods) path = starts_with method path || is_unsuported methods path

abbrev pub unsuported_method : Socket
unsuported_method = record {
  ax_socket_path = agentx_socket_path;
  ax_socket_type = unix;
  address = none;
}

unfoldable pub tcp_socket : Text → Result Socket
unfolding after_colon get_ip_port
tcp_socket path = do
  address ← after_colon path
  ok (record { ax_socket_path = path; ax_socket_type = tcp; address = some (get_ip_port address) })

unfoldable pub unix_socket : Text → Result Socket
unfolding after_colon
unix_socket path = do
  rest ← after_colon path
  ok (record { ax_socket_path = rest; ax_socket_type = unix; address = none })

-- A plain path.
abbrev pub plain_socket : Text → Socket
plain_socket path = record { ax_socket_path = path; ax_socket_type = unix; address = none }

-- `parse_socket`; the cases of a number, of `udp`, of `host:port` and of anything else all fall back
-- to the default path.
unfoldable pub parse_socket : Text → Result Socket
unfolding tcp_socket unix_socket
parse_socket path =
    if is_unsuported unsuported_list path
    then ok unsuported_method
    else if is_group path
    then ok unsuported_method
    else if starts_with udp path
    then ok unsuported_method
    else if starts_with tcp_name path
    then tcp_socket path
    else if starts_with unix_name path
    then unix_socket path
    else if contains slash path
    then ok (plain_socket path)
    else ok unsuported_method
