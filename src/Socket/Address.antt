-- ===== src/Socket/Address.antt =====
-- What `parse_socket` makes of the supported forms of an address.
use sonic_snmpagent.Prelude.{
  ℕ, ◌≡◌, ◌⊎◌, refl, arith, [], ◌∷◌, ◌++◌, none, some, Result, ok, err, index_error, true, false,
  ◌==◌,
}
use sonic_snmpagent.Util.Text.{is_group}
use sonic_snmpagent.Socket.{
  Text, Socket, unix, tcp, localhost, colon, starts_with, contains, after_colon, at_last, rsplit,
  get_ip_port, tcp_name, unix_name, is_unsuported, tcp_socket, parse_socket,
}

no_colon :
    (c : ℕ) (port : Text)
    → contains colon (c ∷ port) ≡ false
    → ((c == colon) ≡ false) × (contains colon port ≡ false)
unfolding contains
no_colon c port h = grind arith

rsplit-none : (port : Text) → contains colon port ≡ false → rsplit port ≡ none
unfolding contains rsplit at_last
rsplit-none [] h = refl
rsplit-none (c ∷ port) h =
    let (apart, rest) = no_colon c port h in rw (rsplit-none port rest, apart) refl

rsplit_last :
    (host port : Text)
    → contains colon port ≡ false
    → rsplit (host ++ (colon ∷ port)) ≡ some (host, port)
unfolding rsplit at_last
rsplit_last [] port h = rw (rsplit-none port h) refl
rsplit_last (c ∷ host) port h = rw (rsplit_last host port h) refl

-- `tcp:` before a port alone is a TCP socket of the local host, and before a host and a port one
-- of that host, also where the host holds colons itself. The port holds no colon.
pub parse_socket_tcp :
    (host port : Text)
    → contains colon port ≡ false
    → (parse_socket (tcp_name ++ (colon ∷ port))
        ≡ ok (record {
          ax_socket_path = tcp_name ++ (colon ∷ port);
          ax_socket_type = tcp;
          address = some (localhost, port);
        }))
      × (parse_socket (tcp_name ++ (colon ∷ (host ++ (colon ∷ port))))
          ≡ ok (record {
            ax_socket_path = tcp_name ++ (colon ∷ (host ++ (colon ∷ port)));
            ax_socket_type = tcp;
            address = some (host, port);
          }))
unfolding parse_socket tcp_socket get_ip_port is_unsuported is_group starts_with after_colon
parse_socket_tcp host port h = (rw (rsplit-none port h) refl, rw (rsplit_last host port h) refl)

-- A TCP socket has a host and a port, any other socket has neither.
abbrev pub IsSupported : Socket → Type 0
IsSupported s =
    ((s.ax_socket_type ≡ unix) × (s.address ≡ none))
    ⊎ ((s.ax_socket_type ≡ tcp) × ((at : Text × Text) × (s.address ≡ some at)))

-- The outcomes of `parse_socket`.
abbrev pub IsParsed : Text → Result Socket → Type 0
IsParsed path r =
    ((s : Socket) × (r ≡ ok s) × IsSupported s)
    ⊎ ((r ≡ err index_error)
        × (contains colon path ≡ false)
        × ((starts_with tcp_name path ≡ true) ⊎ (starts_with unix_name path ≡ true)))
