-- ===== src/Runs/Address.antt =====
-- Runs of the address parser.
use sonic_snmpagent.Prelude.{◌≡◌, refl, [], ◌∷◌, ◌++◌, ok, some}
use sonic_snmpagent.Socket.{tcp, colon, localhost, tcp_name, contains, parse_socket}
use sonic_snmpagent.Socket.Address.{parse_socket_tcp}
use sonic_snmpagent.Socket.Connection.{
  closed, os_error, connection_loop, failures, connection_loop_levels, warning, error,
}

-- "tcp:70" and "tcp:h:70".
parse_socket_tcp_example :
    (parse_socket (tcp_name ++ (colon ∷ 55 ∷ 48 ∷ []))
      ≡ ok (record {
        ax_socket_path = tcp_name ++ (colon ∷ 55 ∷ 48 ∷ []);
        ax_socket_type = tcp;
        address = some (localhost, 55 ∷ 48 ∷ []);
      }))
    × (parse_socket (tcp_name ++ (colon ∷ ((104 ∷ []) ++ (colon ∷ 55 ∷ 48 ∷ []))))
        ≡ ok (record {
          ax_socket_path = tcp_name ++ (colon ∷ ((104 ∷ []) ++ (colon ∷ 55 ∷ 48 ∷ [])));
          ax_socket_type = tcp;
          address = some (104 ∷ [], 55 ∷ 48 ∷ []);
        }))
unfolding contains
parse_socket_tcp_example = parse_socket_tcp (104 ∷ []) (55 ∷ 48 ∷ []) refl

-- A failure, a connection and a failure after nine failures.
connection_loop_levels_example :
    connection_loop 9 (os_error ∷ closed ∷ os_error ∷ []) ≡ ok (warning ∷ error ∷ [])
unfolding failures
connection_loop_levels_example =
    connection_loop_levels 9 (os_error ∷ closed ∷ os_error ∷ []) (tt, (tt, (tt, tt)))
