-- ===== src/TcpClient/Tests.antt =====
-- A client whose attempt is refused.
use netpoll_cpp.Base.{List, [], false, ◌∷◌, ◌≡◌}
use netpoll_cpp.TcpClient.{
  Event, close_connection, connect, connector_writable, new_tcp_client, run,
}
use netpoll_cpp.TcpClient.Reconnecting.{connect_is_ignored}

-- The socket 5 turns out to be refused, and nothing is tried any more.
abbrev refused : List Event
refused = connector_writable 111 false ∷ []

connect_is_ignored_example :
    let c = run refused (connect 5 115 new_tcp_client) in
    (connect 6 115 c ≡ c) × ((close_connection c.connection 6 115 c).connector ≡ c.connector)
connect_is_ignored_example = connect_is_ignored 5 115 refused 6 115
