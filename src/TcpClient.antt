-- ===== src/TcpClient.antt =====
-- TcpClient (netpoll/net/tcp_client.cc) on its connector, in the thread of its loop. A connection is
-- named by its descriptor; the kernel's answers are arguments, as they are for the connector.
pub mod Reconnecting
mod Tests
use netpoll_cpp.Connector as Connecting
use netpoll_cpp.Base.{
  Bool, List, Option, [], drop, false, if◌then◌else◌, length, none, some, true, ℕ, ◌&&◌, ◌++◌, ◌∷◌,
}
use netpoll_cpp.Connector.{Connector, Effect, handle_error, new_connector}

-- `shutdown` of the connection, and `connectDestroyed`, which is queued in the loop.
pub data Notice : Type 0 where
  shuts_down destroys : ℕ → Notice

-- `m_connector`, `m_retry`, `m_connect` and `m_connection`, and the calls on connections.
pub record TcpClient : Type 0 where
  pub connector : Connector
  pub reconnects : Bool
  pub connects : Bool
  pub connection : Option ℕ
  pub notices : List Notice

unfoldable pub new_tcp_client : TcpClient
new_tcp_client = record {
  connector = new_connector false;
  reconnects = false;
  connects = false;
  connection = none;
  notices = [];
}

unfoldable pub enable_retry : TcpClient → TcpClient
enable_retry c = record c { reconnects = true }

-- `connect`, whose attempt makes the socket `fd` with the `errno` `e`.
unfoldable pub connect : ℕ → ℕ → TcpClient → TcpClient
connect fd e c =
    if c.connects
    then c
    else record c { connects = true; connector = Connecting.start fd e c.connector }

unfoldable pub disconnect : TcpClient → TcpClient
disconnect c = record c {
  connects = false;
  notices = elim c.connection [ none ↦ c.notices | some fd ↦ c.notices ++ (shuts_down fd ∷ []) ];
}

unfoldable pub stop : TcpClient → TcpClient
stop c = record c { connects = false; connector = Connecting.stop c.connector }

unfoldable pub new_connection : ℕ → TcpClient → TcpClient
new_connection fd c = record c { connection = some fd }

-- `removeConnection`, of a connection that has closed; a reconnection makes the socket `fd`.
unfoldable pub remove_connection : ℕ → ℕ → ℕ → TcpClient → TcpClient
remove_connection closed fd e c = record c {
  connection = none;
  notices = c.notices ++ (destroys closed ∷ []);
  connector =
      if c.reconnects && c.connects then Connecting.restart fd e c.connector else c.connector;
}

-- The connector's callback with a new socket.
unfoldable pub called_back : List Effect → TcpClient → TcpClient
unfolding new_connection
called_back [] c = c
called_back (Connecting.hands_over fd ∷ es) c = called_back es (new_connection fd c)
called_back (_ ∷ es) c = called_back es c

-- The connector's channel is writable.
unfoldable pub writable : ℕ → Bool → TcpClient → TcpClient
unfolding called_back
writable so_error self_connect c =
    let d = Connecting.handle_write so_error self_connect c.connector in
    called_back (drop (length c.connector.effects) d.effects) (record c { connector = d })

-- The close callback of the connection, if there is one.
unfoldable pub close_connection : Option ℕ → ℕ → ℕ → TcpClient → TcpClient
unfolding remove_connection
close_connection none fd e c = c
close_connection (some closed) fd e c = remove_connection closed fd e c

-- What happens until the user calls `disconnect` or `stop`.
pub data Event : Type 0 where
  connect_called : (fd e : ℕ) → Event
  connector_writable : (so_error : ℕ) (self_connect : Bool) → Event
  connector_fails : Event
  connection_lost : (fd e : ℕ) → Event

unfoldable pub run : List Event → TcpClient → TcpClient
unfolding connect writable close_connection
run [] c = c
run (connect_called fd e ∷ es) c = run es (connect fd e c)
run (connector_writable so_error self_connect ∷ es) c = run es (writable so_error self_connect c)
run (connector_fails ∷ es) c = run es (record c { connector = handle_error c.connector })
run (connection_lost fd e ∷ es) c = run es (close_connection c.connection fd e c)
