-- ===== src/TcpClient/Reconnecting.antt =====
-- When a client connects again.

use netpoll_cpp.Connector as Connecting
use netpoll_cpp.Base.{
  Bool, List, Option, [], ap, drop, false, length, none, refl, some, true, ℕ, ◌∙◌, ◌∷◌, ◌≡◌,
}
use netpoll_cpp.Connector.{Effect}
use netpoll_cpp.TcpClient.{
  Event, TcpClient, called_back, close_connection, connect, connect_called, connection_lost,
  connector_fails, connector_writable, new_connection, new_tcp_client, remove_connection, run,
  writable,
}

-- `m_connect` and `m_retry` are as before.
abbrev Kept : TcpClient → TcpClient → Type 0
Kept d c = (d.connects ≡ c.connects) × (d.reconnects ≡ c.reconnects)

called_back_keeps : (es : List Effect) (c : TcpClient) → Kept (called_back es c) c
unfolding called_back new_connection
called_back_keeps [] c = (refl, refl)
called_back_keeps (Connecting.hands_over fd ∷ es) c =
    called_back_keeps es (record c { connection = some fd })
called_back_keeps (Connecting.closes fd ∷ es) c = called_back_keeps es c
called_back_keeps (Connecting.run_after n ∷ es) c = called_back_keeps es c
called_back_keeps (Connecting.removes fd ∷ es) c = called_back_keeps es c
called_back_keeps (Connecting.reports_error ∷ es) c = called_back_keeps es c

writable_keeps :
    (so_error : ℕ) (self_connect : Bool) (c : TcpClient) → Kept (writable so_error self_connect c) c
unfolding writable
writable_keeps so_error self_connect c =
    let d = Connecting.handle_write so_error self_connect c.connector in
    called_back_keeps (drop (length c.connector.effects) d.effects) (record c { connector = d })

close_connection_keeps :
    (o : Option ℕ) (fd e : ℕ) (c : TcpClient) → Kept (close_connection o fd e c) c
unfolding close_connection remove_connection
close_connection_keeps none fd e c = (refl, refl)
close_connection_keeps (some closed) fd e c = (refl, refl)

-- A client that has been told to connect, and not to connect again.
abbrev IsOnce : TcpClient → Type 0
IsOnce c = (c.connects ≡ true) × (c.reconnects ≡ false)

Kept-IsOnce : (c d : TcpClient) → Kept d c → IsOnce c → IsOnce d
Kept-IsOnce c d k h = (k.0 ∙ h.0, k.1 ∙ h.1)

run-IsOnce : (es : List Event) (c : TcpClient) → IsOnce c → IsOnce (run es c)
unfolding run connect
run-IsOnce [] c h = h
run-IsOnce (connect_called fd e ∷ es) c h =
    let same : connect fd e c ≡ c = rw (connect, h.0) refl in
    run-IsOnce es (connect fd e c) (
      Kept-IsOnce c (connect fd e c)
        (ap (λ (d : TcpClient). d.connects) same, ap (λ (d : TcpClient). d.reconnects) same) h)
run-IsOnce (connector_writable so_error self_connect ∷ es) c h =
    run-IsOnce es (writable so_error self_connect c)
      (Kept-IsOnce c (writable so_error self_connect c) (writable_keeps so_error self_connect c) h)
run-IsOnce (connector_fails ∷ es) c h = run-IsOnce es _ h
run-IsOnce (connection_lost fd e ∷ es) c h = run-IsOnce es (close_connection c.connection fd e c) (
    Kept-IsOnce c (close_connection c.connection fd e c)
      (close_connection_keeps c.connection fd e c) h)

lost_connector :
    (o : Option ℕ) (fd e : ℕ) (c : TcpClient)
    → c.reconnects ≡ false
    → (close_connection o fd e c).connector ≡ c.connector
unfolding close_connection remove_connection
lost_connector none fd e c h = refl
lost_connector (some closed) fd e c h = rw h refl

-- Once `connect` was called without `enableRetry`, every further call is ignored until `disconnect` or
-- `stop`, also when the attempt has failed or the connection has closed; and a connection that
-- closes leaves the connector as it is, so that the client does not connect again by itself.
pub connect_is_ignored :
    (fd e : ℕ) (es : List Event) (fd' e' : ℕ)
    → let c = run es (connect fd e new_tcp_client) in
      (connect fd' e' c ≡ c) × ((close_connection c.connection fd' e' c).connector ≡ c.connector)
unfolding connect new_tcp_client
connect_is_ignored fd e es fd' e' =
    let c = run es (connect fd e new_tcp_client) in
    let h = run-IsOnce es (connect fd e new_tcp_client) (refl, refl) in
    (rw (connect, h.0) refl, lost_connector c.connection fd' e' c h.1)
