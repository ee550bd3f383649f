-- ===== src/Connection/Lifecycle.antt =====
-- The life of a connection: establishing, reading, closing from either side, and destroying.

use netpoll_cpp.Base.{
  List, Option, [], false, if◌then◌else◌, length, none, not, some, true, ℕ, ◌+◌, ◌==◌, ◌>>=◌, ◌||◌,
  ◌∷◌,
}
use netpoll_cpp.Buffer.{new_message_buffer}
use netpoll_cpp.Buffer.Fd.{Readv, failed, got, read_fd}
use netpoll_cpp.Channel.{disable_all, enable_reading, is_writing, new_channel, tie}
use netpoll_cpp.Connection.{
  Connection, closed, connected, connecting, connection, default_length, disconnected,
  disconnecting, is_connected, is_disconnecting, notify, received, removed, shut_write,
}

abbrev pub epipe : ℕ
epipe = 32

abbrev pub econnreset : ℕ
econnreset = 104

abbrev pub eagain : ℕ
eagain = 11

-- The constructor, for a socket that is connected: the callbacks of the channel are its own.
abbrev pub new_connection : ℕ → Connection
new_connection fd = record {
  status = connecting;
  channel = record (new_channel fd) {
    read_set = true;
    write_set = true;
    close_set = true;
    error_set = true;
  };
  nodes = [];
  read_buffer = new_message_buffer default_length;
  bytes_sent = 0;
  bytes_received = 0;
  high_water_set = false;
  high_water_len = 0;
  recv_set = false;
  connection_set = false;
  close_set = false;
  write_complete_set = false;
  sent = [];
  notices = [];
}

unfoldable pub connect_established : Connection → Connection
connect_established c =
    notify c.connection_set connection
      (record c { status = connected; channel = enable_reading (tie c.channel) })

unfoldable pub handle_close : Connection → Connection
handle_close c = notify c.close_set closed (
    notify c.connection_set connection
      (record c { status = disconnected; channel = disable_all c.channel }))

-- `handleRead`, once `readFd` has returned.
unfoldable pub handle_input : Readv → Connection → Connection
unfolding handle_close
handle_input (got []) c = handle_close c
handle_input (got (x ∷ xs)) c =
    notify c.recv_set received (record c { bytes_received = c.bytes_received + length (x ∷ xs) })
handle_input (failed e) c =
    if e == epipe || e == econnreset then c else if e == eagain then c else handle_close c

-- `readv` is what the kernel answers to the lengths that it is offered.
unfoldable pub handle_read : (List ℕ → Readv) → Connection → Option Connection
unfolding handle_input
handle_read readv c = do
  r ← read_fd readv c.read_buffer
  some (handle_input r.0 (record c { read_buffer = r.1 }))

unfoldable pub shutdown : Connection → Connection
shutdown c =
    if is_connected c.status
    then notify (not (is_writing c.channel)) shut_write (record c { status = disconnecting })
    else c

unfoldable pub force_close : Connection → Connection
unfolding handle_close
force_close c =
    if is_connected c.status || is_disconnecting c.status
    then handle_close (record c { status = disconnecting })
    else c

-- The connection callback is called without a test: one that is not set throws.
unfoldable pub connect_destroyed : Connection → Option Connection
connect_destroyed c =
    if is_connected c.status
    then (if c.connection_set
        then some (
            notify true removed (
              notify true connection
                (record c { status = disconnected; channel = disable_all c.channel })))
        else none)
    else some (notify true removed c)
