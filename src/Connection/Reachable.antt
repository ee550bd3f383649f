-- ===== src/Connection/Reachable.antt =====
-- What can happen to a connection in its loop, streams left out, and what is to hold then.

use netpoll_cpp.Base.{Bool, List, false, some, true, ℕ, ◌||◌, ◌≡◌}
use netpoll_cpp.Buffer.Fd.{Readv}
use netpoll_cpp.Channel.{is_none_event}
use netpoll_cpp.Connection.{
  Answer, Connection, File, Status, connected, connecting, disconnected, disconnecting,
  handle_write, is_connected, is_disconnecting, send_file, send_in_loop,
}
use netpoll_cpp.Connection.Lifecycle.{
  connect_destroyed, connect_established, force_close, handle_close, handle_read, shutdown,
}
use netpoll_cpp.Connection.Reports.{reports}

abbrev pub is_up : Status → Bool
is_up s = is_connected s || is_disconnecting s

-- The callbacks of the channel come only while it watches something; a connection is established
-- once.
pub data Step (c : Connection) : Connection → Type 0 where
  establishes : c.status ≡ connecting → Step c (connect_established c)
  sends : (xs : List ℕ) (a : Answer) {d : Connection} → send_in_loop xs a c ≡ some d → Step c d
  sends_file : (f : File) (a : Answer) → Step c (send_file f a c)
  writes : (a : Answer) → is_none_event c.channel.events ≡ false → Step c (handle_write a c)
  reads :
      (readv : List ℕ → Readv) {d : Connection}
      → is_none_event c.channel.events ≡ false
      → handle_read readv c ≡ some d
      → Step c d
  closes : is_none_event c.channel.events ≡ false → Step c (handle_close c)
  shuts : Step c (shutdown c)
  forces : Step c (force_close c)
  destroys : {d : Connection} → connect_destroyed c ≡ some d → Step c d

pub data Reach (b : Connection) : Connection → Type 0 where
  start : Reach b b
  later : {c d : Connection} → Reach b c → Step c d → Reach b d

-- No file is sent before the connection is up, or after it is down. `sendFile` does not test this.
abbrev pub InTime : {c d : Connection} → Step c d → Type 0
InTime (establishes s) = Unit {0}
InTime (sends xs a e) = Unit {0}
InTime {c = c} (sends_file f a) = is_up c.status ≡ true
InTime (writes a n) = Unit {0}
InTime (reads readv n e) = Unit {0}
InTime (closes n) = Unit {0}
InTime shuts = Unit {0}
InTime forces = Unit {0}
InTime (destroys e) = Unit {0}

abbrev pub AllInTime : {b c : Connection} → Reach b c → Type 0
AllInTime start = Unit {0}
AllInTime (later r t) = InTime t × AllInTime r

-- How often the connection callback has been called by then.
abbrev pub reports_due : Status → ℕ
reports_due connecting = 0
reports_due connected = 1
reports_due disconnecting = 1
reports_due disconnected = 2

pub record Heard (c : Connection) : Type 0 where
  pub is_set : c.connection_set ≡ true
  pub heard : reports c.notices ≡ reports_due c.status
  pub quiet : is_up c.status ≡ false → is_none_event c.channel.events ≡ true
