-- ===== src/Acceptor.antt =====
-- Acceptor (netpoll/net/inner/acceptor.cc): the descriptors that it opens, accepts and closes. The
-- kernel's answers are arguments; a failing `accept` or `open` answers -1, which is `none` here.
pub mod Descriptors
mod Tests
use netpoll_cpp.Base.{Bool, List, Option, [], false, if◌then◌else◌, none, some, true, ℕ, ◌==◌, ◌∷◌}
use netpoll_cpp.Channel.{Channel, disable_all, enable_reading, new_channel}

pub data SysCall : Type 0 where
  opened accepted closes hands_over : ℕ → SysCall

-- `m_idleFd`, `m_acceptChannel`, whether `m_newConnectionCallback` is set, and what was done about
-- descriptors other than the listening socket, the latest first.
pub record Acceptor : Type 0 where
  pub idle_fd : Option ℕ
  pub channel : Channel
  pub callback_set : Bool
  pub sys_calls : List SysCall

-- What the first `accept` of `handleRead` answers: a descriptor, or an `errno`.
pub data Accepted : Type 0 where
  got failed : ℕ → Accepted

abbrev pub emfile : ℕ
emfile = 24

abbrev pub made : (ℕ → SysCall) → Option ℕ → List SysCall → List SysCall
made call none cs = cs
made call (some fd) cs = call fd ∷ cs

unfoldable pub new_acceptor : (sock : ℕ) → (idle : Option ℕ) → Acceptor
new_acceptor sock idle = record {
  idle_fd = idle;
  channel = record (new_channel sock) { read_set = true };
  callback_set = false;
  sys_calls = made opened idle [];
}

unfoldable pub set_new_connection_callback : Acceptor → Acceptor
set_new_connection_callback a = record a { callback_set = true }

unfoldable pub listen : Acceptor → Acceptor
listen a = record a { channel = enable_reading a.channel }

-- `handleRead` out of descriptors: the idle one is given up, so that `accept` can take the connection
-- out of the queue, which is closed, and opened again. A `close` of -1 does nothing.
unfoldable pub make_room : Option ℕ → Option ℕ → Acceptor → Acceptor
make_room again reopened a = record a {
  idle_fd = reopened;
  sys_calls =
      made opened reopened
        (made closes again (made accepted again (made closes a.idle_fd a.sys_calls)));
}

unfoldable pub handle_read : Accepted → Option ℕ → Option ℕ → Acceptor → Acceptor
unfolding make_room
handle_read (got fd) again reopened a = record a {
  sys_calls = (if a.callback_set then hands_over fd else closes fd) ∷ accepted fd ∷ a.sys_calls;
}
handle_read (failed e) again reopened a = if e == emfile then make_room again reopened a else a

-- The destructor; `Socket` closes the listening socket itself.
unfoldable pub destroy : Acceptor → Acceptor
destroy a = record a {
  channel = disable_all a.channel;
  sys_calls = made closes a.idle_fd a.sys_calls;
}
