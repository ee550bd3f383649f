-- ===== src/Channel.antt =====
-- Channels: netpoll/net/channel.h and channel.cc. An `int` of POLL… bits is a record of flags.
-- `update()` and `remove()`, which call the poller, are in Poller and its children.
pub mod Dispatch
mod Tests
use netpoll_cpp.Base.{Bool, List, [], false, if◌then◌else◌, not, true, ℕ, ◌&&◌, ◌++◌, ◌||◌, ◌∷◌}

-- The bits of <poll.h> that the library names.
pub record Flags : Type 0 where
  pub pollin : Bool
  pub pollpri : Bool
  pub pollout : Bool
  pub pollerr : Bool
  pub pollhup : Bool
  pub pollnval : Bool
  pub pollrdhup : Bool

abbrev pub none_event : Flags
none_event = record {
  pollin = false;
  pollpri = false;
  pollout = false;
  pollerr = false;
  pollhup = false;
  pollnval = false;
  pollrdhup = false;
}

abbrev pub read_event : Flags
read_event = record none_event { pollin = true; pollpri = true }

abbrev pub write_event : Flags
write_event = record none_event { pollout = true }

-- `e | f`.
unfoldable pub with_flags : Flags → Flags → Flags
with_flags e f = record {
  pollin = e.pollin || f.pollin;
  pollpri = e.pollpri || f.pollpri;
  pollout = e.pollout || f.pollout;
  pollerr = e.pollerr || f.pollerr;
  pollhup = e.pollhup || f.pollhup;
  pollnval = e.pollnval || f.pollnval;
  pollrdhup = e.pollrdhup || f.pollrdhup;
}

-- `e & ~f`.
unfoldable pub without_flags : Flags → Flags → Flags
without_flags e f = record {
  pollin = e.pollin && not f.pollin;
  pollpri = e.pollpri && not f.pollpri;
  pollout = e.pollout && not f.pollout;
  pollerr = e.pollerr && not f.pollerr;
  pollhup = e.pollhup && not f.pollhup;
  pollnval = e.pollnval && not f.pollnval;
  pollrdhup = e.pollrdhup && not f.pollrdhup;
}

-- `(e & f) != 0`.
unfoldable pub shares_flag : Flags → Flags → Bool
shares_flag e f =
    (e.pollin && f.pollin)
    || (e.pollpri && f.pollpri)
    || (e.pollout && f.pollout)
    || (e.pollerr && f.pollerr)
    || (e.pollhup && f.pollhup)
    || (e.pollnval && f.pollnval)
    || (e.pollrdhup && f.pollrdhup)

-- `e == 0`.
unfoldable pub is_none_event : Flags → Bool
is_none_event e =
    not (e.pollin || e.pollpri || e.pollout || e.pollerr || e.pollhup || e.pollnval || e.pollrdhup)

-- The callbacks are the question which of them are set.
pub record Channel : Type 0 where
  pub fd : ℕ
  pub events : Flags
  pub revents : Flags
  pub tied : Bool
  pub read_set : Bool
  pub write_set : Bool
  pub error_set : Bool
  pub close_set : Bool
  pub event_set : Bool

unfoldable pub new_channel : ℕ → Channel
new_channel fd = record {
  fd = fd;
  events = none_event;
  revents = none_event;
  tied = false;
  read_set = false;
  write_set = false;
  error_set = false;
  close_set = false;
  event_set = false;
}

unfoldable pub enable_reading : Channel → Channel
unfolding with_flags
enable_reading c = record c { events = with_flags c.events read_event }

unfoldable pub disable_reading : Channel → Channel
unfolding without_flags
disable_reading c = record c { events = without_flags c.events read_event }

unfoldable pub enable_writing : Channel → Channel
unfolding with_flags
enable_writing c = record c { events = with_flags c.events write_event }

unfoldable pub disable_writing : Channel → Channel
unfolding without_flags
disable_writing c = record c { events = without_flags c.events write_event }

unfoldable pub disable_all : Channel → Channel
disable_all c = record c { events = none_event }

unfoldable pub update_events : Flags → Channel → Channel
update_events e c = record c { events = e }

unfoldable pub is_writing : Channel → Bool
unfolding shares_flag
is_writing c = shares_flag c.events write_event

unfoldable pub is_reading : Channel → Bool
unfolding shares_flag
is_reading c = shares_flag c.events read_event

unfoldable pub tie : Channel → Channel
tie c = record c { tied = true }

unfoldable pub set_revents : Flags → Channel → Channel
set_revents e c = record c { revents = e }

pub data Callback : Type 0 where
  on_event on_close on_error on_read on_write : Callback

-- `__linux__`, `_WIN32`, or neither.
pub data Platform : Type 0 where
  linux windows other_unix : Platform

abbrev call_if : Bool → Bool → Callback → List Callback
call_if test is_set k = if test && is_set then k ∷ [] else []

abbrev readable_revents : Platform → Flags → Bool
readable_revents linux r = r.pollin || r.pollpri || r.pollrdhup
readable_revents windows r = r.pollin || r.pollpri
readable_revents other_unix r = r.pollin || r.pollpri

-- The Windows build defines POLLNVAL as 0.
abbrev failed_revents : Platform → Flags → Bool
failed_revents linux r = r.pollnval || r.pollerr
failed_revents windows r = r.pollerr
failed_revents other_unix r = r.pollnval || r.pollerr

abbrev writable_revents : Platform → Flags → Bool
writable_revents linux r = r.pollout
writable_revents windows r = r.pollout && not r.pollhup
writable_revents other_unix r = r.pollout

-- `handleEventSafely`: the callbacks made, in order.
unfoldable pub handle_event_safely : Platform → Channel → List Callback
handle_event_safely p c =
    if c.event_set
    then on_event ∷ []
    else call_if (c.revents.pollhup && not c.revents.pollin) c.close_set on_close
      ++ (call_if (failed_revents p c.revents) c.error_set on_error
          ++ (call_if (readable_revents p c.revents) c.read_set on_read
              ++ call_if (writable_revents p c.revents) c.write_set on_write))

-- `handleEvent`; `alive` is whether `m_tie.lock()` gives the object.
pub handle_event : Platform → Bool → Channel → List Callback
unfolding handle_event_safely is_none_event
handle_event p alive c =
    if is_none_event c.events
    then []
    else if c.tied
    then (if alive then handle_event_safely p c else [])
    else handle_event_safely p c
