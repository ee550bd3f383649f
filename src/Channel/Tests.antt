-- ===== src/Channel/Tests.antt =====
-- Channel theorems at a concrete channel.
use netpoll_cpp.Base.{[], false, refl, true, ◌∷◌, ◌≡◌}
use netpoll_cpp.Channel.{Channel, handle_event, linux, none_event, on_error, on_read, read_event}

-- A connection's channel on which input and a hang-up arrived.
abbrev busy : Channel
busy = record {
  fd = 5;
  events = read_event;
  revents = record none_event { pollin = true; pollhup = true; pollerr = true };
  tied = true;
  read_set = true;
  write_set = true;
  error_set = true;
  close_set = true;
  event_set = false;
}

busy_calls : handle_event linux true busy ≡ on_error ∷ on_read ∷ []
unfolding handle_event
busy_calls = refl
