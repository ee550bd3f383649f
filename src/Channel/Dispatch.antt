-- ===== src/Channel/Dispatch.antt =====
-- Which callbacks an event reaches, and what the event mask comes to.
use netpoll_cpp.Base.{
  Bool, List, [], arith, false, if◌then◌else◌, not, suc, true, ℕ, ◌&&◌, ◌+◌, ◌||◌, ◌∷◌, ◌≡◌, ◌≤◌,
}
use netpoll_cpp.Channel.{
  Callback, Channel, Platform, disable_reading, disable_writing, enable_reading, enable_writing,
  handle_event, is_none_event, is_reading, is_writing, linux, on_close, on_error, on_event, on_read,
  on_write, other_unix, windows,
}

-- The number of calls of a callback, for callbacks told apart by a test.
abbrev is_callback : Callback → Callback → Bool
is_callback on_event on_event = true
is_callback on_close on_close = true
is_callback on_error on_error = true
is_callback on_read on_read = true
is_callback on_write on_write = true
is_callback _ _ = false

abbrev pub calls : Callback → List Callback → ℕ
calls k [] = 0
calls k (j ∷ js) = (if is_callback k j then 1 else 0) + calls k js

-- On a channel that watches something, is not tied to a dead object and has no event callback, each
-- of the four callbacks is called at most once, and exactly if it is set and its bits arrived:
-- close for a hang-up with no input, error, read (on Linux also for a peer that closed its side),
-- and write; with no event callback set none is made.
pub handle_event-calls :
    (alive : Bool) (c : Channel)
    → is_none_event c.events ≡ false
    → (c.tied && not alive) ≡ false
    → c.event_set ≡ false
    → let r = handle_event linux alive c in
      (calls on_close r
        ≡ (if c.revents.pollhup && not c.revents.pollin && c.close_set then 1 else 0))
      × (calls on_error r
          ≡ (if (c.revents.pollnval || c.revents.pollerr) && c.error_set then 1 else 0))
      × (calls on_read r ≡ (
          if (c.revents.pollin || c.revents.pollpri || c.revents.pollrdhup) && c.read_set
          then 1
          else 0))
      × (calls on_write r ≡ (if c.revents.pollout && c.write_set then 1 else 0))
      × (calls on_event r ≡ 0)
unfolding handle_event
handle_event-calls alive c watching held plain = ground arith

abbrev rank : Callback → ℕ
rank on_event = 0
rank on_close = 1
rank on_error = 2
rank on_read = 3
rank on_write = 4

-- The callbacks stand in the order event, close, error, read, write, none twice, from rank `n` on.
abbrev pub IsOrdered : ℕ → List Callback → Type 0
IsOrdered n [] = Unit {0}
IsOrdered n (k ∷ ks) = (n ≤ rank k) × IsOrdered (suc (rank k)) ks

-- On every platform, and for every state of the channel, the callbacks come in that order.
pub handle_event-IsOrdered :
    (p : Platform) (alive : Bool) (c : Channel) → IsOrdered 0 (handle_event p alive c)
unfolding handle_event
handle_event-IsOrdered linux alive c = ground arith
handle_event-IsOrdered windows alive c = ground arith
handle_event-IsOrdered other_unix alive c = ground arith

-- Writing and reading are watched independently: switching one on or off does what it says and
-- leaves the other, and switching writing on before switching it off adds nothing.
pub enable_writing_lem :
    (c : Channel)
    → (is_writing (enable_writing c) ≡ true)
      × (is_writing (disable_writing c) ≡ false)
      × (is_reading (enable_writing c) ≡ is_reading c)
      × (is_reading (disable_writing c) ≡ is_reading c)
      × (is_writing (enable_reading c) ≡ is_writing c)
      × (is_writing (disable_reading c) ≡ is_writing c)
      × (disable_writing (enable_writing c) ≡ disable_writing c)
unfolding is_writing is_reading enable_writing disable_writing enable_reading disable_reading
enable_writing_lem c = (
  ground arith,
  ground arith,
  ground arith,
  ground arith,
  ground arith,
  ground arith,
  ground arith,
)
