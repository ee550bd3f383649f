-- ===== src/Poller.antt =====
-- The pollers of netpoll/net/inner/poller.h and poller/. A channel is named by its descriptor: no
-- two channels with one descriptor are registered at a time, which the sources assert.
pub mod Epoll
pub mod Polls
pub mod Kqueue
pub mod Client
pub mod Made
pub mod Instances
pub mod Refinement
mod Tests
use netpoll_cpp.Base.{Bool, arith, false, if◌then◌else◌, true, ℕ, ◌==◌, ◌≡◌}
use netpoll_cpp.Channel.{Flags, is_none_event, read_event, shares_flag, write_event}

-- What a mask asks for: to be told of input, and of room for output.
abbrev pub wants : Flags → Bool × Bool
wants e = (shares_flag e read_event, shares_flag e write_event)

pub wants_nothing : (e : Flags) → is_none_event e ≡ true → wants e ≡ (false, false)
unfolding is_none_event shares_flag
wants_nothing e h = ground arith

-- What a poller promises its event loop, for channels that it accepts: the kernel watches each for
-- what the last update asked for, and not at all once it is removed.
pub record Poller : Type 1 where
  pub State : Type 0
  pub IsValid : State → Type 0
  pub watched : State → ℕ → Bool × Bool
  pub accepts : State → ℕ → Bool
  pub registered : State → ℕ → Bool
  pub update_channel : ℕ → Flags → State → State
  pub remove_channel : ℕ → State → State
  -- A new `Channel` object for a descriptor, whose last one is gone.
  pub make_channel : ℕ → State → State
  pub update-IsValid :
      (fd : ℕ) (e : Flags) (s : State)
      → IsValid s
      → accepts s fd ≡ true
      → IsValid (update_channel fd e s)
  pub remove-IsValid :
      (fd : ℕ) (s : State) → IsValid s → registered s fd ≡ true → IsValid (remove_channel fd s)
  pub make-IsValid :
      (fd : ℕ) (s : State) → IsValid s → registered s fd ≡ false → IsValid (make_channel fd s)
  pub watched-update :
      (fd other : ℕ) (e : Flags) (s : State)
      → IsValid s
      → accepts s fd ≡ true
      → watched (update_channel fd e s) other ≡ (if fd == other then wants e else watched s other)
  pub watched-remove :
      (fd other : ℕ) (s : State)
      → IsValid s
      → registered s fd ≡ true
      → watched (remove_channel fd s) other
        ≡ (if fd == other then (false, false) else watched s other)
  pub watched-make :
      (fd other : ℕ) (s : State)
      → IsValid s
      → registered s fd ≡ false
      → watched (make_channel fd s) other ≡ watched s other
