-- ===== src/Poller/Tests.antt =====
-- The pollers at concrete sequences of calls.

use netpoll_cpp.Poller.Epoll
use netpoll_cpp.Poller.Epoll.Watched as Interest
use netpoll_cpp.Poller.Polls
use netpoll_cpp.Poller.Polls.Valid
use netpoll_cpp.Poller.Kqueue as Bsd
use netpoll_cpp.Base.{List, [], arith, false, none, refl, ℕ, ◌∷◌, ◌≡◌}
use netpoll_cpp.Channel.{is_none_event, none_event, read_event, write_event}
use netpoll_cpp.Poller.Client.{Request, asks, drops, makes}
use netpoll_cpp.Poller.Epoll.{Call, IsConsistent, new_poller, removes, run, run-new_poller, updates}
use netpoll_cpp.Poller.Kqueue.{new_kqueue}
use netpoll_cpp.Poller.Kqueue.Fork.{is_key, reset_after_fork, watched-reset_after_fork}
use netpoll_cpp.Poller.Kqueue.Laws.{update_laws}
use netpoll_cpp.Poller.Refinement.{new_kqueue-IsValid}

abbrev calls : List Call
calls = updates 5 read_event ∷ updates 7 write_event ∷ updates 5 none_event ∷ removes 5 ∷ []

run-calls : (run (new_poller 16) calls).index 7 ≡ Epoll.added
unfolding run new_poller is_none_event
run-calls = refl

-- The descriptor 5 has the first entry when it is removed, and 9 the last; a new channel then has it.
abbrev requests : List Request
requests =
    asks 5 read_event
    ∷ asks 7 write_event
    ∷ asks 9 read_event
    ∷ drops 5
    ∷ makes 5
    ∷ asks 5 write_event
    ∷ []

abbrev reading : Bsd.Kqueue
reading = Bsd.update_channel 5 read_event new_kqueue

only_five : (fd : ℕ) → is_key fd (5 ∷ []) ≡ false → reading.masks fd ≡ none
unfolding new_kqueue Bsd.update_channel is_none_event
only_five fd h = ground (arith, h)

watched-reset_after_fork_example :
    Bsd.watched (reset_after_fork (5 ∷ []) reading) 5 ≡ Bsd.watched reading 5
watched-reset_after_fork_example =
    watched-reset_after_fork (5 ∷ []) reading
      (update_laws 5 read_event new_kqueue new_kqueue-IsValid).0 (refl, tt) only_five 5
