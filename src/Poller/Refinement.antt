-- ===== src/Poller/Refinement.antt =====
-- The three pollers from their construction on, and that it does not matter which a build has.

use netpoll_cpp.Poller.Polls.Valid
use netpoll_cpp.Poller.Kqueue as Bsd
use netpoll_cpp.Poller.Epoll.Watched as Interest
use netpoll_cpp.Base.{Bool, List, arith, false, refl, ℕ, ◌≡◌}
use netpoll_cpp.Channel.{shares_flag}
use netpoll_cpp.Poller.Client.{AllowsAll, Request, replay, serve, serve_refines}
use netpoll_cpp.Poller.Instances.{kqueue_poller}
use netpoll_cpp.Poller.Kqueue.{new_kqueue}
use netpoll_cpp.Poller.Polls.{new_poll_poller}

abbrev nothing_watched : ℕ → Bool × Bool
nothing_watched fd = (false, false)

pub new_poll_poller-IsValid : Valid.IsValid new_poll_poller
unfolding new_poll_poller
new_poll_poller-IsValid = record {
  placed = λ fd r. ground (arith, r);
  owned = λ i x e. ground (arith, e);
}

pub new_kqueue-IsValid : Bsd.IsValid new_kqueue
unfolding new_kqueue shares_flag
new_kqueue-IsValid = record {
  agrees = λ fd. refl;
  no_mask = λ fd e. refl;
  asks_nothing = λ fd e. refl;
}

-- The differences that a `KQueue` hands to the kernel leave just the filters that the last call
-- about each descriptor asked for.
pub serve-kqueue_poller :
    (rs : List Request)
    → AllowsAll kqueue_poller rs new_kqueue
    → Bsd.watched (serve kqueue_poller rs new_kqueue) ≡ replay rs nothing_watched
unfolding new_kqueue
serve-kqueue_poller rs a = (serve_refines kqueue_poller rs new_kqueue new_kqueue-IsValid a).1
