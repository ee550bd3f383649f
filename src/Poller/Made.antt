-- ===== src/Poller/Made.antt =====
-- A new channel for a descriptor that is not registered changes nothing of what is watched.
use netpoll_cpp.Poller.Epoll
use netpoll_cpp.Poller.Epoll.Watched as Interest
use netpoll_cpp.Poller.Polls
use netpoll_cpp.Poller.Polls.Valid
use netpoll_cpp.Poller.Kqueue as Bsd
use netpoll_cpp.Base.{arith, false, refl, ℕ, ◌≡◌}
use netpoll_cpp.Poller.Epoll.{EpollPoller, IsConsistent}
use netpoll_cpp.Poller.Kqueue.{Kqueue}
use netpoll_cpp.Poller.Polls.{PollPoller}

pub made_poll :
    (fd : ℕ) (p : PollPoller)
    → Valid.IsValid p
    → p.channels fd ≡ false
    → Valid.IsValid (Polls.make_channel fd p)
      × ((other : ℕ) → Valid.watched (Polls.make_channel fd p) other ≡ Valid.watched p other)
unfolding Polls.make_channel
made_poll fd p v r = (
  record {
    placed = λ g rg. let (i, (ei, rest)) = v.placed g rg in (i, (ground (arith, r, rg, ei), rest));
    owned = λ i x ex. ground (arith, v.owned i x ex, r);
  },
  λ other. ground (arith, r),
)

pub made_epoll :
    (fd : ℕ) (p : EpollPoller)
    → IsConsistent p
    → Interest.registered p fd ≡ false
    → IsConsistent (Epoll.make_channel fd p)
      × ((other : ℕ) → Interest.watched (Epoll.make_channel fd p) other ≡ Interest.watched p other)
unfolding Epoll.make_channel
made_epoll fd p v r = (
  record { agrees = λ g. ground (arith, r, v.agrees g, v.agrees fd); succeed = v.succeed },
  λ other. refl,
)

pub made_kqueue :
    (fd : ℕ) (k : Kqueue)
    → Bsd.IsValid k
    → Bsd.registered k fd ≡ false
    → Bsd.IsValid (Bsd.make_channel fd k)
      × ((other : ℕ) → Bsd.watched (Bsd.make_channel fd k) other ≡ Bsd.watched k other)
unfolding Bsd.make_channel
made_kqueue fd k v r = (
  record {
    agrees = v.agrees;
    no_mask = λ g e. ground (arith, r, v.no_mask g, v.no_mask fd, e);
    asks_nothing = λ g e. ground (arith, r, v.asks_nothing g, e);
  },
  λ other. refl,
)
