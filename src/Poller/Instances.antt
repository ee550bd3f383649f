-- ===== src/Poller/Instances.antt =====
-- The three pollers, as what `Poller::newDefaultPoller` and the builds choose from.
use netpoll_cpp.Poller.Epoll
use netpoll_cpp.Poller.Epoll.Watched as Interest
use netpoll_cpp.Poller.Polls
use netpoll_cpp.Poller.Polls.Valid
use netpoll_cpp.Poller.Polls.Watched
use netpoll_cpp.Poller.Kqueue as Bsd
use netpoll_cpp.Poller.Kqueue.Laws
use netpoll_cpp.Poller.Made
use netpoll_cpp.Base.{true}
use netpoll_cpp.Poller.{Poller}
use netpoll_cpp.Poller.Epoll.{
  EpollPoller, IsConsistent, remove_channel-IsConsistent, update_channel-IsConsistent,
}
use netpoll_cpp.Poller.Epoll.Watched.{watched-remove, watched-update}
use netpoll_cpp.Poller.Kqueue.{IsValid, Kqueue, registered, remove_channel, update_channel, watched}
use netpoll_cpp.Poller.Polls.{PollPoller}
use netpoll_cpp.Poller.Polls.Valid.{accepts}

abbrev pub epoll_poller : Poller
epoll_poller = record {
  State = EpollPoller;
  IsValid = IsConsistent;
  watched = Interest.watched;
  accepts = λ p fd. true;
  registered = Interest.registered;
  update_channel = Epoll.update_channel;
  remove_channel = Epoll.remove_channel;
  make_channel = Epoll.make_channel;
  update-IsValid = λ fd e p v a. update_channel-IsConsistent fd e p v;
  remove-IsValid = λ fd p v r. remove_channel-IsConsistent fd p v;
  make-IsValid = λ fd p v r. (Made.made_epoll fd p v r).0;
  watched-update = λ fd other e p v a. Interest.watched-update fd other e p v;
  watched-remove = λ fd other p v r. Interest.watched-remove fd other p v;
  watched-make = λ fd other p v r. (Made.made_epoll fd p v r).1 other;
}

abbrev pub poll_poller : Poller
poll_poller = record {
  State = PollPoller;
  IsValid = Valid.IsValid;
  watched = Valid.watched;
  accepts = Valid.accepts;
  registered = λ p fd. p.channels fd;
  update_channel = Polls.update_channel;
  remove_channel = Polls.remove_channel;
  make_channel = Polls.make_channel;
  update-IsValid = λ fd e p v a. (Watched.update_laws fd p v e a).0;
  remove-IsValid = λ fd p v r. (Watched.remove_laws fd p v r).0;
  make-IsValid = λ fd p v r. (Made.made_poll fd p v r).0;
  watched-update = λ fd other e p v a. (Watched.update_laws fd p v e a).1 other;
  watched-remove = λ fd other p v r. (Watched.remove_laws fd p v r).1 other;
  watched-make = λ fd other p v r. (Made.made_poll fd p v r).1 other;
}

abbrev pub kqueue_poller : Poller
kqueue_poller = record {
  State = Kqueue;
  IsValid = Bsd.IsValid;
  watched = Bsd.watched;
  accepts = λ k fd. true;
  registered = Bsd.registered;
  update_channel = Bsd.update_channel;
  remove_channel = Bsd.remove_channel;
  make_channel = Bsd.make_channel;
  update-IsValid = λ fd e k v a. (Laws.update_laws fd e k v).0;
  remove-IsValid = λ fd k v r. (Laws.remove_laws fd k v r).0;
  make-IsValid = λ fd k v r. (Made.made_kqueue fd k v r).0;
  watched-update = λ fd other e k v a. (Laws.update_laws fd e k v).1 other;
  watched-remove = λ fd other k v r. (Laws.remove_laws fd k v r).1 other;
  watched-make = λ fd other k v r. (Made.made_kqueue fd k v r).1 other;
}
