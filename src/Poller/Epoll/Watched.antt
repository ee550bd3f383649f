-- ===== src/Poller/Epoll/Watched.antt =====
-- What epoll watches after each call.
use netpoll_cpp.Base.{
  Bool, Bool-cases, arith, false, if◌then◌else◌, inl, inr, none, some, true, ℕ, ◌==◌, ◌≡◌,
}
use netpoll_cpp.Channel.{Flags, is_none_event}
use netpoll_cpp.Poller.{wants, wants_nothing}
use netpoll_cpp.Poller.Epoll.{
  EpollPoller, IsConsistent, added, deleted, interest, new, remove_channel, update_channel,
}

-- What the kernel watches a descriptor for, by the interest list of epoll.
abbrev pub watched : EpollPoller → ℕ → Bool × Bool
watched p fd = elim (interest p.ctl_calls fd) [ none ↦ (false, false) | some e ↦ wants e ]

abbrev pub registered : EpollPoller → ℕ → Bool
registered p fd = elim (p.index fd) [ new ↦ false | added ↦ true | deleted ↦ true ]

pub watched-update :
    (fd other : ℕ) (e : Flags) (p : EpollPoller)
    → IsConsistent p
    → watched (update_channel fd e p) other ≡ (if fd == other then wants e else watched p other)
unfolding update_channel
watched-update fd other e p v = elim (Bool-cases (is_none_event e)) [
  | inl nothing ↦ ground (arith, nothing, wants_nothing e nothing, v.agrees fd)
  | inr something ↦ ground (arith, something, v.agrees fd)
]

pub watched-remove :
    (fd other : ℕ) (p : EpollPoller)
    → IsConsistent p
    → watched (remove_channel fd p) other
      ≡ (if fd == other then (false, false) else watched p other)
unfolding remove_channel
watched-remove fd other p v = ground (arith, v.agrees fd)
