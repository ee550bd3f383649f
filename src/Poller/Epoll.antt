-- ===== src/Poller/Epoll.antt =====
-- `EpollPoller` (netpoll/net/inner/poller/epoll_poller.cc): which calls of `epoll_ctl` it makes. The
-- kernel's interest list is what the documented effect of those calls leaves.
pub mod Watched
use netpoll_cpp.Base.{
  List, Option, [], arith, false, if◌then◌else◌, length, none, refl, some, ℕ, ◌*◌, ◌==◌, ◌∷◌, ◌≡◌,
  ◌≢◌,
}
use netpoll_cpp.Channel.{Flags, is_none_event, none_event}

pub data Index : Type 0 where
  new added deleted : Index

pub data Ctl : Type 0 where
  add mod_ del : Ctl

-- A call of `epoll_ctl`: its operation, descriptor and mask.
pub record CtlCall : Type 0 where
  pub op : Ctl
  pub fd : ℕ
  pub mask : Flags

-- `m_index` of each channel, the calls made so far, the latest first, and `m_events.size()`.
pub record EpollPoller : Type 0 where
  pub index : ℕ → Index
  pub ctl_calls : List CtlCall
  pub capacity : ℕ

abbrev set_index : ℕ → Index → (ℕ → Index) → ℕ → Index
set_index fd i f g = if fd == g then i else f g

-- `update(operation, channel)`.
pub update : Ctl → ℕ → Flags → EpollPoller → EpollPoller
update op fd e p = record p { ctl_calls = record { op = op; fd = fd; mask = e } ∷ p.ctl_calls }

-- An index that is neither `kNew` nor `kDeleted` is `kAdded`.
update_added : ℕ → Flags → EpollPoller → EpollPoller
unfolding update
update_added fd e p =
    if is_none_event e
    then (let q = update del fd e p in record q { index = set_index fd deleted q.index })
    else update mod_ fd e p

update_new : ℕ → Flags → EpollPoller → EpollPoller
unfolding update
update_new fd e p = update add fd e (record p { index = set_index fd added p.index })

unfoldable pub update_channel : ℕ → Flags → EpollPoller → EpollPoller
unfolding update_added update_new
update_channel fd e p = elim (p.index fd) [
  | new ↦ update_new fd e p
  | added ↦ update_added fd e p
  | deleted ↦ update_new fd e p
]

-- The channel watches nothing when it is removed, as the source asserts.
unfoldable pub remove_channel : ℕ → EpollPoller → EpollPoller
unfolding update
remove_channel fd p =
    let q : EpollPoller = elim (p.index fd) [ added ↦ update del fd none_event p | _ ↦ p ] in
    record q { index = set_index fd new q.index }

-- The constructor of a `Channel`. The last channel with its descriptor is gone.
unfoldable pub make_channel : ℕ → EpollPoller → EpollPoller
make_channel fd p = record p { index = set_index fd new p.index }

-- What `epoll_wait` answers: a failure, or descriptors with their events.
pub data Wait : Type 0 where
  wait_failed : Wait
  ready : List (ℕ × Flags) → Wait

-- `poll`: the active channels with their `revents`. The event list doubles once it is filled.
pub poll : Wait → EpollPoller → List (ℕ × Flags) × EpollPoller
poll wait_failed p = ([], p)
poll (ready events) p =
    (events, if length events == p.capacity then record p { capacity = p.capacity * 2 } else p)

-- The interest list that the calls leave: `add` and `mod_` set the mask, `del` takes it out.
abbrev pub interest : List CtlCall → ℕ → Option Flags
interest [] fd = none
interest (c ∷ cs) fd =
    if c.fd == fd
    then elim c.op [ add ↦ some c.mask | mod_ ↦ some c.mask | del ↦ none ]
    else interest cs fd

-- Whether no call fails: `add` needs a descriptor that is not in the list, the others one that is.
abbrev CallSucceeds : Ctl → Option Flags → Type 0
CallSucceeds add o = o ≡ none
CallSucceeds mod_ o = o ≢ none
CallSucceeds del o = o ≢ none

abbrev pub AllSucceed : List CtlCall → Type 0
AllSucceed [] = Unit {0}
AllSucceed (c ∷ cs) = CallSucceeds c.op (interest cs c.fd) × AllSucceed cs

abbrev AgreesAt : Index → Option Flags → Type 0
AgreesAt new o = o ≡ none
AgreesAt added o = o ≢ none
AgreesAt deleted o = o ≡ none

-- The indices say which descriptors are in the interest list, and every call so far succeeds.
pub record IsConsistent (p : EpollPoller) : Type 0 where
  pub agrees : (fd : ℕ) → AgreesAt (p.index fd) (interest p.ctl_calls fd)
  pub succeed : AllSucceed p.ctl_calls

pub update_channel-IsConsistent :
    (fd : ℕ) (e : Flags) (p : EpollPoller) → IsConsistent p → IsConsistent (update_channel fd e p)
unfolding update_channel
update_channel-IsConsistent fd e p v = record {
  agrees = λ g. ground (arith, v.agrees g, v.agrees fd);
  succeed = ground (arith, v.agrees fd, v.succeed);
}

pub remove_channel-IsConsistent :
    (fd : ℕ) (p : EpollPoller) → IsConsistent p → IsConsistent (remove_channel fd p)
unfolding remove_channel
remove_channel-IsConsistent fd p v = record {
  agrees = λ g. ground (arith, v.agrees g, v.agrees fd);
  succeed = ground (arith, v.agrees fd, v.succeed);
}

-- The calls of an event loop.
pub data Call : Type 0 where
  updates : ℕ → Flags → Call
  removes : ℕ → Call
  polls : Wait → Call

pub step : EpollPoller → Call → EpollPoller
unfolding update_channel remove_channel poll
step p (updates fd e) = update_channel fd e p
step p (removes fd) = remove_channel fd p
step p (polls w) = (poll w p).1

unfoldable pub run : EpollPoller → List Call → EpollPoller
unfolding step
run p [] = p
run p (c ∷ cs) = run (step p c) cs

-- The constructor: `kInitEventListSize` events.
unfoldable pub new_poller : ℕ → EpollPoller
new_poller n = record { index = λ fd. new; ctl_calls = []; capacity = n }

poll-IsConsistent : (w : Wait) (p : EpollPoller) → IsConsistent p → IsConsistent (poll w p).1
unfolding poll
poll-IsConsistent wait_failed p v = v
poll-IsConsistent (ready events) p v = record {
  agrees = λ g. ground (arith, v.agrees g);
  succeed = ground (arith, v.succeed);
}

run-IsConsistent : (cs : List Call) (p : EpollPoller) → IsConsistent p → IsConsistent (run p cs)
unfolding run step
run-IsConsistent [] p v = v
run-IsConsistent (updates fd e ∷ cs) p v =
    run-IsConsistent cs (update_channel fd e p) (update_channel-IsConsistent fd e p v)
run-IsConsistent (removes fd ∷ cs) p v =
    run-IsConsistent cs (remove_channel fd p) (remove_channel-IsConsistent fd p v)
run-IsConsistent (polls w ∷ cs) p v = run-IsConsistent cs (poll w p).1 (poll-IsConsistent w p v)

-- However a new poller is used, no `epoll_ctl` call fails: `ADD` is called only for descriptors
-- that the kernel does not watch, `MOD` and `DEL` only for those that it does, and `m_index` says
-- which these are.
pub run-new_poller : (n : ℕ) (cs : List Call) → IsConsistent (run (new_poller n) cs)
unfolding new_poller
run-new_poller n cs = run-IsConsistent cs _ (record { agrees = λ fd. refl; succeed = tt })

-- After an update with a mask that is not empty the kernel watches the descriptor for exactly that
-- mask, after a removal it does not watch it, and the other descriptors are as they were.
pub interest-update_channel :
    (fd other : ℕ) (e : Flags) (p : EpollPoller)
    → IsConsistent p
    → is_none_event e ≡ false
    → fd ≢ other
    → (interest (update_channel fd e p).ctl_calls fd ≡ some e)
      × (interest (remove_channel fd p).ctl_calls fd ≡ none)
      × (interest (update_channel fd e p).ctl_calls other ≡ interest p.ctl_calls other)
      × (interest (remove_channel fd p).ctl_calls other ≡ interest p.ctl_calls other)
unfolding update_channel remove_channel
interest-update_channel fd other e p v some_bit ne = ground (arith, v.agrees fd)
