-- ===== src/Poller/Polls.antt =====
-- `PollPoller` (netpoll/net/inner/poller/poll_poller.cc): one array for `poll`, from which the last
-- entry is moved into the place of one that is removed.
pub mod Valid
pub mod Removal
pub mod Watched
pub mod Stale
pub mod Ready
use netpoll_cpp.Base.{
  Bool, List, Option, [], false, get_elem?, if◌then◌else◌, length, ltb, negsuc, none, pos, set,
  set_at, some, suc, take, true, ℕ, ℤ, ◌++◌, ◌-◌, ◌==◌, ◌∷◌,
}
use netpoll_cpp.Channel.{Flags, is_none_event}

-- `negsuc n` is -n - 1.
pub record PollFd : Type 0 where
  pub fd : ℤ
  pub events : Flags

-- `pollfds_`, `m_index` of the channel that was made last for each descriptor, where `none` is a
-- negative index, and the keys of `channels_`.
pub record PollPoller : Type 0 where
  pub pollfds : List PollFd
  pub index : ℕ → Option ℕ
  pub channels : ℕ → Bool

unfoldable pub new_poll_poller : PollPoller
new_poll_poller = record { pollfds = []; index = λ fd. none; channels = λ fd. false }

-- An index behind the end, which the source asserts not to be, changes nothing.
unfoldable pub update_channel : ℕ → Flags → PollPoller → PollPoller
update_channel fd e p = elim (p.index fd) [
  | none ↦ record {
    pollfds = p.pollfds ++ (record { fd = pos fd; events = e } ∷ []);
    index = set_at fd (some (length p.pollfds)) p.index;
    channels = set_at fd true p.channels;
  }
  | some i ↦ record p {
    pollfds =
        set p.pollfds i (record { fd = if is_none_event e then negsuc fd else pos fd; events = e });
  }
]

-- The descriptor that an entry is about, which for an ignored one is -fd - 1.
abbrev pub owner : PollFd → ℕ
owner x = elim x.fd [ pos n ↦ n | negsuc n ↦ n ]

-- `pollfds_.pop_back()`.
abbrev pub pop_back : List PollFd → List PollFd
pop_back xs = take (length xs - 1) xs

-- The last entry comes to the place `i`, and its channel gets that index.
pub move_last : ℕ → PollFd → PollPoller → PollPoller
move_last i z p = record p {
  pollfds = pop_back (set p.pollfds i z);
  index = set_at (owner z) (some i) p.index;
}

-- The channel that is removed keeps its index. A channel without an index in the array,
-- which the source asserts not to be removed, is only taken out of `channels_`.
unfoldable pub remove_channel : ℕ → PollPoller → PollPoller
unfolding move_last
remove_channel fd p =
    let q : PollPoller = record p { channels = set_at fd false p.channels } in
    elim (p.index fd) [
      | none ↦ q
      | some i ↦
          if i == length p.pollfds - 1
          then record q { pollfds = pop_back p.pollfds }
          else elim (get_elem? p.pollfds (length p.pollfds - 1)) [
            | none ↦ q
            | some z ↦ move_last i z q
          ]
    ]

-- The constructor of a `Channel`, which has no index. The last channel with its descriptor, and the
-- index that it kept, are gone.
unfoldable pub make_channel : ℕ → PollPoller → PollPoller
make_channel fd p = record p { index = set_at fd none p.index }

-- `fillActiveChannels`, for the entries from one on, each with its `revents`: the channels with
-- theirs, until `num` are found.
unfoldable pub fill_active_channels : ℕ → ℕ → List (PollFd × Flags) → List (ℕ × Flags)
fill_active_channels processed num [] = []
fill_active_channels processed num (x ∷ xs) =
    let rest = fill_active_channels processed num xs in
    let more = fill_active_channels (suc processed) num xs in
    if is_none_event x.1
    then rest
    else (owner x.0, x.1) ∷ (if suc processed == num then [] else more)

-- `poll`, by the answer of the system call; it is negative for a failure, which reports nothing.
unfoldable pub poll : ℕ → List (PollFd × Flags) → List (ℕ × Flags)
unfolding fill_active_channels
poll num xs = if ltb 0 num then fill_active_channels 0 num xs else []
