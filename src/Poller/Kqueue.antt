-- ===== src/Poller/Kqueue.antt =====
-- `KQueue` (netpoll/net/inner/poller/kqueue.cc), the poller of the BSDs: one filter for input and one
-- for output, of which only the differences are handed to the kernel.

pub mod Active
pub mod Filters
pub mod Fork
pub mod Laws
use mathlib.Core.Path.{ap₂}
use netpoll_cpp.Base.{
  Bool, List, Option, [], false, if◌then◌else◌, none, not, set_at, some, true, ℕ, ◌&&◌, ◌==◌, ◌∷◌,
  ◌≡◌,
}
use netpoll_cpp.Channel.{Flags, is_none_event, none_event}
use netpoll_cpp.Poller.{wants}
use netpoll_cpp.Poller.Epoll.{Index, added, deleted, new}

pub data Filter : Type 0 where
  read_filter write_filter : Filter

-- A change for `kevent`: EV_ADD | EV_ENABLE, or EV_DELETE.
pub record Change : Type 0 where
  pub filter : Filter
  pub fd : ℕ
  pub adds : Bool

-- `m_index` of each channel, the masks in `channels_`, and the changes made, the latest first.
pub record Kqueue : Type 0 where
  pub index : ℕ → Index
  pub masks : ℕ → Option Flags
  pub changes : List Change

unfoldable pub new_kqueue : Kqueue
new_kqueue = record { index = λ fd. new; masks = λ fd. none; changes = [] }

-- One filter in `update`: from what was asked for to what is asked for.
abbrev pub change_filter : Filter → ℕ → Bool → Bool → List Change → List Change
change_filter f fd now old cs =
    if now && not old
    then record { filter = f; fd = fd; adds = true } ∷ cs
    else if not now && old
    then record { filter = f; fd = fd; adds = false } ∷ cs
    else cs

abbrev pub old_events : Option Flags → Flags
old_events none = none_event
old_events (some e) = e

-- `update(channel)`.
pub apply_changes : ℕ → Flags → Kqueue → Kqueue
apply_changes fd e k =
    let old = old_events (k.masks fd) in
    record k {
      masks = set_at fd (some e) k.masks;
      changes =
          change_filter write_filter fd (wants e).1 (wants old).1
            (change_filter read_filter fd (wants e).0 (wants old).0 k.changes);
    }

unfoldable pub update_channel : ℕ → Flags → Kqueue → Kqueue
unfolding apply_changes
update_channel fd e k =
    let r = apply_changes fd e k in
    elim (k.index fd) [
      | new ↦ record r { index = set_at fd added k.index }
      | deleted ↦ record r { index = set_at fd added k.index }
      | added ↦ if is_none_event e then record r { index = set_at fd deleted k.index } else r
    ]

-- The channel watches nothing when it is removed, as the source asserts.
unfoldable pub remove_channel : ℕ → Kqueue → Kqueue
unfolding apply_changes
remove_channel fd k =
    let r : Kqueue = elim (k.index fd) [ added ↦ apply_changes fd none_event k | _ ↦ k ] in
    record r { index = set_at fd new k.index; masks = set_at fd none r.masks }

-- The constructor of a `Channel`. The last channel with its descriptor is gone.
unfoldable pub make_channel : ℕ → Kqueue → Kqueue
make_channel fd k = record k { index = set_at fd new k.index }

abbrev same_filter : Filter → Filter → Bool
same_filter read_filter read_filter = true
same_filter write_filter write_filter = true
same_filter _ _ = false

-- Whether the kernel holds a filter after the changes.
abbrev pub holds : List Change → Filter → ℕ → Bool
holds [] f fd = false
holds (c ∷ cs) f fd = if same_filter c.filter f && c.fd == fd then c.adds else holds cs f fd

abbrev pub watched : Kqueue → ℕ → Bool × Bool
watched k fd = (holds k.changes read_filter fd, holds k.changes write_filter fd)

abbrev pub registered : Kqueue → ℕ → Bool
registered k fd = elim (k.index fd) [ new ↦ false | added ↦ true | deleted ↦ true ]

-- The kernel holds the filters that the masks ask for; a channel that is new has no mask, and one
-- that is deleted asks for nothing.
pub record IsValid (k : Kqueue) : Type 0 where
  pub agrees : (fd : ℕ) → watched k fd ≡ wants (old_events (k.masks fd))
  pub no_mask : (fd : ℕ) → k.index fd ≡ new → k.masks fd ≡ none
  pub asks_nothing :
      (fd : ℕ) → k.index fd ≡ deleted → wants (old_events (k.masks fd)) ≡ (false, false)
