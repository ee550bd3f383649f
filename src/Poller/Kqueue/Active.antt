-- ===== src/Poller/Kqueue/Active.antt =====
-- `poll` and `fillActiveChannels` of a `KQueue`: the answer of `kevent` becomes the list of active
-- channels and their `revents`. A channel is named by its descriptor.
use netpoll_cpp.Base.{
  List, [], ap, arith, if◌then◌else◌, length, refl, set_at, true, ℕ, ◌*◌, ◌==◌, ◌∷◌, ◌≡◌,
}
use netpoll_cpp.Channel.{
  Channel, Flags, handle_event_safely, none_event, on_event, on_write, other_unix, set_revents,
  write_event,
}
use netpoll_cpp.Poller.Kqueue.{Filter, read_filter, write_filter}

-- An entry of `events_`: a filter and the channel of its `udata`.
pub data KernelEvent : Type 0 where
  report : Filter → ℕ → KernelEvent
  other_report : ℕ → KernelEvent

-- `activeChannels` and `m_revents` of each channel.
pub record Activity : Type 0 where
  pub active_channels : List ℕ
  pub revents : ℕ → Flags

abbrev revents_for : Filter → Flags
revents_for read_filter = record none_event { pollin = true }
revents_for write_filter = write_event

-- The loop's body, with what the rest of the loop does to the store of the channels.
unfoldable pub fill_active_channels : List KernelEvent → (ℕ → Flags) → Activity
fill_active_channels [] r = record { active_channels = []; revents = r }
fill_active_channels (other_report fd ∷ es) r = fill_active_channels es r
fill_active_channels (report f fd ∷ es) r =
    let rest = fill_active_channels es (set_at fd (revents_for f) r) in
    record rest { active_channels = fd ∷ rest.active_channels }

abbrev listed : List KernelEvent → List ℕ
listed [] = []
listed (other_report fd ∷ es) = listed es
listed (report f fd ∷ es) = fd ∷ listed es

-- The latest report for a channel, or else what was there before.
abbrev latest : ℕ → List KernelEvent → Flags → Flags
latest g [] e = e
latest g (other_report fd ∷ es) e = latest g es e
latest g (report f fd ∷ es) e = latest g es (if fd == g then revents_for f else e)

-- A channel is active once for every filter that is ready, in the order of the reports.
pub active_channels-fill_active_channels :
    (es : List KernelEvent) (r : ℕ → Flags)
    → (fill_active_channels es r).active_channels ≡ listed es
unfolding fill_active_channels
active_channels-fill_active_channels [] r = refl
active_channels-fill_active_channels (other_report fd ∷ es) r =
    active_channels-fill_active_channels es r
active_channels-fill_active_channels (report f fd ∷ es) r =
    ap (λ l. fd ∷ l) (active_channels-fill_active_channels es (set_at fd (revents_for f) r))

-- Of several reports for one channel only the latest is kept.
pub revents-fill_active_channels :
    (es : List KernelEvent) (r : ℕ → Flags) (g : ℕ)
    → (fill_active_channels es r).revents g ≡ latest g es (r g)
unfolding fill_active_channels
revents-fill_active_channels [] r g = refl
revents-fill_active_channels (other_report fd ∷ es) r g = revents-fill_active_channels es r g
revents-fill_active_channels (report f fd ∷ es) r g =
    revents-fill_active_channels es (set_at fd (revents_for f) r) g

-- What `kevent` answers: a failure, or events.
pub data KernelAnswer : Type 0 where
  kevent_failed : KernelAnswer
  reports : List KernelEvent → KernelAnswer

-- `poll`; `size` is the size of `events_`, which doubles once it is filled.
pub poll : KernelAnswer → ℕ → (ℕ → Flags) → Activity × ℕ
unfolding fill_active_channels
poll kevent_failed size r = (record { active_channels = []; revents = r }, size)
poll (reports []) size r = (record { active_channels = []; revents = r }, size)
poll (reports (e ∷ es)) size r =
    (fill_active_channels (e ∷ es) r, if length (e ∷ es) == size then size * 2 else size)

-- A channel whose input and output are ready, reported in this order, is active twice, and both
-- times nothing but the write callback is made: the input waits for a later poll.
pub output_hides_input :
    (fd : ℕ) (r : ℕ → Flags) (c : Channel)
    → let a = fill_active_channels (report read_filter fd ∷ report write_filter fd ∷ []) r in
      (a.active_channels ≡ fd ∷ fd ∷ [])
      × (handle_event_safely other_unix (set_revents (a.revents fd) c)
          ≡ (if c.event_set then on_event ∷ [] else if c.write_set then on_write ∷ [] else []))
unfolding fill_active_channels handle_event_safely set_revents
output_hides_input fd r c = ground arith
