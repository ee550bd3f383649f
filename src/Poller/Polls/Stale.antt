-- ===== src/Poller/Polls/Stale.antt =====
-- A channel that is updated after its removal, on a `PollPoller`.
use netpoll_cpp.Base.{
  ap, arith, false, get_elem?, get_elem?-set, get_elem?_lt, length, ltb, refl, set, some, true, ℕ,
  ◌-◌, ◌==◌, ◌∙◌, ◌≡◌, ◌≢◌,
}
use netpoll_cpp.Channel.{Flags}
use netpoll_cpp.Poller.Polls.{PollFd, PollPoller, owner, remove_channel, update_channel}
use netpoll_cpp.Poller.Polls.Removal.{in_range, moved, moved_entry}
use netpoll_cpp.Poller.Polls.Valid.{IsValid, renewed}

-- A removed channel keeps its index, where the entry of the channel that was last is now: when the
-- removed one is updated again, the array has its entry there, and none of the other's.
pub update-remove_overwrites :
    (fd : ℕ) (m : Flags) (p : PollPoller) (i : ℕ) (z : PollFd)
    → IsValid p
    → p.index fd ≡ some i
    → p.channels fd ≡ true
    → (i == length p.pollfds - 1) ≡ false
    → get_elem? p.pollfds (length p.pollfds - 1) ≡ some z
    → let q = update_channel fd m (remove_channel fd p) in
      (get_elem? q.pollfds i ≡ some (renewed fd m))
      × (q.index (owner z) ≡ some i)
      × (p.channels (owner z) ≡ true)
      × (owner z ≢ fd)
unfolding remove_channel update_channel moved
update-remove_overwrites fd m p i z v e r n a =
    let (rz, iz) = v.owned (length p.pollfds - 1) z a in
    let ne : owner z ≢ fd =
      λ same. let there : p.index (owner z) ≡ some i = ap p.index same ∙ e in ground arith in
    let other : (owner z == fd) ≡ false = ground arith in
    let here : (owner z == owner z) ≡ true = ground arith in
    let q = moved fd p v i r e z n a in
    let gone : remove_channel fd p ≡ q = rw (e, remove_channel, n, a) refl in
    let stays : q.index fd ≡ some i = rw other e in
    let iq : q.index (owner z) ≡ some i = rw here refl in
    let before : ltb i (length p.pollfds - 1) ≡ true =
      ground (arith, in_range fd p v i r e z n a) in
    let same : (i == i) ≡ true = ground arith in
    let entry : get_elem? q.pollfds i ≡ some z =
      moved_entry fd p v i r e z n a i ∙ rw (before, same) refl in
    let written : update_channel fd m q ≡ record q { pollfds = set q.pollfds i (renewed fd m) } =
      rw (stays, update_channel) refl in
    rw (gone, written)
      (
        ground (arith, get_elem?_lt q.pollfds i entry, get_elem?-set q.pollfds i i (renewed fd m)),
        iq,
        rz,
        ne,
      )
