-- ===== src/TimerQueue/Expired.antt =====
-- `getExpired`: which timers it takes from the queue.

use netpoll_cpp.Base.{List, [], arith, max, none, refl, ℕ, ◌++◌, ◌<◌, ◌∷◌, ◌≡◌}
use netpoll_cpp.TimerQueue.{Timer, get_expired}
use netpoll_cpp.TimerQueue.Sorted.{IsSortedFrom}

abbrev pub AllBefore : ℕ → List Timer → Type 0
AllBefore now [] = Unit {0}
AllBefore now (t ∷ ts) = (t.when < now) × AllBefore now ts

-- From a queue in the order of times, `getExpired` takes exactly the timers before `now`, in their
-- order, and leaves the others; no timer is kept as the highest or the lowest one.
pub get_expired_lem :
    (now n : ℕ) (ts : List Timer)
    → IsSortedFrom n ts
    → let e = get_expired now none none ts in
      (e.expired ++ e.left ≡ ts)
      × AllBefore now e.expired
      × IsSortedFrom (max n now) e.left
      × (e.high ≡ none)
      × (e.low ≡ none)
unfolding get_expired
get_expired_lem now n [] s = (refl, tt, tt, refl, refl)
get_expired_lem now n (t ∷ ts) s = ground (arith, get_expired_lem now t.when ts s.1)
