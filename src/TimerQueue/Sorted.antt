-- ===== src/TimerQueue/Sorted.antt =====
-- The priority queue as a list in the order of times.
use netpoll_cpp.Base.{List, [], arith, ℕ, ◌∷◌, ◌≤◌}
use netpoll_cpp.TimerQueue.{Timer, push_timer}

-- The times do not fall along the list, from `n` on.
abbrev pub IsSortedFrom : ℕ → List Timer → Type 0
IsSortedFrom n [] = Unit {0}
IsSortedFrom n (t ∷ ts) = (n ≤ t.when) × IsSortedFrom t.when ts

pub push_timer-IsSortedFrom :
    (n : ℕ) (t : Timer) (ts : List Timer)
    → n ≤ t.when
    → IsSortedFrom n ts
    → IsSortedFrom n (push_timer t ts)
unfolding push_timer
push_timer-IsSortedFrom n t [] h s = (h, tt)
push_timer-IsSortedFrom n t (u ∷ us) h s = ground (arith, push_timer-IsSortedFrom u.when t us)
