-- ===== src/TimerQueue/Clock.antt =====
-- `howMuchTimeFromNow` (netpoll/net/inner/timer_queue.cc): how the timer descriptor is set.
use netpoll_cpp.Base.{
  Bool-cases, arith, if◌then◌else◌, inl, inr, ltb, max, ℕ, ◌%◌, ◌*◌, ◌+◌, ◌-◌, ◌/◌, ◌<◌, ◌≡◌,
}

-- `struct timespec`.
pub record TimeSpec : Type 0 where
  pub tv_sec : ℕ
  pub tv_nsec : ℕ

-- Of the time point `when` and the steady clock, in microseconds. A difference below 100, negative ones
-- included, is taken for 100.
unfoldable pub how_much_time_from_now : (when now : ℕ) → TimeSpec
how_much_time_from_now when now =
    let micro_seconds = if ltb (when - now) 100 then 100 else when - now in
    record { tv_sec = micro_seconds / 1000000; tv_nsec = (micro_seconds % 1000000) * 1000 }

abbrev pub nanoseconds : TimeSpec → ℕ
nanoseconds t = t.tv_sec * 1000000000 + t.tv_nsec

-- The time that is set is one that `timerfd_settime` accepts, is never 0, which would disarm the
-- timer, and ends when the timer is due, or 100 microseconds from now if that is later.
pub how_much_time_from_now_lem :
    (when now : ℕ)
    → let t = how_much_time_from_now when now in
      (t.tv_nsec < 1000000000)
      × (0 < nanoseconds t)
      × (now * 1000 + nanoseconds t ≡ max (when * 1000) (now * 1000 + 100000))
unfolding how_much_time_from_now
how_much_time_from_now_lem when now = elim (Bool-cases (ltb (when - now) 100)) [
  | inl near ↦ rw near (omega arith, omega arith, ground (arith, near))
  | inr far ↦ rw far (omega arith, ground (arith, far), ground (arith, far))
]
