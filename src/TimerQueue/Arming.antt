-- ===== src/TimerQueue/Arming.antt =====
-- The timer descriptor is set for the earliest timer.
use netpoll_cpp.Base.{List, [], arith, none, some, ℕ, ◌∷◌, ◌≡◌}
use netpoll_cpp.TimerQueue.{
  Command, Timer, TimerQueue, add_timer_in_loop, adds, cancels, handle_read, new_timer_queue, obey,
  rearm, reset,
}

-- What `resetTimerfd` was last called with is the time of the first timer, if there is one.
abbrev pub IsArmed : TimerQueue → Type 0
IsArmed q = elim q.timers [ [] ↦ Unit {0} | t ∷ ts ↦ q.armed ≡ some t.when ]

-- The calls of a loop's thread on its queue, with the time of each expiry.
pub data Event : Type 0 where
  command : Command → Event
  expiry : ℕ → Event
  fork : Event

-- `reset()`, after a fork: a new timer descriptor, which is set if there are timers.
unfoldable pub renew_descriptor : TimerQueue → TimerQueue
unfolding rearm
renew_descriptor q = rearm (record q { armed = none })

module _ (callback : ℕ → List Command) where
  unfoldable pub run_events : List Event → TimerQueue → TimerQueue
  unfolding obey handle_read renew_descriptor
  run_events [] q = q
  run_events (command c ∷ es) q = run_events es (obey (c ∷ []) q)
  run_events (expiry now ∷ es) q = run_events es (handle_read callback now q).0
  run_events (fork ∷ es) q = run_events es (renew_descriptor q)

add_timer_in_loop-IsArmed :
    (t : Timer) (q : TimerQueue) → IsArmed q → IsArmed (add_timer_in_loop t q)
unfolding add_timer_in_loop
add_timer_in_loop-IsArmed t q a = ground arith

obey-IsArmed : (cs : List Command) (q : TimerQueue) → IsArmed q → IsArmed (obey cs q)
unfolding obey
obey-IsArmed [] q a = a
obey-IsArmed (adds when interval h l ∷ cs) q a = obey-IsArmed cs _ (add_timer_in_loop-IsArmed _ _ a)
obey-IsArmed (cancels id ∷ cs) q a = obey-IsArmed cs _ a

rearm-IsArmed : (q : TimerQueue) → IsArmed (rearm q)
unfolding rearm
rearm-IsArmed q = ground arith

handle_read-IsArmed :
    (callback : ℕ → List Command) (now : ℕ) (q : TimerQueue)
    → IsArmed (handle_read callback now q).0
unfolding handle_read reset
handle_read-IsArmed callback now q = rearm-IsArmed _

renew_descriptor-IsArmed : (q : TimerQueue) → IsArmed (renew_descriptor q)
unfolding renew_descriptor
renew_descriptor-IsArmed q = rearm-IsArmed _

module _ (callback : ℕ → List Command) where
  run_events-IsArmed_from :
      (es : List Event) (q : TimerQueue) → IsArmed q → IsArmed (run_events callback es q)
  unfolding run_events
  run_events-IsArmed_from [] q a = a
  run_events-IsArmed_from (command c ∷ es) q a =
      run_events-IsArmed_from es _ (obey-IsArmed (c ∷ []) q a)
  run_events-IsArmed_from (expiry now ∷ es) q a =
      run_events-IsArmed_from es _ (handle_read-IsArmed callback now q)
  run_events-IsArmed_from (fork ∷ es) q a =
      run_events-IsArmed_from es _ (renew_descriptor-IsArmed q)

-- Whatever is added, cancelled and expires, whatever the callbacks do, and after a fork too, the
-- timer descriptor of a queue that starts empty is set for the earliest timer whenever there is one.
pub run_events-IsArmed :
    (callback : ℕ → List Command) (es : List Event) (created : ℕ)
    → IsArmed (run_events callback es (new_timer_queue created))
unfolding new_timer_queue
run_events-IsArmed callback es created = run_events-IsArmed_from callback es _ tt
