-- ===== src/TimerQueue/Tests.antt =====
-- The timer queue at concrete times: two one-shot timers, of which the later cancels the other and
-- is tagged as the highest, and one that repeats.

use netpoll_cpp.Base.{List, [], arith, false, if◌then◌else◌, refl, some, true, ℕ, ◌==◌, ◌∷◌, ◌≡◌}
use netpoll_cpp.TimerQueue.{
  Command, TimerQueue, adds, cancel_timer, cancels, get_expired, handle_read, new_timer_queue,
}
use netpoll_cpp.TimerQueue.Arming.{Event, IsArmed, command, run_events, run_events-IsArmed}
use netpoll_cpp.TimerQueue.Cancel.{StaysDead, handle_read-StaysDead}

abbrev history : List Event
history =
    command (adds 100 0 false false)
    ∷ command (adds 90 0 true false)
    ∷ command (adds 95 50 false false)
    ∷ []

abbrev second_cancels_first : ℕ → List Command
second_cancels_first id = if id == 2 then cancels 1 ∷ [] else []

queue : TimerQueue
unfolding run_events new_timer_queue
queue = run_events second_cancels_first history (new_timer_queue 0)

queue_runs : (handle_read second_cancels_first 101 queue).1 ≡ 2 ∷ 3 ∷ []
unfolding queue handle_read get_expired
queue_runs = refl

queue_armed : (handle_read second_cancels_first 101 queue).0.armed ≡ some 151
unfolding queue handle_read get_expired
queue_armed = refl

run_events-IsArmed_example : IsArmed (run_events second_cancels_first history (new_timer_queue 0))
run_events-IsArmed_example = run_events-IsArmed second_cancels_first history 0

handle_read-StaysDead_example :
    StaysDead 3 (handle_read second_cancels_first 101 (cancel_timer 3 queue))
unfolding queue cancel_timer
handle_read-StaysDead_example =
    handle_read-StaysDead second_cancels_first 3 101 (cancel_timer 3 queue) (refl, omega arith)
