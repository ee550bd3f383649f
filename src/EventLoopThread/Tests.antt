-- ===== src/EventLoopThread/Tests.antt =====
-- A thread that the owner waits for.

use netpoll_cpp.Base.{false, refl, ◌≡◌, ◌≢◌, ◌⊎◌}
use netpoll_cpp.EventLoopThread.{
  EventLoopThread, Reach, ReachAlone, begin, call_quit, constructing, entering, moves_on, looping,
  making, new_thread, owner_step, owns, runs_it, sets_run, start, steps, unchanged, waiting_run,
  waits_loop, work, works,
}
use netpoll_cpp.EventLoopThread.Dangling.{run_may_hang}
use netpoll_cpp.EventLoopThread.Returning.{calls_return}

abbrev in_constructor : EventLoopThread
in_constructor = work making new_thread

in_constructor-ReachAlone : ReachAlone in_constructor
unfolding new_thread
in_constructor-ReachAlone = moves_on begin works

calls_return_example :
    ((work in_constructor.place in_constructor ≢ in_constructor)
      ⊎ (owner_step in_constructor.owner in_constructor ≢ in_constructor))
    × (in_constructor.dangling ≡ false)
unfolding work new_thread
calls_return_example = calls_return in_constructor-ReachAlone refl

-- The owner is in `run`, and the loop before its first test.
abbrev before_test : EventLoopThread
before_test = work entering (
    work waiting_run (
      owner_step (sets_run false)
        (record (owner_step constructing (work making new_thread)) { owner = sets_run false })))

before_test-Reach : Reach before_test
unfolding work owner_step new_thread
before_test-Reach =
    steps (steps (steps (steps (steps (steps start works) owns) (runs_it refl)) owns) works) works

run_may_hang_example :
    Reach (work looping (call_quit before_test))
    × ((work looping (call_quit before_test)).owner ≡ waits_loop false)
unfolding work owner_step new_thread
run_may_hang_example = run_may_hang {d = false} before_test-Reach refl refl refl refl unchanged
