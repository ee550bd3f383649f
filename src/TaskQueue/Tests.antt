-- ===== src/TaskQueue/Tests.antt =====
-- One worker: a task is added, or the queue is stopped while the worker goes to sleep.
use netpoll_cpp.Base.{[], arith, none, refl, ℕ, ◌<◌, ◌≡◌, ◌≢◌}
use netpoll_cpp.TaskQueue.{
  ConcurrentTaskQueue, Reach, acts, at_top, here, joining, locking, new_task_queue, run_task,
  runs_task, start, steps, testing, waiting, work, works,
}
use netpoll_cpp.TaskQueue.Fifo.{IsFifo, Reach-IsFifo}
use netpoll_cpp.TaskQueue.Stopping.{after_stop, stop_may_hang}
use netpoll_cpp.TaskQueue.Wakeups.Served.{queued_task_is_served}

-- The worker has seen the queue empty.
abbrev about_to_wait : ConcurrentTaskQueue
about_to_wait = work 0 testing (work 0 locking (work 0 at_top (new_task_queue 1)))

about_to_wait-Reach : Reach 1 about_to_wait
unfolding work new_task_queue
about_to_wait-Reach =
    steps (steps (steps start (works 0 (omega arith))) (works 0 (omega arith)))
      (works 0 (omega arith))

stop_may_hang_example :
    Reach 1 (after_stop 0 about_to_wait)
    × ((after_stop 0 about_to_wait).place 0 ≡ waiting)
    × ((after_stop 0 about_to_wait).stopper ≡ joining)
unfolding work new_task_queue
stop_may_hang_example =
    stop_may_hang {n = 1} {w = 0} about_to_wait-Reach (omega arith) refl refl refl here

abbrev with_task : ConcurrentTaskQueue
with_task = run_task 7 none (new_task_queue 1)

with_task-Reach : Reach 1 with_task
unfolding new_task_queue
with_task-Reach = acts start (runs_task 7 none refl (λ w l e. cc))

queued_task_is_served_example :
    (w : ℕ) × (w < with_task.thread_num) × (work w (with_task.place w) with_task ≢ with_task)
unfolding run_task new_task_queue
queued_task_is_served_example =
    queued_task_is_served {n = 1} {t = 7} {ts = []} (omega arith) with_task-Reach refl refl

Reach-IsFifo_example : IsFifo with_task
Reach-IsFifo_example = Reach-IsFifo with_task-Reach
