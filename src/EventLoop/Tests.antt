-- ===== src/EventLoop/Tests.antt =====
-- The loop at a concrete interleaving.
use netpoll_cpp.Base.{[], arith, false, none, refl, set_at, some, true, ◌∷◌, ◌≡◌}
use netpoll_cpp.EventLoop.{
  EventLoop, Reach, finds_empty, handled, later, links, new_event_loop, polling, reads, returns,
  runs_func, start, swaps, tests_quit, wakes,
}
use netpoll_cpp.EventLoop.Waking.{sleeps_with_none_queued}
use netpoll_cpp.MpscQueue.{dequeue, is_empty, link, new_queue, swap_head}

-- Another thread queues functor 7 while the loop waits, and the loop has run it.
abbrev slept : EventLoop
slept = record {
  funcs = record {
    queue = record {
      head = 1;
      tail = 1;
      fresh = 2;
      next = set_at 0 (some 1) (set_at 1 none (λ n. none));
      datum = set_at 1 (some 7) (λ n. none);
    };
    linking = set_at 1 none (set_at 1 (some 0) (λ n. none));
    queued = 7 ∷ [];
    taken = 7 ∷ [];
  };
  phase = polling;
  quit = false;
  wakeups = 0;
  own = none;
  waking = set_at 1 false (set_at 1 true (λ n. false));
  quitting = 0;
}

slept-Reach : Reach slept
unfolding swap_head link dequeue is_empty new_queue
slept-Reach =
    later
      (later
        (later
          (later
            (later
              (later
                (later
                  (later (later (later start (tests_quit refl)) (swaps 7)) (links 1 0 refl refl))
                  (wakes 1 refl))
                (returns refl))
              (reads refl refl))
            (handled refl refl))
          (runs_func 7 slept.funcs.queue refl refl refl))
        (finds_empty refl refl refl))
      (tests_quit refl)

sleeps_with_none_queued_example : slept.funcs.taken ≡ slept.funcs.queued
sleeps_with_none_queued_example =
    sleeps_with_none_queued slept-Reach refl refl (λ n. ground arith) (λ n. ground arith)

abbrev quitting_loop : EventLoop
quitting_loop = record new_event_loop { phase = polling; quit = true; quitting = 1 }
