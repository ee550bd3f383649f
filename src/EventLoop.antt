-- ===== src/EventLoop.antt =====
-- The event loop of netpoll/net/eventloop.cc, as built on Linux, from the start of `loop()` on, among
-- the threads that call `queueInLoop` and `quit`. A functor is a number; a thread is known by the
-- queue's node that it makes. Each step is one atomic access, of one of the threads.
pub mod Waking
pub mod Threads
mod Tests
use netpoll_cpp.Base.{
  Bool, Option, false, if◌then◌else◌, none, set_at, some, suc, true, ℕ, ◌==◌, ◌≡◌,
}
use netpoll_cpp.MpscQueue.{MpscQueue, dequeue, is_empty}
use netpoll_cpp.MpscQueue.Runs.{Run, linked, new_run, swapped, took}

-- Where `loop()` is: at the test of `m_quit`, in `poll`, handling the active channels, in
-- `doRunInLoopFuncs`, and behind the loop.
pub data Phase : Type 0 where
  testing polling handling running stopped : Phase

pub record EventLoop : Type 0 where
  -- `m_funcs`, with the functors queued, and those that have run.
  pub funcs : Run ℕ
  pub phase : Phase
  pub quit : Bool
  -- The count of the event descriptor `m_wakeupFd`.
  pub wakeups : ℕ
  -- The node of a call of `queueInLoop` in the loop's own thread that is not done.
  pub own : Option ℕ
  -- The nodes whose other threads have queued them, and are to call `wakeup`.
  pub waking : ℕ → Bool
  -- The threads that have set `m_quit`, and are to call `wakeup`.
  pub quitting : ℕ

abbrev pub is_own : ℕ → Option ℕ → Bool
is_own n none = false
is_own n (some m) = n == m

abbrev pub is_polling : Phase → Bool
is_polling polling = true
is_polling _ = false

-- While `poll` waits, or the loop has ended, its thread runs no functor and no callback.
abbrev pub is_calling : Phase → Bool
is_calling handling = true
is_calling running = true
is_calling _ = false

abbrev pub new_event_loop : EventLoop
new_event_loop = record {
  funcs = new_run;
  phase = testing;
  quit = false;
  wakeups = 0;
  own = none;
  waking = λ n. false;
  quitting = 0;
}

-- `wakeup`: the event descriptor's count grows by the 1 that is written.
abbrev pub wakeup : EventLoop → EventLoop
wakeup l = record l { wakeups = suc l.wakeups }

-- `wakeupRead`: a read of the event descriptor sets its count back to 0.
abbrev pub wakeup_read : EventLoop → EventLoop
wakeup_read l = record l { wakeups = 0 }

-- `doRunInLoopFuncs`, for one functor that was dequeued.
abbrev pub run_func : ℕ → MpscQueue ℕ → EventLoop → EventLoop
run_func f q l = record l { funcs = took f q l.funcs }

-- `queueInLoop` is `enqueue`, in two accesses, and `wakeup` in any thread but the loop's own.
pub data Step (l : EventLoop) : EventLoop → Type 0 where
  swaps : (f : ℕ) → Step l (record l { funcs = swapped f l.funcs })
  links :
      (n p : ℕ)
      → l.funcs.linking n ≡ some p
      → is_own n l.own ≡ false
      → Step l (record l { funcs = linked n p l.funcs; waking = set_at n true l.waking })
  wakes :
      (n : ℕ) → l.waking n ≡ true → Step l (record (wakeup l) { waking = set_at n false l.waking })
  swaps_own :
      (f : ℕ)
      → is_calling l.phase ≡ true
      → l.own ≡ none
      → Step l (record l { funcs = swapped f l.funcs; own = some l.funcs.queue.fresh })
  links_own :
      (n p : ℕ)
      → l.own ≡ some n
      → l.funcs.linking n ≡ some p
      → Step l (record l { funcs = linked n p l.funcs; own = none })
  -- `quit`, by another thread, whose test of `m_quit` may be overtaken by another one, and its
  -- `wakeup`; and by a functor or callback.
  quits : Step l (record l { quit = true; quitting = suc l.quitting })
  wakes_to_quit : (k : ℕ) → l.quitting ≡ suc k → Step l (record (wakeup l) { quitting = k })
  quits_own : is_calling l.phase ≡ true → l.own ≡ none → Step l (record l { quit = true })
  -- `loop`: its test, the return of `poll`, the active channels, of which the wakeup channel reads
  -- the event descriptor, and `doRunInLoopFuncs`.
  tests_quit : l.phase ≡ testing → Step l (record l { phase = if l.quit then stopped else polling })
  returns : l.phase ≡ polling → Step l (record l { phase = handling })
  reads : l.phase ≡ handling → l.own ≡ none → Step l (wakeup_read l)
  handled : l.phase ≡ handling → l.own ≡ none → Step l (record l { phase = running })
  runs_func :
      (f : ℕ) (q : MpscQueue ℕ)
      → l.phase ≡ running
      → l.own ≡ none
      → dequeue l.funcs.queue ≡ some (some f, q)
      → Step l (run_func f q l)
  finds_empty :
      l.phase ≡ running
      → l.own ≡ none
      → is_empty l.funcs.queue ≡ true
      → Step l (record l { phase = testing })

pub data Reach : EventLoop → Type 0 where
  start : Reach new_event_loop
  later : {l m : EventLoop} → Reach l → Step l m → Reach m
