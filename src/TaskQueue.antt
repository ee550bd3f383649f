-- ===== src/TaskQueue.antt =====
-- ConcurrentTaskQueue (netpoll/util/concurrent_task_queue.cc): `thread_num` workers, numbered from
-- 0, that take tasks from one queue, the threads that add to it, and the thread that stops it. A
-- task is a number. Each function is one step of a thread, up to its next access of `m_stop`,
-- `m_mtx` or `m_cv`; a step that has to wait leaves the state as it is.
pub mod Fifo
pub mod Stopping
pub mod Wakeups
mod Tests
use netpoll_cpp.Base.{
  Bool, List, Option, [], false, if◌then◌else◌, none, not, set_at, some, suc, true, zero, ℕ, ◌&&◌,
  ◌++◌, ◌<◌, ◌∷◌, ◌≡◌, ◌≢◌,
}

-- Where a worker is in `queueFunc`: at the outer test of `m_stop`, about to lock `m_mtx` (also on
-- its way out of `wait`), at the inner test with the mutex, about to wait with the mutex, waiting
-- without it, behind the inner loop with the mutex, in a task, or returned.
pub data Place : Type 0 where
  at_top locking testing dozing waiting taking ended : Place
  running : ℕ → Place

-- Where the thread that calls `stop` is.
pub data Stopper : Type 0 where
  uncalled notifying joining joined : Stopper

-- `added`, `started` and `finished` are the tasks in the order in which they were added, taken and
-- completed.
pub record ConcurrentTaskQueue : Type 0 where
  pub thread_num : ℕ
  pub stop : Bool
  pub que : List ℕ
  pub mtx : Option ℕ
  pub place : ℕ → Place
  pub stopper : Stopper
  pub added : List ℕ
  pub started : List ℕ
  pub finished : List ℕ

unfoldable pub new_task_queue : (thread_num : ℕ) → ConcurrentTaskQueue
new_task_queue n = record {
  thread_num = n;
  stop = false;
  que = [];
  mtx = none;
  place = λ w. at_top;
  stopper = uncalled;
  added = [];
  started = [];
  finished = [];
}

abbrev pub moves_to : ℕ → Place → ConcurrentTaskQueue → ConcurrentTaskQueue
moves_to w p c = record c { place = set_at w p c.place }

abbrev pub is_free : Option ℕ → Bool
is_free none = true
is_free (some w) = false

abbrev pub is_nil : List ℕ → Bool
is_nil [] = true
is_nil (t ∷ ts) = false

-- The worker with the mutex behind the inner loop: it takes a task, if there is one, and unlocks.
unfoldable pub take_task : ℕ → List ℕ → ConcurrentTaskQueue → ConcurrentTaskQueue
take_task w [] c = record (moves_to w at_top c) { mtx = none }
take_task w (t ∷ ts) c = record (moves_to w (running t) c) {
  mtx = none;
  que = ts;
  started = c.started ++ (t ∷ []);
}

-- `queueFunc`.
unfoldable pub work : ℕ → Place → ConcurrentTaskQueue → ConcurrentTaskQueue
unfolding take_task
work w at_top c = moves_to w (if c.stop then ended else locking) c
work w locking c = if is_free c.mtx then record (moves_to w testing c) { mtx = some w } else c
work w testing c = moves_to w (if not c.stop && is_nil c.que then dozing else taking) c
work w dozing c = record (moves_to w waiting c) { mtx = none }
work w waiting c = c
work w taking c = take_task w c.que c
work w (running t) c = record (moves_to w at_top c) { finished = c.finished ++ (t ∷ []) }
work w ended c = c

-- A worker leaves `wait`.
unfoldable pub wake : ℕ → (ℕ → Place) → ℕ → Place
wake w f = set_at w locking f

-- `runTask` with the mutex: `notify_one` wakes `picked`.
unfoldable pub run_task : (t : ℕ) → (picked : Option ℕ) → ConcurrentTaskQueue → ConcurrentTaskQueue
unfolding wake
run_task t none c = record c { que = c.que ++ (t ∷ []); added = c.added ++ (t ∷ []) }
run_task t (some w) c = record c {
  que = c.que ++ (t ∷ []);
  added = c.added ++ (t ∷ []);
  place = wake w c.place;
}

abbrev pub woken : Place → Place
woken waiting = locking
woken at_top = at_top
woken locking = locking
woken testing = testing
woken dozing = dozing
woken taking = taking
woken ended = ended
woken (running t) = running t

abbrev pub is_ended : Place → Bool
is_ended ended = true
is_ended p = false

abbrev pub all_ended : ℕ → (ℕ → Place) → Bool
all_ended zero f = true
all_ended (suc n) f = is_ended (f n) && all_ended n f

-- `stop`, which does not lock: it sets `m_stop`, wakes the workers that wait at that time, and joins
-- the threads.
unfoldable pub stop_step : Stopper → ConcurrentTaskQueue → ConcurrentTaskQueue
stop_step uncalled c = record c { stop = true; stopper = if c.stop then joined else notifying }
stop_step notifying c = record c { place = λ w. woken (c.place w); stopper = joining }
stop_step joining c = record c {
  stopper = if all_ended c.thread_num c.place then joined else joining;
}
stop_step joined c = c

-- Whom `notify_one` may pick: a worker that waits, or no one when none does.
abbrev pub MayPick : Option ℕ → ConcurrentTaskQueue → Type 0
MayPick (some w) c = (w < c.thread_num) × (c.place w ≡ waiting)
MayPick none c = (w : ℕ) → w < c.thread_num → c.place w ≢ waiting

-- The steps of the workers and of the thread that stops them.
pub data Step (c : ConcurrentTaskQueue) : ConcurrentTaskQueue → Type 0 where
  works : (w : ℕ) → w < c.thread_num → Step c (work w (c.place w) c)
  stopping : Step c (stop_step c.stopper c)

-- Those of the other threads, and the wakeups that `wait` may have for no reason.
pub data Outside (c : ConcurrentTaskQueue) : ConcurrentTaskQueue → Type 0 where
  runs_task :
      (t : ℕ) (picked : Option ℕ)
      → is_free c.mtx ≡ true
      → MayPick picked c
      → Outside c (run_task t picked c)
  wakes :
      (w : ℕ)
      → w < c.thread_num
      → c.place w ≡ waiting
      → Outside c (record c { place = wake w c.place })

pub data Reach (n : ℕ) : ConcurrentTaskQueue → Type 0 where
  start : Reach n (new_task_queue n)
  steps : {c d : ConcurrentTaskQueue} → Reach n c → Step c d → Reach n d
  acts : {c d : ConcurrentTaskQueue} → Reach n c → Outside c d → Reach n d

-- Runs in which no task is added and no worker wakes for no reason.
pub data Runs (c : ConcurrentTaskQueue) : ConcurrentTaskQueue → Type 0 where
  here : Runs c c
  on : {d e : ConcurrentTaskQueue} → Runs c d → Step d e → Runs c e

-- All that may follow.
pub data Later (c : ConcurrentTaskQueue) : ConcurrentTaskQueue → Type 0 where
  still : Later c c
  after_step : {d e : ConcurrentTaskQueue} → Later c d → Step d e → Later c e
  after_act : {d e : ConcurrentTaskQueue} → Later c d → Outside d e → Later c e
