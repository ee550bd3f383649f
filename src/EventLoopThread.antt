-- ===== src/EventLoopThread.antt =====
-- EventLoopThread (netpoll/net/eventloop_thread.cc): the thread with the loop, the thread that owns
-- the object, and others that call `quit` of the loop. The three promises are flags: `get` waits
-- until its flag is set. Each function is one step of a thread, which leaves the state as it is while it
-- has to wait.
pub mod Handover
pub mod Returning
pub mod Dangling
mod Tests
use netpoll_cpp.Base.{Bool, false, if◌then◌else◌, true, ◌≡◌}

-- Where `threadWorker` is: before it hands out the loop, waiting for `run`, about to call `loop`, in
-- `loop` at the first test of `m_quit`, behind that test, and behind the queued function, behind
-- `loop`, behind the last store, or returned, the loop destroyed.
pub data Place : Type 0 where
  making waiting_run entering looping handling looped left cleared ended : Place

-- Where the owner is: in the constructor, between calls, in `run` (for the destructor, or not), behind
-- it, in the destructor with or without a pointer that it loaded, in `join`, or done.
pub data Owner : Type 0 where
  constructing idle destroyed : Owner
  sets_run waits_loop : (destroying : Bool) → Owner
  loads joins : Owner
  quits : (loaded : Bool) → Owner

-- `m_loop` is whether it holds the pointer; `called` is `m_once`; `quit` is the loop's `m_quit`, and
-- `dangling` whether a member of the loop was called after it was destroyed.
pub record EventLoopThread : Type 0 where
  pub loop_pointer : Bool
  pub run_set : Bool
  pub loop_set : Bool
  pub m_loop : Bool
  pub called : Bool
  pub quit : Bool
  pub place : Place
  pub owner : Owner
  pub dangling : Bool

unfoldable pub new_thread : EventLoopThread
new_thread = record {
  loop_pointer = false;
  run_set = false;
  loop_set = false;
  m_loop = false;
  called = false;
  quit = false;
  place = making;
  owner = constructing;
  dangling = false;
}

-- `threadWorker`. `loop` resets `m_quit`, and as long as it does not find it set waits and runs the
-- functions that were queued, the first of which sets `m_promiseForLoop`.
unfoldable pub work : Place → EventLoopThread → EventLoopThread
work making t = record t { loop_pointer = true; place = waiting_run }
work waiting_run t = record t { place = if t.run_set then entering else waiting_run }
work entering t = record t { quit = false; place = looping }
work looping t = record t { place = if t.quit then left else handling }
work handling t = record t { loop_set = true; place = looped }
work looped t = record t { place = if t.quit then left else looped }
work left t = record t { m_loop = false; place = cleared }
work cleared t = record t { place = ended }
work ended t = t

abbrev pub is_ended : Place → Bool
is_ended ended = true
is_ended p = false

-- A call of `quit` through the pointer.
unfoldable pub call_quit : EventLoopThread → EventLoopThread
call_quit t = if is_ended t.place then record t { dangling = true } else record t { quit = true }

-- The owner: the constructor, `run`, which returns at once when it was called before, and the
-- destructor.
unfoldable pub owner_step : Owner → EventLoopThread → EventLoopThread
unfolding call_quit
owner_step constructing t = if t.loop_pointer then record t { m_loop = true; owner = idle } else t
owner_step idle t = t
owner_step (sets_run d) t =
    if t.called
    then record t { owner = if d then loads else idle }
    else record t { called = true; run_set = true; owner = waits_loop d }
owner_step (waits_loop d) t =
    if t.loop_set then record t { owner = if d then loads else idle } else t
owner_step loads t = record t { owner = quits t.m_loop }
owner_step (quits loaded) t =
    let after = if loaded then call_quit t else t in record after { owner = joins }
owner_step joins t = if is_ended t.place then record t { owner = destroyed } else t
owner_step destroyed t = t

-- The steps of the two threads, the owner's calls among them.
pub data Step (t : EventLoopThread) : EventLoopThread → Type 0 where
  works : Step t (work t.place t)
  owns : Step t (owner_step t.owner t)
  runs_it : t.owner ≡ idle → Step t (record t { owner = sets_run false })
  destroys : t.owner ≡ idle → Step t (record t { owner = sets_run true })

-- What they reach alone, and with other threads that got the pointer from `getLoop` and call `quit`.
pub data ReachAlone : EventLoopThread → Type 0 where
  begin : ReachAlone new_thread
  moves_on : {t u : EventLoopThread} → ReachAlone t → Step t u → ReachAlone u

pub data Reach : EventLoopThread → Type 0 where
  start : Reach new_thread
  steps : {t u : EventLoopThread} → Reach t → Step t u → Reach u
  quits_too : {t : EventLoopThread} → Reach t → t.m_loop ≡ true → Reach (call_quit t)

-- What may follow.
pub data Later (t : EventLoopThread) : EventLoopThread → Type 0 where
  unchanged : Later t t
  on_step : {u v : EventLoopThread} → Later t u → Step u v → Later t v
  on_quit : {u : EventLoopThread} → Later t u → u.m_loop ≡ true → Later t (call_quit u)
