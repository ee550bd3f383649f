-- ===== src/TaskQueue/Wakeups.antt =====
-- What the workers, `runTask` and `stop` keep of the mutex, the queue and the sleeping workers.
pub mod Served
use netpoll_cpp.Base.{
  Bool, Bool-cases, List, Option, Option-cases, [], ap, arith, false, inl, inr, none, not, refl,
  some, sym, true, ℕ, ◌&&◌, ◌++◌, ◌<◌, ◌∙◌, ◌∷◌, ◌≡◌, ◌≢◌, ◌⊎◌,
}
use netpoll_cpp.TaskQueue.{
  ConcurrentTaskQueue, MayPick, Outside, Place, Reach, Step, Stopper, acts, at_top, dozing, ended,
  moves_to, is_ended, is_free, is_nil, joined, joining, locking, new_task_queue, notifying,
  run_task, running, runs_task, start, steps, stopping, stop_step, take_task, taking, testing,
  uncalled, waiting, wake, wakes, woken, work, works,
}

-- Whether a worker holds the mutex, sleeps or is about to, can make a step.

unfoldable pub has_mutex : Place → Bool
has_mutex testing = true
has_mutex dozing = true
has_mutex taking = true
has_mutex p = false

unfoldable pub asleep : Place → Bool
asleep dozing = true
asleep waiting = true
asleep p = false

abbrev pub able : Bool → Place → Bool
able free locking = free
able free waiting = false
able free ended = false
able free p = true

-- The mutex has the owner that the places say; a worker about to wait has seen the queue empty, and
-- when all workers sleep or are about to the queue is empty; no worker returns before `stop`.
pub record IsAwake (c : ConcurrentTaskQueue) : Type 0 where
  pub owned : (w : ℕ) → c.mtx ≡ some w → (w < c.thread_num) × (has_mutex (c.place w) ≡ true)
  pub owner : (w : ℕ) → has_mutex (c.place w) ≡ true → c.mtx ≡ some w
  pub seen : (w : ℕ) → c.place w ≡ dozing → c.que ≡ []
  pub awake : ((w : ℕ) → w < c.thread_num → asleep (c.place w) ≡ true) → c.que ≡ []
  pub serving : c.stop ≡ false → (w : ℕ) → is_ended (c.place w) ≡ false
  pub manned : 0 < c.thread_num

none≢some : {x : ℕ} → none ≡ some x → ⊥
none≢some e = cc

nil_of_is_nil : (l : List ℕ) → is_nil l ≡ true → l ≡ []
nil_of_is_nil [] h = refl
nil_of_is_nil (t ∷ ts) h = cc

lock-IsAwake :
    {c : ConcurrentTaskQueue} (w : ℕ)
    → IsAwake c
    → w < c.thread_num
    → c.place w ≡ locking
    → IsAwake (work w locking c)
unfolding work has_mutex asleep
lock-IsAwake {c} w h l e = elim (Option-cases c.mtx) [
  | inl free ↦
      let f : is_free c.mtx ≡ true = ap is_free free in
      rw (f, work)
        (record {
          owned = λ v g. ground (arith, l, g);
          owner = λ v g. ground (arith, h.owner v, g, free);
          seen = λ v g. ground (arith, h.seen v, g);
          awake = λ all. absurd (ground (arith, all w l));
          serving = λ s v. ground (arith, h.serving s v, s);
          manned = h.manned;
        })
  | inr (u, held) ↦ let f : is_free c.mtx ≡ false = ap is_free held in rw (f, work) h
]

-- The worker with the mutex goes on to wait, or to take a task.
doze-IsAwake :
    {c : ConcurrentTaskQueue} (w : ℕ)
    → IsAwake c
    → w < c.thread_num
    → c.place w ≡ testing
    → c.que ≡ []
    → IsAwake (moves_to w dozing c)
unfolding has_mutex asleep
doze-IsAwake {c} w h l e empty = record {
  owned = λ v f. ground (arith, h.owned v, e, f);
  owner = λ v f. ground (arith, h.owner v, h.owner w, e, f);
  seen = λ v f. empty;
  awake = λ all. empty;
  serving = λ s v. ground (arith, h.serving s v, s);
  manned = h.manned;
}

take-IsAwake :
    {c : ConcurrentTaskQueue} (w : ℕ)
    → IsAwake c
    → w < c.thread_num
    → c.place w ≡ testing
    → IsAwake (moves_to w taking c)
unfolding has_mutex asleep
take-IsAwake {c} w h l e = record {
  owned = λ v f. ground (arith, h.owned v, e, f);
  owner = λ v f. ground (arith, h.owner v, h.owner w, e, f);
  seen = λ v f. ground (arith, h.seen v, f);
  awake = λ all. absurd (ground (arith, all w l));
  serving = λ s v. ground (arith, h.serving s v, s);
  manned = h.manned;
}

take_task-IsAwake :
    {c : ConcurrentTaskQueue} (w : ℕ) (ts : List ℕ)
    → IsAwake c
    → w < c.thread_num
    → c.place w ≡ taking
    → c.que ≡ ts
    → IsAwake (take_task w ts c)
unfolding take_task has_mutex asleep
take_task-IsAwake {c} w [] h l e q = record {
  owned = λ v f. absurd (none≢some f);
  owner = λ v f. ground (arith, h.owner v, h.owner w, e, f);
  seen = λ v f. q;
  awake = λ all. q;
  serving = λ s v. ground (arith, h.serving s v, s);
  manned = h.manned;
}
take_task-IsAwake {c} w (t ∷ ts) h l e q = record {
  owned = λ v f. absurd (none≢some f);
  owner = λ v f. ground (arith, h.owner v, h.owner w, e, f);
  seen = λ v f. ground (arith, h.owner v, h.owner w, e, f);
  awake = λ all. absurd (ground (arith, all w l));
  serving = λ s v. ground (arith, h.serving s v, s);
  manned = h.manned;
}

work-IsAwake :
    {c : ConcurrentTaskQueue} (w : ℕ) (p : Place)
    → IsAwake c
    → w < c.thread_num
    → c.place w ≡ p
    → IsAwake (work w p c)
unfolding work has_mutex asleep
work-IsAwake {c} w at_top h l e = record {
  owned = λ v f. ground (arith, h.owned v, e);
  owner = λ v f. ground (arith, h.owner v);
  seen = λ v f. ground (arith, h.seen v);
  awake = λ all. absurd (ground (arith, all w l));
  serving = λ s v. ground (arith, h.serving s v, s);
  manned = h.manned;
}
work-IsAwake {c} w locking h l e = lock-IsAwake w h l e
work-IsAwake {c} w testing h l e = elim (Bool-cases (not c.stop && is_nil c.que)) [
  | inl idle ↦ rw (idle, work) (doze-IsAwake w h l e (nil_of_is_nil c.que (ground (arith, idle))))
  | inr busy ↦ rw (busy, work) (take-IsAwake w h l e)
]
work-IsAwake {c} w dozing h l e = record {
  owned = λ v f. absurd (none≢some f);
  owner = λ v f. ground (arith, h.owner v, h.owner w, e);
  seen = λ v f. ground (arith, h.owner v, h.owner w, e, h.seen v);
  awake = λ all. h.seen w e;
  serving = λ s v. ground (arith, h.serving s v, s);
  manned = h.manned;
}
work-IsAwake {c} w waiting h l e = h
work-IsAwake {c} w taking h l e = take_task-IsAwake w c.que h l e refl
work-IsAwake {c} w (running t) h l e = record {
  owned = λ v f. ground (arith, h.owned v, e);
  owner = λ v f. ground (arith, h.owner v);
  seen = λ v f. ground (arith, h.seen v);
  awake = λ all. absurd (ground (arith, all w l));
  serving = λ s v. ground (arith, h.serving s v, s);
  manned = h.manned;
}
work-IsAwake {c} w ended h l e = h

has_mutex-woken : (p : Place) → has_mutex (woken p) ≡ has_mutex p
unfolding has_mutex
has_mutex-woken p = ground arith

stop_step-IsAwake :
    {c : ConcurrentTaskQueue} (s : Stopper) → IsAwake c → c.stopper ≡ s → IsAwake (stop_step s c)
unfolding stop_step has_mutex asleep
stop_step-IsAwake {c} uncalled h e = record {
  owned = h.owned;
  owner = h.owner;
  seen = h.seen;
  awake = h.awake;
  serving = λ s v. ground (arith, s);
  manned = h.manned;
}
stop_step-IsAwake {c} notifying h e = record {
  owned = λ v f. ((h.owned v f).0, has_mutex-woken (c.place v) ∙ (h.owned v f).1);
  owner = λ v f. h.owner v (sym (has_mutex-woken (c.place v)) ∙ f);
  seen = λ v f. ground (arith, h.seen v, f);
  awake = λ all. h.awake (λ v l. ground (arith, all v l));
  serving = λ s v. ground (arith, h.serving s v);
  manned = h.manned;
}
stop_step-IsAwake {c} joining h e = record {
  owned = h.owned;
  owner = h.owner;
  seen = h.seen;
  awake = h.awake;
  serving = h.serving;
  manned = h.manned;
}
stop_step-IsAwake {c} joined h e = h

wake-IsAwake :
    {c : ConcurrentTaskQueue} (w : ℕ) (ts us : List ℕ)
    → IsAwake c
    → w < c.thread_num
    → c.place w ≡ waiting
    → (ts ≡ c.que) ⊎ (is_free c.mtx ≡ true)
    → IsAwake (record c { que = ts; added = us; place = wake w c.place })
unfolding wake has_mutex asleep
wake-IsAwake {c} w ts us h l e same = record {
  owned = λ v f. ground (arith, h.owned v f, e);
  owner = λ v f. ground (arith, h.owner v, f);
  seen = λ v f. ground (arith, h.seen v, h.owner v, f, same);
  awake = λ all. absurd (ground (arith, all w l));
  serving = λ s v. ground (arith, h.serving s v, s);
  manned = h.manned;
}

-- With the mutex free no worker is about to wait.
dozing_owns :
    {c : ConcurrentTaskQueue} (w : ℕ) → IsAwake c → is_free c.mtx ≡ true → c.place w ≢ dozing
unfolding has_mutex
dozing_owns {c} w h free e = cc (h.owner w (ap has_mutex e), free)

run_task-IsAwake :
    {c : ConcurrentTaskQueue} (t : ℕ) (picked : Option ℕ)
    → IsAwake c
    → is_free c.mtx ≡ true
    → MayPick picked c
    → IsAwake (run_task t picked c)
unfolding run_task has_mutex asleep
run_task-IsAwake {c} t none h free may = record {
  owned = h.owned;
  owner = h.owner;
  seen = λ v f. absurd (dozing_owns v h free f);
  awake = λ all. absurd (nobody (c.place 0) refl (all 0 h.manned));
  serving = h.serving;
  manned = h.manned;
}
  where
    nobody : (p : Place) → c.place 0 ≡ p → asleep p ≡ true → ⊥
    nobody dozing e a = dozing_owns 0 h free e
    nobody waiting e a = may 0 h.manned e
    nobody at_top e a = cc
    nobody locking e a = cc
    nobody testing e a = cc
    nobody taking e a = cc
    nobody ended e a = cc
    nobody (running u) e a = cc
run_task-IsAwake {c} t (some w) h free may =
    wake-IsAwake w (c.que ++ (t ∷ [])) (c.added ++ (t ∷ [])) h may.0 may.1 (inr free)

Step-IsAwake : {c d : ConcurrentTaskQueue} → Step c d → IsAwake c → IsAwake d
Step-IsAwake {c = c} (works w l) h = work-IsAwake w (c.place w) h l refl
Step-IsAwake {c = c} stopping h = stop_step-IsAwake c.stopper h refl

Outside-IsAwake : {c d : ConcurrentTaskQueue} → Outside c d → IsAwake c → IsAwake d
Outside-IsAwake {c = c} (runs_task t picked free may) h = run_task-IsAwake t picked h free may
Outside-IsAwake {c = c} (wakes w l e) h = wake-IsAwake w c.que c.added h l e (inl refl)

new_task_queue-IsAwake : (n : ℕ) → 0 < n → IsAwake (new_task_queue n)
unfolding new_task_queue has_mutex asleep
new_task_queue-IsAwake n l = record {
  owned = λ v f. absurd (none≢some f);
  owner = λ v f. cc;
  seen = λ v f. refl;
  awake = λ all. refl;
  serving = λ s v. refl;
  manned = l;
}

pub Reach-IsAwake : {n : ℕ} {c : ConcurrentTaskQueue} → 0 < n → Reach n c → IsAwake c
Reach-IsAwake {n} l start = new_task_queue-IsAwake n l
Reach-IsAwake l (steps r s) = Step-IsAwake s (Reach-IsAwake l r)
Reach-IsAwake l (acts r a) = Outside-IsAwake a (Reach-IsAwake l r)
