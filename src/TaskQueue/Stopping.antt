-- ===== src/TaskQueue/Stopping.antt =====
-- `stop`: a worker that is about to wait misses its `notify_all`.
pub mod Joined
use netpoll_cpp.Base.{
  Bool-cases, List, Option, [], ap, arith, false, if◌then◌else◌, inl, inr, none, not, refl, some,
  suc, zero, ℕ, ◌&&◌, ◌++◌, ◌<◌, ◌==◌, ◌∙◌, ◌∷◌, ◌≡◌,
}
use netpoll_cpp.TaskQueue.{
  ConcurrentTaskQueue, Place, Reach, Runs, Step, all_ended, at_top, dozing, ended, moves_to, here,
  is_ended, is_free, is_nil, joining, locking, notifying, on, running, steps, stopping, stop_step,
  take_task, taking, testing, uncalled, waiting, woken, work, works,
}

-- `stop` sets `m_stop` and wakes the waiting workers while a worker is on its way to `wait`.

unfoldable pub after_stop : ℕ → ConcurrentTaskQueue → ConcurrentTaskQueue
unfolding stop_step work
after_stop w c = work w dozing (stop_step notifying (stop_step uncalled c))

after_stop-Reach :
    {n : ℕ} {c : ConcurrentTaskQueue} (w : ℕ)
    → Reach n c
    → w < c.thread_num
    → c.place w ≡ dozing
    → c.stop ≡ false
    → c.stopper ≡ uncalled
    → Reach n (after_stop w c)
unfolding after_stop stop_step
after_stop-Reach {n} {c} w r l e serving u =
    let first : Reach n (stop_step uncalled c) = rw u at (steps r stopping) in
    let at_notify : (stop_step uncalled c).stopper ≡ notifying = rw serving refl in
    let second : Reach n (stop_step notifying (stop_step uncalled c)) =
      rw at_notify at (steps first stopping) in
    let third : Reach n (work w (woken (c.place w)) (stop_step notifying (stop_step uncalled c))) =
      steps second (works w l) in
    rw e at third

-- The worker waits, and `stop` waits for it.
record IsHung (w : ℕ) (c : ConcurrentTaskQueue) : Type 0 where
  one_of : w < c.thread_num
  waits : c.place w ≡ waiting
  joins : c.stopper ≡ joining

not_all_ended : (w n : ℕ) (f : ℕ → Place) → w < n → f w ≡ waiting → all_ended n f ≡ false
not_all_ended w zero f l e = absurd (omega (arith, l))
not_all_ended w (suc n) f l e = elim (Bool-cases (w == n)) [
  | inl same ↦ let p : w ≡ n = ground (arith, same) in ground (arith, ap (λ v. is_ended (f v)) p, e)
  | inr other ↦ ground (arith, not_all_ended w n f (ground (arith, other, l)) e)
]

-- A worker changes no other's place, and neither `m_stop` nor where `stop` is.
pub record IsOwn (v : ℕ) (c d : ConcurrentTaskQueue) : Type 0 where
  pub number : d.thread_num ≡ c.thread_num
  pub stopped : d.stop ≡ c.stop
  pub stops_at : d.stopper ≡ c.stopper
  pub places : (w : ℕ) → (v == w) ≡ false → d.place w ≡ c.place w

same-IsOwn : (v : ℕ) (c : ConcurrentTaskQueue) → IsOwn v c c
same-IsOwn v c = record { number = refl; stopped = refl; stops_at = refl; places = λ w other. refl }

-- By the step that a worker makes its own place changes, with fields that do not matter here.
moves_to-IsOwn :
    (v : ℕ) (p : Place) (m : Option ℕ) (q ss fs : List ℕ) (c : ConcurrentTaskQueue)
    → IsOwn v c (record (moves_to v p c) { mtx = m; que = q; started = ss; finished = fs })
moves_to-IsOwn v p m q ss fs c = record {
  number = refl;
  stopped = refl;
  stops_at = refl;
  places = λ w other. rw other refl;
}

take_task-IsOwn : (v : ℕ) (ts : List ℕ) (c : ConcurrentTaskQueue) → IsOwn v c (take_task v ts c)
unfolding take_task
take_task-IsOwn v [] c = moves_to-IsOwn v at_top none c.que c.started c.finished c
take_task-IsOwn v (t ∷ ts) c =
    moves_to-IsOwn v (running t) none ts (c.started ++ (t ∷ [])) c.finished c

pub work-IsOwn : (v : ℕ) (p : Place) (c : ConcurrentTaskQueue) → IsOwn v c (work v p c)
unfolding work
work-IsOwn v at_top c =
    moves_to-IsOwn v (if c.stop then ended else locking) c.mtx c.que c.started c.finished c
work-IsOwn v locking c = elim (Bool-cases (is_free c.mtx)) [
  | inl free ↦ rw (free, work) (moves_to-IsOwn v testing (some v) c.que c.started c.finished c)
  | inr held ↦ rw (held, work) (same-IsOwn v c)
]
work-IsOwn v testing c =
    moves_to-IsOwn v (if not c.stop && is_nil c.que then dozing else taking) c.mtx c.que c.started
      c.finished c
work-IsOwn v dozing c = moves_to-IsOwn v waiting none c.que c.started c.finished c
work-IsOwn v waiting c = same-IsOwn v c
work-IsOwn v taking c = take_task-IsOwn v c.que c
work-IsOwn v (running t) c =
    moves_to-IsOwn v at_top c.mtx c.que c.started (c.finished ++ (t ∷ [])) c
work-IsOwn v ended c = same-IsOwn v c

-- A worker that waits or has returned stays where it is when a worker makes a step.
pub place-work :
    (w v : ℕ) (p : Place) (c : ConcurrentTaskQueue)
    → c.place w ≡ p
    → ((d : ConcurrentTaskQueue) → work w p d ≡ d)
    → (work v (c.place v) c).place w ≡ p
place-work w v p c e still = elim (Bool-cases (v == w)) [
  | inr other ↦ (work-IsOwn v (c.place v) c).places w other ∙ e
  | inl same ↦ let f : v ≡ w = ground (arith, same) in rw f (rw e (rw (still c) e))
]

Step-IsHung : {w : ℕ} {c d : ConcurrentTaskQueue} → Step c d → IsHung w c → IsHung w d
unfolding stop_step work
Step-IsHung {w} {c} (works v l) h = record {
  one_of = rw ((work-IsOwn v (c.place v) c).number) h.one_of;
  waits = place-work w v waiting c h.waits (λ d. refl);
  joins = (work-IsOwn v (c.place v) c).stops_at ∙ h.joins;
}
Step-IsHung {w} {c} stopping h =
    let not_yet : all_ended c.thread_num c.place ≡ false =
      not_all_ended w c.thread_num c.place h.one_of h.waits in
    rw h.joins (record { one_of = h.one_of; waits = h.waits; joins = rw not_yet refl })

Runs-IsHung : {w : ℕ} {c d : ConcurrentTaskQueue} → Runs c d → IsHung w c → IsHung w d
Runs-IsHung here h = h
Runs-IsHung (on r s) h = Step-IsHung s (Runs-IsHung r h)

after_stop-IsHung : (w : ℕ) (c : ConcurrentTaskQueue) → w < c.thread_num → IsHung w (after_stop w c)
unfolding after_stop stop_step work
after_stop-IsHung w c l = record { one_of = l; waits = ground arith; joins = refl }

-- When `stop` is called at the time that a worker has seen the queue empty and is about to wait, the
-- worker never returns, and `stop` never does, as long as no task is added and no worker wakes for
-- no reason.
pub stop_may_hang :
    {n w : ℕ} {c d : ConcurrentTaskQueue}
    → Reach n c
    → w < c.thread_num
    → c.place w ≡ dozing
    → c.stop ≡ false
    → c.stopper ≡ uncalled
    → Runs (after_stop w c) d
    → Reach n (after_stop w c) × (d.place w ≡ waiting) × (d.stopper ≡ joining)
stop_may_hang {w = w} {c = c} r l e s u rs =
    let h = Runs-IsHung rs (after_stop-IsHung w c l) in
    (after_stop-Reach w r l e s u, h.waits, h.joins)
