-- ===== src/TaskQueue/Fifo.antt =====
-- The tasks are taken in the order in which they were added, and each is run once.
use mathlib.Core.Path.{ap₂}
use netpoll_cpp.Base.{
  Bool-cases, List, Option, [], ap, append_assoc, arith, false, if◌then◌else◌, inl, inr, none, not,
  refl, set_at, some, suc, sym, zero, ℕ, ◌&&◌, ◌++◌, ◌+◌, ◌<◌, ◌==◌, ◌∙◌, ◌∷◌, ◌≡◌, ◌≤◌,
}
use netpoll_cpp.TaskQueue.{
  ConcurrentTaskQueue, MayPick, Place, Reach, Stopper, acts, at_top, dozing, ended, moves_to,
  is_free, is_nil, joined, joining, locking, new_task_queue, notifying, run_task, running,
  runs_task, start, steps, stopping, stop_step, take_task, taking, testing, uncalled, waiting, wake,
  wakes, woken, work, works,
}

pub count : ℕ → List ℕ → ℕ
count t [] = 0
count t (x ∷ xs) = (if t == x then 1 else 0) + count t xs

count-append_one :
    (t x : ℕ) (xs : List ℕ) → count t (xs ++ (x ∷ [])) ≡ count t xs + (if t == x then 1 else 0)
unfolding count
count-append_one t x [] = omega arith
count-append_one t x (y ∷ xs) = omega (arith, count-append_one t x xs)

-- How many of the first `n` workers are running the task.
abbrev pub runs : ℕ → Place → ℕ
runs t (running u) = if t == u then 1 else 0
runs t p = 0

unfoldable pub runners : ℕ → ℕ → (ℕ → Place) → ℕ
runners t zero f = 0
runners t (suc n) f = runs t (f n) + runners t n f

runners_beyond :
    (t w : ℕ) (p : Place) (n : ℕ) (f : ℕ → Place)
    → n ≤ w
    → runners t n (set_at w p f) ≡ runners t n f
unfolding runners
runners_beyond t w p zero f l = refl
runners_beyond t w p (suc n) f l =
    let other : (w == n) ≡ false = ground (arith, l) in
    rw other (ap (λ k. runs t (f n) + k) (runners_beyond t w p n f (omega (arith, l))))

runners-set_at :
    (t w : ℕ) (p : Place) (n : ℕ) (f : ℕ → Place)
    → w < n
    → runners t n (set_at w p f) + runs t (f w) ≡ runners t n f + runs t p
unfolding runners
runners-set_at t w p zero f l = absurd (omega (arith, l))
runners-set_at t w p (suc n) f l = elim (Bool-cases (w == n)) [
  | inl same ↦
      let e : w ≡ n = ground (arith, same) in
      let k = runners_beyond t w p n f (omega (arith, e)) in
      rw same (rw k (rw (ap (λ v. runs t (f v)) e) (omega arith)))
  | inr other ↦
      let k = runners-set_at t w p n f (ground (arith, other, l)) in rw other (omega (arith, k))
]

runners_eq :
    (t n : ℕ) (f g : ℕ → Place)
    → ((w : ℕ) → runs t (f w) ≡ runs t (g w))
    → runners t n f ≡ runners t n g
unfolding runners
runners_eq t zero f g e = refl
runners_eq t (suc n) f g e = ap₂ ◌+◌ (e n) (runners_eq t n f g e)

pub record IsFifo (c : ConcurrentTaskQueue) : Type 0 where
  pub in_order : c.added ≡ c.started ++ c.que
  pub once : (t : ℕ) → count t c.started ≡ count t c.finished + runners t c.thread_num c.place

-- A worker goes from one place to another, none of them in a task.
idle-runners :
    (t w : ℕ) (p : Place) (n : ℕ) (f : ℕ → Place)
    → w < n
    → runs t (f w) ≡ 0
    → runs t p ≡ 0
    → runners t n (set_at w p f) ≡ runners t n f
idle-runners t w p n f l e g = omega (arith, runners-set_at t w p n f l, e, g)

moves_to-IsFifo :
    {c : ConcurrentTaskQueue} (w : ℕ) (p : Place) (m : Option ℕ)
    → IsFifo c
    → w < c.thread_num
    → ((t : ℕ) → runs t (c.place w) ≡ 0)
    → ((t : ℕ) → runs t p ≡ 0)
    → IsFifo (record (moves_to w p c) { mtx = m })
moves_to-IsFifo {c} w p m h l e g = record {
  in_order = h.in_order;
  once = λ t.
      h.once t
      ∙ ap (λ k. count t c.finished + k)
          (sym (idle-runners t w p c.thread_num c.place l (e t) (g t)));
}

take_task-IsFifo :
    {c : ConcurrentTaskQueue} (w : ℕ) (ts : List ℕ)
    → IsFifo c
    → w < c.thread_num
    → c.place w ≡ taking
    → c.que ≡ ts
    → IsFifo (take_task w ts c)
unfolding take_task
take_task-IsFifo {c} w [] h l e q =
    moves_to-IsFifo w at_top none h l (λ t. ap (runs t) e) (λ t. refl)
take_task-IsFifo {c} w (u ∷ ts) h l e q = record {
  in_order = h.in_order ∙ ap (λ k. c.started ++ k) q ∙ sym (append_assoc c.started (u ∷ []) ts);
  once = λ t. omega (
    arith,
    h.once t,
    count-append_one t u c.started,
    runners-set_at t w (running u) c.thread_num c.place l,
    ap (runs t) e,
  );
}

work-IsFifo :
    {c : ConcurrentTaskQueue} (w : ℕ) (p : Place)
    → IsFifo c
    → w < c.thread_num
    → c.place w ≡ p
    → IsFifo (work w p c)
unfolding work
work-IsFifo {c} w at_top h l e =
    moves_to-IsFifo w (if c.stop then ended else locking) c.mtx h l (λ t. ap (runs t) e)
      (λ t. ground arith)
work-IsFifo {c} w locking h l e = elim (Bool-cases (is_free c.mtx)) [
  | inl free ↦
      rw (free, work) (moves_to-IsFifo w testing (some w) h l (λ t. ap (runs t) e) (λ t. refl))
  | inr held ↦ rw (held, work) h
]
work-IsFifo {c} w testing h l e =
    moves_to-IsFifo w (if not c.stop && is_nil c.que then dozing else taking) c.mtx h l
      (λ t. ap (runs t) e) (λ t. ground arith)
work-IsFifo {c} w dozing h l e = moves_to-IsFifo w waiting none h l (λ t. ap (runs t) e) (λ t. refl)
work-IsFifo {c} w waiting h l e = h
work-IsFifo {c} w taking h l e = take_task-IsFifo w c.que h l e refl
work-IsFifo {c} w (running u) h l e = record {
  in_order = h.in_order;
  once = λ t. omega (
    arith,
    h.once t,
    count-append_one t u c.finished,
    runners-set_at t w at_top c.thread_num c.place l,
    ap (runs t) e,
  );
}
work-IsFifo {c} w ended h l e = h

stop_step-IsFifo : {c : ConcurrentTaskQueue} (s : Stopper) → IsFifo c → IsFifo (stop_step s c)
unfolding stop_step
stop_step-IsFifo {c} uncalled h = record { in_order = h.in_order; once = h.once }
stop_step-IsFifo {c} notifying h = record {
  in_order = h.in_order;
  once = λ t.
      h.once t
      ∙ ap (λ k. count t c.finished + k)
          (runners_eq t c.thread_num c.place (λ w. woken (c.place w))
            (λ w. runs-woken t (c.place w)));
}
  where
    runs-woken : (t : ℕ) (p : Place) → runs t p ≡ runs t (woken p)
    runs-woken t p = ground arith
stop_step-IsFifo {c} joining h = record { in_order = h.in_order; once = h.once }
stop_step-IsFifo {c} joined h = h

wakes-IsFifo :
    {c : ConcurrentTaskQueue} (w : ℕ)
    → IsFifo c
    → w < c.thread_num
    → c.place w ≡ waiting
    → IsFifo (record c { place = wake w c.place })
unfolding wake
wakes-IsFifo {c} w h l e = moves_to-IsFifo w locking c.mtx h l (λ t. ap (runs t) e) (λ t. refl)

run_task-IsFifo :
    {c : ConcurrentTaskQueue} (u : ℕ) (picked : Option ℕ)
    → IsFifo c
    → MayPick picked c
    → IsFifo (run_task u picked c)
unfolding run_task
run_task-IsFifo {c} u none h may = record {
  in_order = ap (λ k. k ++ (u ∷ [])) h.in_order ∙ append_assoc c.started c.que (u ∷ []);
  once = h.once;
}
run_task-IsFifo {c} u (some w) h may = record {
  in_order = ap (λ k. k ++ (u ∷ [])) h.in_order ∙ append_assoc c.started c.que (u ∷ []);
  once = (wakes-IsFifo w h may.0 may.1).once;
}

-- In every state that the threads reach, the tasks that were added are those that workers took, in
-- the same order, followed by those in the queue; and each task was taken as often as it was completed
-- or is being run by a worker.
pub Reach-IsFifo : {n : ℕ} {c : ConcurrentTaskQueue} → Reach n c → IsFifo c
unfolding new_task_queue runners count
Reach-IsFifo {n} start = record { in_order = refl; once = λ t. omega (arith, none_run t n) }
  where
    none_run : (t k : ℕ) → runners t k (λ w. at_top) ≡ 0
    none_run t zero = refl
    none_run t (suc k) = omega (arith, none_run t k)
Reach-IsFifo (steps {c = c} r (works w l)) = work-IsFifo w (c.place w) (Reach-IsFifo r) l refl
Reach-IsFifo (steps {c = c} r stopping) = stop_step-IsFifo c.stopper (Reach-IsFifo r)
Reach-IsFifo (acts r (runs_task t picked free may)) = run_task-IsFifo t picked (Reach-IsFifo r) may
Reach-IsFifo (acts r (wakes w l e)) = wakes-IsFifo w (Reach-IsFifo r) l e
