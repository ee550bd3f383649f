-- ===== src/TimerQueue/Cancel.antt =====
-- Which timers run, and which stay valid.
use netpoll_cpp.Base.{
  List, Option, [], ap, append_assoc, arith, false, if◌then◌else◌, none, refl, some, true, ℕ, ◌++◌,
  ◌==◌, ◌||◌, ◌∙◌, ◌∷◌, ◌≡◌, ◌≢◌, ◌≤◌,
}
use netpoll_cpp.TimerQueue.{
  Command, Timer, TimerQueue, add_timer_in_loop, adds, cancels, erase_id, get_expired, handle_read,
  has_id, is_repeat, obey, rearm, reset, reset_each, run_each, run_expired, run_task, run_timer,
  take_expired, task_list,
}

-- An id that was given out and is not valid any more.
abbrev pub IsDead : ℕ → TimerQueue → Type 0
IsDead id q = (has_id id q.ids ≡ false) × (id ≤ q.created)

pub has_id-erase_id :
    (i j : ℕ) (js : List ℕ) → has_id i (erase_id j js) ≡ (if i == j then false else has_id i js)
unfolding erase_id
has_id-erase_id i j [] = ground arith
has_id-erase_id i j (k ∷ js) = ground (arith, has_id-erase_id i j js)

has_id-append : (i : ℕ) (xs ys : List ℕ) → has_id i (xs ++ ys) ≡ (has_id i xs || has_id i ys)
has_id-append i [] ys = refl
has_id-append i (x ∷ xs) ys = ground (arith, has_id-append i xs ys)

obey-IsDead : (id : ℕ) (cs : List Command) (q : TimerQueue) → IsDead id q → IsDead id (obey cs q)
unfolding obey add_timer_in_loop
obey-IsDead id [] q d = d
obey-IsDead id (adds when interval h l ∷ cs) q d = obey-IsDead id cs _ (ground arith)
obey-IsDead id (cancels j ∷ cs) q d =
    obey-IsDead id cs _ (ground (arith, has_id-erase_id id j q.ids))

-- A dead id, in a queue and the ids that ran.
abbrev pub StaysDead : ℕ → TimerQueue × List ℕ → Type 0
StaysDead id s = IsDead id s.0 × (has_id id s.1 ≡ false)

module _ (callback : ℕ → List Command) (id : ℕ) where
  run_timer-StaysDead :
      (t : Timer) (s : TimerQueue × List ℕ) → StaysDead id s → StaysDead id (run_timer callback t s)
  unfolding run_timer
  run_timer-StaysDead t (q, ran) d =
      ground (arith, obey-IsDead id (callback t.id) q, has_id-append id ran (t.id ∷ []), ne t.id)
    where
      ne : (j : ℕ) → has_id id q.ids ≡ false → has_id j q.ids ≡ true → id ≢ j
      ne j p r e = cc (rw e at p)

  run_each-StaysDead :
      (ts : List Timer) (s : TimerQueue × List ℕ)
      → StaysDead id s
      → StaysDead id (run_each callback ts s)
  unfolding run_each
  run_each-StaysDead [] s d = d
  run_each-StaysDead (t ∷ ts) s d = run_each-StaysDead ts _ (run_timer-StaysDead t s d)

  run_task-StaysDead :
      (o : Option Timer) (s : TimerQueue × List ℕ)
      → StaysDead id s
      → StaysDead id (run_task callback o s)
  run_task-StaysDead none s d = d
  run_task-StaysDead (some t) s d = run_timer-StaysDead t s d

reset_each-IsDead :
    (id : ℕ) (ts : List Timer) (now : ℕ) (q : TimerQueue)
    → IsDead id q
    → IsDead id (reset_each ts now q)
unfolding reset_each
reset_each-IsDead id [] now q d = d
reset_each-IsDead id (t ∷ ts) now q d =
    reset_each-IsDead id ts now _ (ground (arith, has_id-erase_id id t.id q.ids))

rearm-IsDead : (id : ℕ) (q : TimerQueue) → IsDead id q → IsDead id (rearm q)
unfolding rearm
rearm-IsDead id q d = ground arith

reset-IsDead :
    (id : ℕ) (ts : List Timer) (now : ℕ) (q : TimerQueue) → IsDead id q → IsDead id (reset ts now q)
unfolding reset
reset-IsDead id ts now q d = rearm-IsDead id (reset_each ts now q) (reset_each-IsDead id ts now q d)

-- A timer whose id is no longer valid, because it was cancelled or has run its course, does not run
-- when the queue is next handled, whatever the callbacks of other timers do, and stays so.
pub handle_read-StaysDead :
    (callback : ℕ → List Command) (id now : ℕ) (q : TimerQueue)
    → IsDead id q
    → StaysDead id (handle_read callback now q)
unfolding handle_read take_expired run_expired
handle_read-StaysDead callback id now q d =
    let e = get_expired now q.highest_task q.lowest_task q.timers in
    let s = run_expired callback e (take_expired e q, []) in
    let done : TimerQueue = record s.0 {
      highest_task = none;
      lowest_task = none;
      calling_expired = false;
    } in
    let ran : StaysDead id s = run_task-StaysDead callback id e.low _ (
      run_each-StaysDead callback id e.expired _
        (run_task-StaysDead callback id e.high (take_expired e q, []) (d, refl))) in
    (
      reset-IsDead id (e.expired ++ (task_list s.0.highest_task ++ task_list s.0.lowest_task)) now
          done ran.0,
      ran.1,
    )

has_id-reset_each :
    (id : ℕ) (ts : List Timer) (now : ℕ) (q : TimerQueue)
    → has_id id q.ids ≡ false
    → has_id id (reset_each ts now q).ids ≡ false
unfolding reset_each
has_id-reset_each id [] now q d = d
has_id-reset_each id (t ∷ ts) now q d =
    has_id-reset_each id ts now _ (ground (arith, has_id-erase_id id t.id q.ids))

reset_each-once :
    (ts us : List Timer) (t : Timer) (now : ℕ) (q : TimerQueue)
    → is_repeat t ≡ false
    → has_id t.id (reset_each (ts ++ (t ∷ us)) now q).ids ≡ false
unfolding reset_each
reset_each-once [] us t now q once =
    has_id-reset_each t.id us now _ (ground (arith, has_id-erase_id t.id t.id q.ids))
reset_each-once (u ∷ ts) us t now q once = reset_each-once ts us t now _ once

ids-rearm : (q : TimerQueue) → (rearm q).ids ≡ q.ids
unfolding rearm
ids-rearm q = ground arith

-- A timer that `getExpired` takes and that does not repeat is no longer valid after the handling,
-- so that it runs once at most.
pub handle_read-once :
    (callback : ℕ → List Command) (now : ℕ) (q : TimerQueue) (t : Timer) (xs ys : List Timer)
    → (get_expired now q.highest_task q.lowest_task q.timers).expired ≡ xs ++ (t ∷ ys)
    → is_repeat t ≡ false
    → has_id t.id (handle_read callback now q).0.ids ≡ false
unfolding handle_read reset
handle_read-once callback now q t xs ys taken once =
    let e = get_expired now q.highest_task q.lowest_task q.timers in
    let s = run_expired callback e (take_expired e q, []) in
    let done : TimerQueue = record s.0 {
      highest_task = none;
      lowest_task = none;
      calling_expired = false;
    } in
    let tasks = task_list s.0.highest_task ++ task_list s.0.lowest_task in
    ap (has_id t.id) (ids-rearm (reset_each (e.expired ++ tasks) now done))
    ∙ ap (λ l. has_id t.id (reset_each l now done).ids)
        (ap (λ l. l ++ tasks) taken ∙ append_assoc xs (t ∷ ys) tasks)
    ∙ reset_each-once xs (ys ++ tasks) t now done once
