-- ===== src/TimerQueue.antt =====
-- The timer queue of netpoll/net/inner/timer.h, timer.cc, timer_queue.h and timer_queue.cc, as built
-- on Linux. Times are microseconds of the steady clock; an interval of 0 stands for one that is not
-- positive. The priority queue is the list of its timers in the order of their times; a callback
-- is the list of calls that it makes on the queue, which run at once in the loop's thread.
pub mod Sorted
pub mod Expired
pub mod Arming
pub mod Calls
pub mod Clock
pub mod Cancel
pub mod Priority
mod Tests
use netpoll_cpp.Base.{
  Bool, List, Option, [], false, if◌then◌else◌, ltb, none, some, true, ℕ, ◌&&◌, ◌++◌, ◌+◌, ◌==◌,
  ◌||◌, ◌∷◌,
}

pub record Timer : Type 0 where
  pub when : ℕ
  pub interval : ℕ
  pub highest : Bool
  pub lowest : Bool
  pub id : ℕ

-- `m_repeat`.
abbrev pub is_repeat : Timer → Bool
is_repeat t = ltb 0 t.interval

-- `armed` is the time for which the timer descriptor was last set; `created` is `timersCreated_`.
pub record TimerQueue : Type 0 where
  pub highest_task : Option Timer
  pub lowest_task : Option Timer
  pub timers : List Timer
  pub ids : List ℕ
  pub armed : Option ℕ
  pub created : ℕ
  pub calling_expired : Bool

pub new_timer_queue : ℕ → TimerQueue
new_timer_queue created = record {
  highest_task = none;
  lowest_task = none;
  timers = [];
  ids = [];
  armed = none;
  created = created;
  calling_expired = false;
}

abbrev pub has_id : ℕ → List ℕ → Bool
has_id i [] = false
has_id i (j ∷ js) = i == j || has_id i js

pub insert_id : ℕ → List ℕ → List ℕ
insert_id i js = if has_id i js then js else i ∷ js

pub erase_id : ℕ → List ℕ → List ℕ
erase_id i [] = []
erase_id i (j ∷ js) = if i == j then erase_id i js else j ∷ erase_id i js

-- `priority_queue::push`.
pub push_timer : Timer → List Timer → List Timer
push_timer t [] = t ∷ []
push_timer t (u ∷ us) = if ltb t.when u.when then t ∷ u ∷ us else u ∷ push_timer t us

-- `insert`: the queue, and whether the earliest timer has changed.
pub insert : Timer → TimerQueue → TimerQueue × Bool
unfolding push_timer
insert t q = (
  record q { timers = push_timer t q.timers },
  elim q.timers [ [] ↦ true | u ∷ us ↦ ltb t.when u.when ],
)

pub add_timer_in_loop : Timer → TimerQueue → TimerQueue
unfolding insert insert_id
add_timer_in_loop t q =
    let (r, earliest_changed) = insert t (record q { ids = insert_id t.id q.ids }) in
    if earliest_changed then record r { armed = some t.when } else r

-- `addTimer` in the loop's thread: the queue, and the new timer's id.
pub add_timer : ℕ → ℕ → Bool → Bool → TimerQueue → TimerQueue × ℕ
unfolding add_timer_in_loop
add_timer when interval h l q =
    let id = q.created + 1 in
    let t : Timer = record { when = when; interval = interval; highest = h; lowest = l; id = id } in
    (add_timer_in_loop t (record q { created = id }), id)

pub cancel_timer : ℕ → TimerQueue → TimerQueue
unfolding erase_id
cancel_timer id q = record q { ids = erase_id id q.ids }

-- What `getExpired` leaves: the expired timers, the two prioritised ones, and the others.
pub record Expiry : Type 0 where
  pub expired : List Timer
  pub high : Option Timer
  pub low : Option Timer
  pub left : List Timer

abbrev is_some : Option Timer → Bool
is_some none = false
is_some (some t) = true

pub get_expired : ℕ → Option Timer → Option Timer → List Timer → Expiry
get_expired now high low [] = record { expired = []; high = high; low = low; left = [] }
get_expired now high low (t ∷ ts) =
    let as_high = get_expired now (some t) low ts in
    let as_low = get_expired now high (some t) ts in
    let rest = get_expired now high low ts in
    let as_normal : Expiry = record rest { expired = t ∷ rest.expired } in
    if ltb t.when now
    then (if t.highest && is_some high
        then as_high
        else if t.lowest && is_some low
        then as_low
        else as_normal)
    else record { expired = []; high = high; low = low; left = t ∷ ts }

-- What a callback does to the queue.
pub data Command : Type 0 where
  adds : ℕ → ℕ → Bool → Bool → Command
  cancels : ℕ → Command

pub obey : List Command → TimerQueue → TimerQueue
unfolding add_timer cancel_timer
obey [] q = q
obey (adds when interval h l ∷ cs) q = obey cs (add_timer when interval h l q).0
obey (cancels id ∷ cs) q = obey cs (cancel_timer id q)

-- `restart`.
pub restart : ℕ → Timer → Timer
restart now t =
    if is_repeat t then record t { when = now + t.interval } else record t { when = now }

-- `reset(expired, now)`, its loop, and then the new time of the timer descriptor.
pub reset_each : List Timer → ℕ → TimerQueue → TimerQueue
unfolding insert restart erase_id
reset_each [] now q = q
reset_each (t ∷ ts) now q = reset_each ts now (
    if has_id t.id q.ids
    then (if is_repeat t
        then (insert (restart now t) q).0
        else record q { ids = erase_id t.id q.ids })
    else q)

pub rearm : TimerQueue → TimerQueue
rearm q = elim q.timers [ [] ↦ q | t ∷ ts ↦ record q { armed = some t.when } ]

pub reset : List Timer → ℕ → TimerQueue → TimerQueue
unfolding reset_each rearm
reset expired now q = rearm (reset_each expired now q)

-- The queue while the expired timers run.
pub take_expired : Expiry → TimerQueue → TimerQueue
take_expired e q = record q {
  timers = e.left;
  highest_task = e.high;
  lowest_task = e.low;
  calling_expired = true;
}

abbrev pub task_list : Option Timer → List Timer
task_list none = []
task_list (some t) = t ∷ []

module _ (callback : ℕ → List Command) where
  -- A timer runs if its id is still valid: the queue, and the ids that ran.
  pub run_timer : Timer → TimerQueue × List ℕ → TimerQueue × List ℕ
  unfolding obey
  run_timer t (q, ran) =
      if has_id t.id q.ids then (obey (callback t.id) q, ran ++ (t.id ∷ [])) else (q, ran)

  pub run_each : List Timer → TimerQueue × List ℕ → TimerQueue × List ℕ
  unfolding run_timer
  run_each [] s = s
  run_each (t ∷ ts) s = run_each ts (run_timer t s)

  abbrev pub run_task : Option Timer → TimerQueue × List ℕ → TimerQueue × List ℕ
  run_task none s = s
  run_task (some t) s = run_timer t s

  -- The highest one, the expired ones in order, and the lowest one.
  pub run_expired : Expiry → TimerQueue × List ℕ → TimerQueue × List ℕ
  unfolding run_each
  run_expired e s = run_task e.low (run_each e.expired (run_task e.high s))

  -- `handleRead` at the time `now`: the queue, and the ids of the timers that ran, in order.
  pub handle_read : ℕ → TimerQueue → TimerQueue × List ℕ
  unfolding run_expired reset take_expired
  handle_read now q =
      let e = get_expired now q.highest_task q.lowest_task q.timers in
      let s = run_expired e (take_expired e q, []) in
      (
        reset (e.expired ++ (task_list s.0.highest_task ++ task_list s.0.lowest_task)) now
            (record s.0 { highest_task = none; lowest_task = none; calling_expired = false }),
        s.1,
      )
