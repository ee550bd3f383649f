-- ===== src/TimerQueue/Priority.antt =====
-- The highest and the lowest priority of a timer: what `getExpired` makes of them.
use netpoll_cpp.Base.{List, [], arith, false, none, refl, ℕ, ◌++◌, ◌∷◌, ◌≡◌}
use netpoll_cpp.TimerQueue.{
  Command, Timer, TimerQueue, add_timer_in_loop, adds, cancels, get_expired, handle_read,
  new_timer_queue, obey, rearm, reset, reset_each, run_expired, take_expired, task_list,
}
use netpoll_cpp.TimerQueue.Arming.{Event, command, expiry, fork, renew_descriptor, run_events}

-- No timer is kept as the highest or the lowest one.
abbrev pub HasNoTask : TimerQueue → Type 0
HasNoTask q = (q.highest_task ≡ none) × (q.lowest_task ≡ none)

obey-HasNoTask : (cs : List Command) (q : TimerQueue) → HasNoTask q → HasNoTask (obey cs q)
unfolding obey add_timer_in_loop
obey-HasNoTask [] q h = h
obey-HasNoTask (adds when interval hi lo ∷ cs) q h = obey-HasNoTask cs _ (ground arith)
obey-HasNoTask (cancels id ∷ cs) q h = obey-HasNoTask cs _ h

reset_each-HasNoTask :
    (ts : List Timer) (now : ℕ) (q : TimerQueue) → HasNoTask q → HasNoTask (reset_each ts now q)
unfolding reset_each
reset_each-HasNoTask [] now q h = h
reset_each-HasNoTask (t ∷ ts) now q h = reset_each-HasNoTask ts now _ (ground arith)

rearm-HasNoTask : (q : TimerQueue) → HasNoTask q → HasNoTask (rearm q)
unfolding rearm
rearm-HasNoTask q h = ground arith

get_expired-none :
    (now : ℕ) (ts : List Timer)
    → ((get_expired now none none ts).high ≡ none) × ((get_expired now none none ts).low ≡ none)
unfolding get_expired
get_expired-none now [] = (refl, refl)
get_expired-none now (t ∷ ts) = ground (arith, get_expired-none now ts)

reset-HasNoTask :
    (ts : List Timer) (now : ℕ) (q : TimerQueue) → HasNoTask q → HasNoTask (reset ts now q)
unfolding reset
reset-HasNoTask ts now q h = rearm-HasNoTask (reset_each ts now q) (reset_each-HasNoTask ts now q h)

module _ (callback : ℕ → List Command) where
  handle_read-HasNoTask : (now : ℕ) (q : TimerQueue) → HasNoTask (handle_read callback now q).0
  unfolding handle_read
  handle_read-HasNoTask now q =
      let e = get_expired now q.highest_task q.lowest_task q.timers in
      let s = run_expired callback e (take_expired e q, []) in
      let done : TimerQueue = record s.0 {
        highest_task = none;
        lowest_task = none;
        calling_expired = false;
      } in
      reset-HasNoTask (e.expired ++ (task_list s.0.highest_task ++ task_list s.0.lowest_task)) now
        done (refl, refl)

  run_events-HasNoTask :
      (es : List Event) (q : TimerQueue) → HasNoTask q → HasNoTask (run_events callback es q)
  unfolding run_events renew_descriptor
  run_events-HasNoTask [] q h = h
  run_events-HasNoTask (command c ∷ es) q h =
      run_events-HasNoTask es _ (obey-HasNoTask (c ∷ []) q h)
  run_events-HasNoTask (expiry now ∷ es) q h =
      run_events-HasNoTask es _ (handle_read-HasNoTask now q)
  run_events-HasNoTask (fork ∷ es) q h = run_events-HasNoTask es _ (rearm-HasNoTask _ h)

-- After every history of a queue no timer stands as the highest or the lowest task, and the next
-- `getExpired` takes none as such, whatever their flags: `m_highestTask` and `m_lowestTask` are
-- never set, and timers run in the order of their times alone.
pub priority_has_no_effect :
    (callback : ℕ → List Command) (es : List Event) (created now : ℕ)
    → let q = run_events callback es (new_timer_queue created) in
      let e = get_expired now q.highest_task q.lowest_task q.timers in
      HasNoTask q × (e.high ≡ none) × (e.low ≡ none)
unfolding new_timer_queue
priority_has_no_effect callback es created now =
    let h = run_events-HasNoTask callback es (new_timer_queue created) (refl, refl) in
    let q = run_events callback es (new_timer_queue created) in
    (
      h,
      (rw (h.0, h.1) (get_expired-none now q.timers).0),
      (rw (h.0, h.1) (get_expired-none now q.timers).1),
    )
