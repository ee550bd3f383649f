-- ===== src/TimerQueue/Calls.antt =====
-- The timers of `EventLoop` (netpoll/net/eventloop.cc): `runAt`, `runAfter`, `runEvery` and `cancelTimer`,
-- in the loop's thread. Delays are in microseconds; the readings of the system's clock and of the steady clock
-- are arguments.
use netpoll_cpp.Base.{
  Bool, Bool-cases, ap, arith, false, if◌then◌else◌, inl, inr, not, sym, true, ℕ, ◌&&◌, ◌+◌, ◌-◌,
  ◌∙◌, ◌≡◌, ◌≤◌,
}
use netpoll_cpp.TimerQueue.{TimerQueue, add_timer, cancel_timer, has_id}
use netpoll_cpp.TimerQueue.Cancel.{has_id-erase_id}

-- `steady_clock::now()` and the difference of `time` to `Timestamp::now()`, which may be negative; a
-- point before the steady clock's start is due as its start is.
unfoldable pub run_at : (time clock steady : ℕ) → (h l : Bool) → TimerQueue → TimerQueue × ℕ
unfolding add_timer
run_at time clock steady h l q = add_timer ((steady + time) - clock) 0 h l q

-- `clock` is read by `runAfter`, and `later_clock` and `steady` by `runAt`.
unfoldable pub run_after :
    (delay clock later_clock steady : ℕ) → (h l : Bool) → TimerQueue → TimerQueue × ℕ
unfolding run_at
run_after delay clock later_clock steady h l q = run_at (clock + delay) later_clock steady h l q

unfoldable pub run_every : (interval steady : ℕ) → (h l : Bool) → TimerQueue → TimerQueue × ℕ
unfolding add_timer
run_every interval steady h l q = add_timer (steady + interval) interval h l q

-- `cancelTimer`, with what `isRunning` tests: `m_looping` and `m_quit`.
unfoldable pub cancel_in_loop : (looping quit : Bool) → ℕ → TimerQueue → TimerQueue
unfolding cancel_timer
cancel_in_loop looping quit id q = if looping && not quit then cancel_timer id q else q

-- The two readings of the system's clock that `runAfter` takes make its timer early by what passes
-- between them, and no more.
pub run_after_lem :
    (delay clock passed steady : ℕ) (h l : Bool) (q : TimerQueue)
    → passed ≤ delay
    → run_after delay clock (clock + passed) steady h l q
      ≡ add_timer (steady + (delay - passed)) 0 h l q
unfolding run_after run_at
run_after_lem delay clock passed steady h l q small =
    ap (λ n. add_timer n 0 h l q) (omega (arith, small))

-- Whether a timer is cancelled: it is not by a call before `loop`, or after `quit`.
pub cancel_in_loop_lem :
    (looping quit : Bool) (id : ℕ) (q : TimerQueue)
    → has_id id (cancel_in_loop looping quit id q).ids
      ≡ has_id id q.ids && not (looping && not quit)
unfolding cancel_in_loop cancel_timer
cancel_in_loop_lem looping quit id q = elim (Bool-cases (looping && not quit)) [
  | inl looping_on ↦ rw (looping_on, cancel_in_loop) (erased ∙ sym (no_more (has_id id q.ids)))
  | inr rests ↦ rw (rests, cancel_in_loop) (sym (as_before (has_id id q.ids)))
]
  where
    no_more : (b : Bool) → b && false ≡ false
    no_more b = ground arith

    as_before : (b : Bool) → b && true ≡ b
    as_before b = ground arith

    erased : has_id id (cancel_timer id q).ids ≡ false
    erased = ground (arith, has_id-erase_id id id q.ids)
