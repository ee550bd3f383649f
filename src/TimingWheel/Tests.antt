-- ===== src/TimingWheel/Tests.antt =====
-- Timing wheels at concrete delays.
use netpoll_cpp.Base.{
  List, [], arith, false, length, refl, replicate, some, true, ℕ, ◌/◌, ◌<◌, ◌^◌, ◌∷◌, ◌≡◌, ◌≤◌,
}
use netpoll_cpp.TimingWheel.{
  TimingWheel, insert_entry, insert_entry_in_loop, new_timing_wheel, place, put, put_bucket,
  release, rotate, rotate_queue, task, tick, turn,
}
use netpoll_cpp.TimingWheel.Idle.{Operation, inserts, ticks}
use netpoll_cpp.TimingWheel.Kickoff.{in_queues}
use netpoll_cpp.TimingWheel.Queues.{new_timing_wheel_lem}
use netpoll_cpp.TimingWheel.Single.{has, names}

-- The wheel that a server with an idle timeout of 3 seconds makes.
abbrev four_buckets : TimingWheel
four_buckets = record { queues = replicate 4 [] ∷ []; ticks = 0; interval = 1; per_queue = 4 }

-- Two queues of four buckets, at tick 2.
abbrev two_queues : TimingWheel
two_queues = record {
  queues = replicate 4 [] ∷ replicate 4 [] ∷ [];
  ticks = 2;
  interval = 1;
  per_queue = 4;
}

-- A pointer that is to be dropped in 6 ticks, at tick 8, is dropped at tick 5.
dropped_at_5 :
    let w = tick (tick (insert_entry 6 (task 1) two_queues)) in
    (in_queues 1 w.queues ≡ true) × (in_queues 1 (tick w).queues ≡ false)
unfolding tick turn rotate rotate_queue release put put_bucket insert_entry insert_entry_in_loop
    place has names
dropped_at_5 = (refl, refl)

-- Pointer 1 is inserted for 3 ticks, and pointer 2 after one tick.
abbrev operations_on_both : List Operation
operations_on_both = ticks ∷ inserts 2 2 ∷ ticks ∷ []

new_timing_wheel_lem_example :
    (w : TimingWheel) × (new_timing_wheel ◌/◌ 600 1 100 ≡ some w)
    × (600 / 1 ≤ 100 ^ length w.queues)
    × ((j : ℕ) → 1 ≤ j → j < length w.queues → 100 ^ j < 600 / 1)
new_timing_wheel_lem_example =
    new_timing_wheel_lem ◌/◌ 600 1 100 (λ a b short some_b few. refl) (omega arith) (omega arith)
      (omega arith) (omega arith) (omega arith)
