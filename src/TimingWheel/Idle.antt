-- ===== src/TimingWheel/Idle.antt =====
-- What TcpServer relies on for idle timeouts: how long a wheel of one queue keeps a pointer.

use netpoll_cpp.Base.{
  Bool, Bool-cases, List, [], ap, arith, fun_ext, if◌then◌else◌, inl, inr, length, max, min, not,
  refl, set_at, suc, sym, true, ℕ, ◌&&◌, ◌-◌, ◌<◌, ◌==◌, ◌∙◌, ◌∷◌, ◌≡◌,
}
use netpoll_cpp.TimingWheel.{
  TimingWheel, insert_entry, insert_entry_in_loop, put_bucket, rotate_queue, task, tick,
}
use netpoll_cpp.TimingWheel.Single.{
  IsSingle, bucket_of, due, due-put_bucket, due-rotate_queue, insert_queues, length-put_bucket,
  length-rotate_queue, names, put_bucket-AllTasks, remaining, rotate_queue-AllTasks, tick_queues,
}

pub data Operation : Type 0 where
  inserts : (delay x : ℕ) → Operation
  ticks : Operation

unfoldable pub run : List Operation → TimingWheel → TimingWheel
run [] w = w
run (inserts delay x ∷ os) w = run os (insert_entry delay (task x) w)
run (ticks ∷ os) w = run os (tick w)

-- The same on a function that counts the ticks that are left for each pointer, of which there are
-- at most `n`.
pub count_down : ℕ → List Operation → (ℕ → ℕ) → ℕ → ℕ
count_down n [] f = f
count_down n (inserts delay x ∷ os) f = count_down n os (set_at x (max (min delay n) (f x)) f)
count_down n (ticks ∷ os) f = count_down n os (λ x. f x - 1)

tick-IsSingle : (w : TimingWheel) → IsSingle w → IsSingle (tick w)
unfolding tick
tick-IsSingle w s = record {
  queue = (rotate_queue s.queue).1;
  queues_eq = tick_queues w s;
  buckets = length-rotate_queue s.queue (omega (arith, s.buckets, s.some_bucket)) ∙ s.buckets;
  some_bucket = s.some_bucket;
  seconds = s.seconds;
  tasks = rotate_queue-AllTasks s.queue s.tasks;
}

remaining-tick : (w : TimingWheel) (x : ℕ) → IsSingle w → remaining (tick w) x ≡ remaining w x - 1
remaining-tick w x s = rw (tick_queues w s, s.queues_eq) (due-rotate_queue x s.queue)

bucket_of_lt :
    (w : TimingWheel) (s : IsSingle w) (delay : ℕ) → bucket_of delay w.per_queue < length s.queue
bucket_of_lt w s delay = ground (arith, s.buckets, s.some_bucket)

-- What `insertEntry` leaves of the other fields.
insert_entry_keeps :
    (w : TimingWheel) (delay x : ℕ)
    → ((insert_entry delay (task x) w).per_queue ≡ w.per_queue)
      × ((insert_entry delay (task x) w).interval ≡ w.interval)
unfolding insert_entry insert_entry_in_loop
insert_entry_keeps w delay x = elim (Bool-cases (delay == 0)) [
  | inl none_ ↦ rw none_ (refl, refl)
  | inr some_ ↦ rw some_ (refl, refl)
]

insert_entry_zero :
    (w : TimingWheel) (delay x : ℕ) → (delay == 0) ≡ true → insert_entry delay (task x) w ≡ w
unfolding insert_entry
insert_entry_zero w delay x h = rw h refl

insert_entry-IsSingle :
    (w : TimingWheel) (delay x : ℕ) → IsSingle w → IsSingle (insert_entry delay (task x) w)
insert_entry-IsSingle w delay x s = elim (Bool-cases (delay == 0)) [
  | inl none_ ↦ rw (insert_entry_zero w delay x none_) s
  | inr some_ ↦ record {
    queue = put_bucket (bucket_of delay w.per_queue) (task x) s.queue;
    queues_eq = insert_queues w s delay x (ground arith);
    buckets =
        length-put_bucket _ (task x) s.queue ∙ s.buckets ∙ sym (insert_entry_keeps w delay x).0;
    some_bucket = rw (insert_entry_keeps w delay x).0 s.some_bucket;
    seconds = (insert_entry_keeps w delay x).1 ∙ s.seconds;
    tasks = put_bucket-AllTasks _ x s.queue s.tasks;
  }
]

remaining_eq : (w : TimingWheel) (s : IsSingle w) → remaining w ≡ (λ x. due x s.queue)
remaining_eq w s = rw s.queues_eq refl

-- The place for a delay is that many ticks away, if there are so many buckets.
farther :
    (x y n d : ℕ) (f : ℕ → ℕ)
    → 0 < n
    → 0 < d
    → (if x == y then max (suc (bucket_of d n)) (f y) else f y) ≡ set_at x (max (min d n) (f x)) f y
farther x y n d f hn hd = elim (Bool-cases (x == y)) [
  | inl same ↦ let e : y ≡ x = ground arith in rw (same, e) (ground arith)
  | inr other ↦ rw other refl
]

no_farther : (x y n : ℕ) (f : ℕ → ℕ) → f y ≡ set_at x (max (min 0 n) (f x)) f y
no_farther x y n f = elim (Bool-cases (x == y)) [
  | inl same ↦ let e : y ≡ x = ground arith in rw (same, e) (ground arith)
  | inr other ↦ rw other refl
]

remaining-insert_entry :
    (w : TimingWheel) (delay x y : ℕ)
    → IsSingle w
    → remaining (insert_entry delay (task x) w) y
      ≡ set_at x (max (min delay w.per_queue) (remaining w x)) (remaining w) y
unfolding names
remaining-insert_entry w delay x y s = elim (Bool-cases (delay == 0)) [
  | inl none_ ↦
      let zero_delay : delay ≡ 0 = ground arith in
      rw (insert_entry_zero w delay x none_, zero_delay) (no_farther x y w.per_queue (remaining w))
  | inr some_ ↦
      let some_delay : 0 < delay = ground arith in
      rw (insert_queues w s delay x some_delay, s.queues_eq)
        (due-put_bucket y (bucket_of delay w.per_queue) (task x) s.queue (bucket_of_lt w s delay)
          ∙ farther x y w.per_queue delay (λ z. due z s.queue) s.some_bucket some_delay)
]

-- A wheel of one queue counts the ticks down for each pointer, from the latest that its insertions
-- asked for, whatever is inserted in between.
pub remaining-run :
    (os : List Operation) (w : TimingWheel)
    → IsSingle w
    → remaining (run os w) ≡ count_down w.per_queue os (remaining w)
unfolding run count_down tick
remaining-run [] w s = refl
remaining-run (inserts delay x ∷ os) w s =
    remaining-run os (insert_entry delay (task x) w) (insert_entry-IsSingle w delay x s)
    ∙ ap (λ n. count_down n os (remaining (insert_entry delay (task x) w)))
        (insert_entry_keeps w delay x).0
    ∙ ap (count_down w.per_queue os) (fun_ext (λ y. remaining-insert_entry w delay x y s))
remaining-run (ticks ∷ os) w s =
    remaining-run os (tick w) (tick-IsSingle w s)
    ∙ ap (count_down w.per_queue os) (fun_ext (λ x. remaining-tick w x s))

-- No later operation inserts the pointer, and how many of them are ticks.
unfoldable pub leaves_alone : ℕ → List Operation → Bool
leaves_alone x [] = true
leaves_alone x (inserts delay y ∷ os) = not (x == y) && leaves_alone x os
leaves_alone x (ticks ∷ os) = leaves_alone x os

unfoldable pub tick_count : List Operation → ℕ
tick_count [] = 0
tick_count (inserts delay y ∷ os) = tick_count os
tick_count (ticks ∷ os) = suc (tick_count os)
