-- ===== src/TimingWheel/Queues.antt =====
-- How many queues a new timing wheel has.
use native.Mathlib.Nat.{
  mul-lt-mul_of_pos_right, lt_trans, pow-zero, mul-le-mul_left, mul-le-mul_right, mul_assoc,
  pow-succ', pow-suc, mod-eq_of_lt,
}
use netpoll_cpp.Base.{
  Bool-cases, [], ap, arith, false, inl, inr, length, ltb, refl, replicate, some, suc, sym, true,
  zero, ℕ, ◌*◌, ◌/◌, ◌<◌, ◌==◌, ◌^◌, ◌∙◌, ◌∷◌, ◌≡◌, ◌≤◌,
}
use netpoll_cpp.TcpClient.{stop}
use netpoll_cpp.TimingWheel.{TimingWheel, new_timing_wheel, queue_num}
use netpoll_cpp.TimingWheel.Single.{AllTasks, IsSingle}

-- One queue is enough for as many ticks as it has buckets.

queue_num_enough :
    (fuel max_ticks n num ticks_num : ℕ)
    → ltb ticks_num max_ticks ≡ false
    → queue_num (suc fuel) max_ticks n num ticks_num ≡ some num
unfolding queue_num
queue_num_enough fuel max_ticks n num ticks_num h = rw h refl

length-replicate : {A : Type 0} (n : ℕ) (b : A) → length (replicate n b) ≡ n
length-replicate zero b = refl
length-replicate (suc n) b = ap suc (length-replicate n b)

replicate-AllTasks : (n : ℕ) → AllTasks (replicate n [])
replicate-AllTasks zero = tt
replicate-AllTasks (suc n) = (tt, replicate-AllTasks n)

-- The wheel that TcpServer makes for an idle timeout below 500 seconds has one queue, with a bucket
-- for every delay up to the timeout, if the division of the timeout by 1 does not round up further.
pub new_timing_wheel-IsSingle :
    (quotient : ℕ → ℕ → ℕ) (timeout : ℕ)
    → quotient timeout 1 ≤ suc timeout
    → (w : TimingWheel) × (new_timing_wheel quotient timeout 1 (suc timeout) ≡ some w) × IsSingle w
unfolding new_timing_wheel
new_timing_wheel-IsSingle quotient timeout few =
    let enough : ltb (suc timeout) (quotient timeout 1) ≡ false = ground (arith, few) in
    (
      record {
        queues = replicate (suc timeout) [] ∷ [];
        ticks = 0;
        interval = 1;
        per_queue = suc timeout;
      },
      rw (queue_num_enough 63 (quotient timeout 1) (suc timeout) 1 (suc timeout) enough) refl,
      record {
        queue = replicate (suc timeout) [];
        queues_eq = refl;
        buckets = length-replicate (suc timeout) [];
        some_bucket = omega arith;
        seconds = refl;
        tasks = replicate-AllTasks (suc timeout);
      },
    )

-- Twice as many ticks at least, and half of the doublings that are left.
half_fuel : (t n f max_ticks : ℕ) → 1 < n → max_ticks < t * 2 ^ suc f → max_ticks < t * n * 2 ^ f
half_fuel t n f max_ticks hn h =
    let twice : t * 2 ^ suc f ≡ t * 2 * 2 ^ f =
      ap (λ p. t * p) (pow-succ' 2 f) ∙ sym (mul_assoc t 2 (2 ^ f)) in
    let more : t * 2 * 2 ^ f ≤ t * n * 2 ^ f =
      mul-le-mul_right (2 ^ f) (mul-le-mul_left t (omega (arith, hn))) in
    omega (arith, h, twice, more)

queue_num_more :
    (fuel max_ticks n num ticks_num : ℕ)
    → ltb ticks_num max_ticks ≡ true
    → ticks_num * n < 2 ^ 64
    → queue_num (suc fuel) max_ticks n num ticks_num
      ≡ queue_num fuel max_ticks n (suc num) (ticks_num * n)
unfolding queue_num
queue_num_more fuel max_ticks n num ticks_num more small =
    rw more (ap (queue_num fuel max_ticks n (suc num)) (mod-eq_of_lt small))

-- The least number of queues, from `num` on, that have room for the ticks.
record Least (fuel max_ticks n num ticks_num : ℕ) : Type 0 where
  count : ℕ
  found : queue_num (suc fuel) max_ticks n num ticks_num ≡ some count
  enough : max_ticks ≤ n ^ count
  least : (j : ℕ) → num ≤ j → j < count → n ^ j < max_ticks

stopped-Least :
    (fuel max_ticks n num ticks_num : ℕ)
    → ticks_num ≡ n ^ num
    → ltb ticks_num max_ticks ≡ false
    → Least fuel max_ticks n num ticks_num
stopped-Least fuel max_ticks n num ticks_num ht stop = record {
  count = num;
  found = queue_num_enough fuel max_ticks n num ticks_num stop;
  enough = rw (← ht) (ground (arith, stop));
  least = λ j lo hi. absurd (omega (arith, lo, hi));
}

-- The constructor's loop ends, as long as its products do not wrap.
queue_num-Least :
    (fuel max_ticks n num ticks_num : ℕ)
    → 1 < n
    → max_ticks * n < 2 ^ 64
    → ticks_num ≡ n ^ num
    → max_ticks < ticks_num * 2 ^ fuel
    → Least fuel max_ticks n num ticks_num
queue_num-Least zero max_ticks n num ticks_num hn hm ht h =
    stopped-Least zero max_ticks n num ticks_num ht (ground (arith, h))
queue_num-Least (suc f) max_ticks n num ticks_num hn hm ht h =
    let rest = queue_num-Least f max_ticks n (suc num) (ticks_num * n) hn hm in
    elim (Bool-cases (ltb ticks_num max_ticks)) [
      | inr stop ↦ stopped-Least (suc f) max_ticks n num ticks_num ht stop
      | inl more ↦
          let less : ticks_num < max_ticks = ground (arith, more) in
          let small : ticks_num * n < 2 ^ 64 =
            lt_trans (mul-lt-mul_of_pos_right less (omega (arith, hn))) hm in
          let power : ticks_num * n ≡ n ^ suc num = ap (λ t. t * n) ht ∙ sym (pow-suc n num) in
          let l = rest power (half_fuel ticks_num n f max_ticks hn h) in
          record {
            count = l.count;
            found = queue_num_more (suc f) max_ticks n num ticks_num more small ∙ l.found;
            enough = l.enough;
            least = λ j lo hi. elim (Bool-cases (num == j)) [
              | inl same ↦ let e : j ≡ num = ground arith in rw (e, ← ht) less
              | inr other ↦ l.least j (ground (arith, lo, other)) hi
            ];
          }
    ]

-- How many queues the constructor makes, for a number of ticks.
made_queues :
    (quotient : ℕ → ℕ → ℕ) (max_timeout interval per_queue max_ticks : ℕ)
    → quotient max_timeout interval ≡ max_ticks
    → 1 < per_queue
    → max_ticks * per_queue < 2 ^ 64
    → (w : TimingWheel) × (new_timing_wheel quotient max_timeout interval per_queue ≡ some w)
      × (max_ticks ≤ per_queue ^ length w.queues)
      × ((j : ℕ) → 1 ≤ j → j < length w.queues → per_queue ^ j < max_ticks)
unfolding new_timing_wheel
made_queues quotient max_timeout interval per_queue max_ticks exact hn hm =
    let one_factor : per_queue ≡ per_queue ^ 1 =
      sym (pow-suc per_queue 0 ∙ ap (λ p. p * per_queue) (pow-zero per_queue) ∙ omega arith) in
    let twice : max_ticks * 2 ≤ max_ticks * per_queue =
      mul-le-mul_left max_ticks (omega (arith, hn)) in
    let few : max_ticks < per_queue * 2 ^ 63 = omega (arith, twice, hm, hn) in
    let l = queue_num-Least 63 max_ticks per_queue 1 per_queue hn hm one_factor few in
    let w : TimingWheel = record {
      queues = replicate l.count (replicate per_queue []);
      ticks = 0;
      interval = interval;
      per_queue = per_queue;
    } in
    let long : length w.queues ≡ l.count = length-replicate l.count (replicate per_queue []) in
    let found : queue_num 64 (quotient max_timeout interval) per_queue 1 per_queue ≡ some l.count =
      ap (λ t. queue_num 64 t per_queue 1 per_queue) exact ∙ l.found in
    (w, rw found refl, rw long l.enough, rw long l.least)

-- The constructor returns, if no product of its loop wraps, and makes the least number of queues of
-- `per_queue` buckets that have room for all the ticks of a timeout up to 2^24. The truncated
-- quotient of two `float` numbers is exact up to there, as they have 24 bits.
pub new_timing_wheel_lem :
    (quotient : ℕ → ℕ → ℕ) (max_timeout interval per_queue : ℕ)
    → ((a b : ℕ) → a ≤ 2 ^ 24 → 0 < b → b ≤ 2 ^ 24 → quotient a b ≡ a / b)
    → max_timeout ≤ 2 ^ 24
    → 0 < interval
    → interval ≤ 2 ^ 24
    → 1 < per_queue
    → max_timeout / interval * per_queue < 2 ^ 64
    → (w : TimingWheel) × (new_timing_wheel quotient max_timeout interval per_queue ≡ some w)
      × (max_timeout / interval ≤ per_queue ^ length w.queues)
      × ((j : ℕ) → 1 ≤ j → j < length w.queues → per_queue ^ j < max_timeout / interval)
new_timing_wheel_lem quotient max_timeout interval per_queue exact short some_interval few hn hm =
    made_queues quotient max_timeout interval per_queue (max_timeout / interval)
      (exact max_timeout interval short some_interval few) hn hm
