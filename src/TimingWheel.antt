-- ===== src/TimingWheel.antt =====
-- The timing wheel of netpoll/net/inner/timing_wheel.cc. The interval of its ticks is a whole number
-- of seconds, as it is wherever the library makes one.
pub mod Single
pub mod Idle
pub mod Queues
pub mod Kickoff
mod Tests
use netpoll_cpp.Base.{
  List, Option, [], if◌then◌else◌, leb, length, ltb, none, replicate, some, suc, zero, ℕ, ◌%◌, ◌*◌,
  ◌++◌, ◌+◌, ◌-◌, ◌/◌, ◌==◌, ◌>>=◌, ◌^◌, ◌∷◌,
}

-- What a bucket holds: a pointer that was given to `insertEntry`, which is named by a number, or the
-- `CallbackEntry` that puts an entry into queue `i` when it is destroyed.
pub data Entry : Type 0 where
  task : ℕ → Entry
  later : (delay i t : ℕ) → Entry → Entry

-- `m_taskQueues`, `m_ticksCounter`, `m_ticksInterval` and `m_bucketsNumPerQueue`. A bucket is a set in
-- the source; that an entry may be in its list twice makes no difference to what it holds.
pub record TimingWheel : Type 0 where
  pub queues : List (List (List Entry))
  pub ticks : ℕ
  pub interval : ℕ
  pub per_queue : ℕ

-- How many queues: the constructor's loop, on fuel. `size_t` products are modulo 2^64.
unfoldable pub queue_num : ℕ → ℕ → ℕ → ℕ → ℕ → Option ℕ
queue_num zero max_ticks per_queue num ticks_num = none
queue_num (suc fuel) max_ticks per_queue num ticks_num =
    let rest = queue_num fuel max_ticks per_queue (suc num) (ticks_num * per_queue % 2 ^ 64) in
    if ltb ticks_num max_ticks then rest else some num

-- `quotient` is `static_cast<size_t>(maxTimeout / ticksInterval)`, a division of `float` numbers.
unfoldable pub new_timing_wheel : (quotient : ℕ → ℕ → ℕ) → ℕ → ℕ → ℕ → Option TimingWheel
unfolding queue_num
new_timing_wheel quotient max_timeout interval per_queue = do
  num ← queue_num 64 (quotient max_timeout interval) per_queue 1 per_queue
  some (record {
    queues = replicate num (replicate per_queue []);
    ticks = 0;
    interval = interval;
    per_queue = per_queue;
  })

-- `m_taskQueues[i][j].insert(entry)`; a queue or bucket that is not there, none.
unfoldable pub put_bucket : ℕ → Entry → List (List Entry) → List (List Entry)
put_bucket j e [] = []
put_bucket zero e (b ∷ bs) = (e ∷ b) ∷ bs
put_bucket (suc j) e (b ∷ bs) = b ∷ put_bucket j e bs

unfoldable pub put : ℕ → ℕ → Entry → List (List (List Entry)) → List (List (List Entry))
unfolding put_bucket
put i j e [] = []
put zero j e (q ∷ qs) = put_bucket j e q ∷ qs
put (suc i) j e (q ∷ qs) = q ∷ put i j e qs

-- The destruction of a bucket's entries.
unfoldable pub release : ℕ → List Entry → List (List (List Entry)) → List (List (List Entry))
unfolding put
release n [] qs = qs
release n (task x ∷ es) qs = release n es qs
release n (later delay i t e ∷ es) qs =
    release n es (if ltb 0 delay then put i ((delay + t % n) % n) e qs else qs)

-- The first bucket of queue `i`, and the queues with an empty one at the end of that queue instead.
unfoldable pub rotate_queue : List (List Entry) → List Entry × List (List Entry)
rotate_queue [] = ([], [] ∷ [])
rotate_queue (b ∷ bs) = (b, bs ++ ([] ∷ []))

unfoldable pub rotate : ℕ → List (List (List Entry)) → List Entry × List (List (List Entry))
unfolding rotate_queue
rotate i [] = ([], [])
rotate zero (q ∷ qs) = let r = rotate_queue q in (r.0, r.1 ∷ qs)
rotate (suc i) (q ∷ qs) = let r = rotate i qs in (r.0, q ∷ r.1)

-- The timer's callback, for the `k` queues from queue `i` on.
unfoldable pub turn : (k n t i pow : ℕ) → List (List (List Entry)) → List (List (List Entry))
unfolding rotate release
turn zero n t i pow qs = qs
turn (suc k) n t i pow qs =
    let r = rotate i qs in
    turn k n t (suc i) (pow * n) (if t % pow == 0 then release n r.0 r.1 else qs)

unfoldable pub tick : TimingWheel → TimingWheel
unfolding turn
tick w = record w {
  ticks = suc w.ticks;
  queues = turn (length w.queues) w.per_queue (suc w.ticks) 0 1 w.queues;
}

-- The loop of `insertEntryInLoop`, for the `k` queues from queue `i` on.
unfoldable pub place :
    (k n i delay t : ℕ) → Entry → List (List (List Entry)) → List (List (List Entry))
unfolding put
place zero n i delay t e qs = qs
place (suc k) n i delay t e qs =
    let next = place k n (suc i) ((delay + t % n - 1) / n) (t / n) in
    if leb delay n
    then put i (delay - 1) e qs
    else elim k [ zero ↦ put i (n - 1) e qs | suc _ ↦ next (later delay i t e) qs ]

unfoldable pub insert_entry_in_loop : ℕ → Entry → TimingWheel → TimingWheel
unfolding place
insert_entry_in_loop delay e w =
    let d = delay / w.interval + (if delay % w.interval == 0 then 0 else 1) in
    record w { queues = place (length w.queues) w.per_queue 0 d w.ticks e w.queues }

-- In the loop's thread, for a pointer that is not null.
unfoldable pub insert_entry : ℕ → Entry → TimingWheel → TimingWheel
unfolding insert_entry_in_loop
insert_entry delay e w = if delay == 0 then w else insert_entry_in_loop delay e w
