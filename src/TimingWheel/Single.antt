-- ===== src/TimingWheel/Single.antt =====
-- A wheel of one queue, as TcpServer makes it for idle timeouts below 500 seconds.

use netpoll_cpp.Base.{
  Bool, Bool-cases, List, [], ap, arith, false, if◌then◌else◌, inl, inr, leb, length, length-append,
  ltb, max, refl, suc, true, zero, ℕ, ◌%◌, ◌++◌, ◌+◌, ◌-◌, ◌/◌, ◌<◌, ◌==◌, ◌||◌, ◌∷◌, ◌≡◌,
}
use netpoll_cpp.TimingWheel.{
  Entry, TimingWheel, insert_entry, insert_entry_in_loop, later, place, put, put_bucket, release,
  rotate, rotate_queue, task, tick, turn,
}

unfoldable pub names : Entry → ℕ
names (task x) = x
names (later delay i t e) = names e

-- Whether a bucket keeps the pointer `x` alive.
unfoldable pub has : ℕ → List Entry → Bool
has x [] = false
has x (e ∷ es) = names e == x || has x es

-- How many ticks until no bucket of the queue keeps the pointer alive.
unfoldable pub due : ℕ → List (List Entry) → ℕ
unfolding has names
due x [] = 0
due x (b ∷ bs) = let rest = due x bs in if ltb 0 rest then suc rest else if has x b then 1 else 0

due-append_empty : (x : ℕ) (bs : List (List Entry)) → due x (bs ++ ([] ∷ [])) ≡ due x bs
unfolding due has
due-append_empty x [] = refl
due-append_empty x (b ∷ bs) = rw (due-append_empty x bs) refl

pub due-rotate_queue : (x : ℕ) (q : List (List Entry)) → due x (rotate_queue q).1 ≡ due x q - 1
unfolding due rotate_queue has
due-rotate_queue x [] = refl
due-rotate_queue x (b ∷ bs) = ground (arith, due-append_empty x bs)

pub due-put_bucket :
    (x j : ℕ) (e : Entry) (q : List (List Entry))
    → j < length q
    → due x (put_bucket j e q) ≡ (if names e == x then max (suc j) (due x q) else due x q)
unfolding due put_bucket has
due-put_bucket x j e [] h = ground arith
due-put_bucket x zero e (b ∷ bs) h = ground arith
due-put_bucket x (suc j) e (b ∷ bs) h = ground (arith, due-put_bucket x j e bs)

pub length-put_bucket :
    (j : ℕ) (e : Entry) (q : List (List Entry)) → length (put_bucket j e q) ≡ length q
unfolding put_bucket
length-put_bucket j e [] = refl
length-put_bucket zero e (b ∷ bs) = refl
length-put_bucket (suc j) e (b ∷ bs) = ap suc (length-put_bucket j e bs)

pub length-rotate_queue :
    (q : List (List Entry)) → 0 < length q → length (rotate_queue q).1 ≡ length q
unfolding rotate_queue
length-rotate_queue [] h = ground (arith, h)
length-rotate_queue (b ∷ bs) h = ground (arith, length-append bs ([] ∷ []))

-- Only pointers that `insertEntry` was given.
abbrev OnlyTasks : List Entry → Type 0
OnlyTasks [] = Unit {0}
OnlyTasks (task x ∷ es) = OnlyTasks es
OnlyTasks (later delay i t e ∷ es) = ⊥

abbrev pub AllTasks : List (List Entry) → Type 0
AllTasks [] = Unit {0}
AllTasks (b ∷ bs) = OnlyTasks b × AllTasks bs

release_lem :
    (n : ℕ) (b : List Entry) (qs : List (List (List Entry))) → OnlyTasks b → release n b qs ≡ qs
unfolding release
release_lem n [] qs h = refl
release_lem n (task x ∷ es) qs h = release_lem n es qs h
release_lem n (later delay i t e ∷ es) qs h = absurd h

pub put_bucket-AllTasks :
    (j x : ℕ) (q : List (List Entry)) → AllTasks q → AllTasks (put_bucket j (task x) q)
unfolding put_bucket
put_bucket-AllTasks j x [] h = h
put_bucket-AllTasks zero x (b ∷ bs) h = h
put_bucket-AllTasks (suc j) x (b ∷ bs) h = (h.0, put_bucket-AllTasks j x bs h.1)

pub append_empty-AllTasks : (q : List (List Entry)) → AllTasks q → AllTasks (q ++ ([] ∷ []))
append_empty-AllTasks [] h = (tt, tt)
append_empty-AllTasks (b ∷ bs) h = (h.0, append_empty-AllTasks bs h.1)

pub rotate_queue-AllTasks : (q : List (List Entry)) → AllTasks q → AllTasks (rotate_queue q).1
unfolding rotate_queue
rotate_queue-AllTasks [] h = (tt, tt)
rotate_queue-AllTasks (b ∷ bs) h = append_empty-AllTasks bs h.1

-- One queue with as many buckets as the wheel says, and ticks of one second.
pub record IsSingle (w : TimingWheel) : Type 0 where
  pub queue : List (List Entry)
  pub queues_eq : w.queues ≡ queue ∷ []
  pub buckets : length queue ≡ w.per_queue
  pub some_bucket : 0 < w.per_queue
  pub seconds : w.interval ≡ 1
  pub tasks : AllTasks queue

-- How many ticks until the pointer is dropped.
abbrev pub remaining : TimingWheel → ℕ → ℕ
remaining w x = elim w.queues [ [] ↦ 0 | q ∷ _ ↦ due x q ]

pub turn_one :
    (n t : ℕ) (q : List (List Entry))
    → AllTasks q
    → turn 1 n t 0 1 (q ∷ []) ≡ (rotate_queue q).1 ∷ []
unfolding turn rotate release rotate_queue
turn_one n t [] h = let always : (t % 1 == 0) ≡ true = ground arith in rw always refl
turn_one n t (b ∷ bs) h =
    let always : (t % 1 == 0) ≡ true = ground arith in rw always (release_lem n b _ h.0)

-- The queue that a tick leaves.
pub tick_queues :
    (w : TimingWheel) (s : IsSingle w) → (tick w).queues ≡ (rotate_queue s.queue).1 ∷ []
unfolding tick
tick_queues w s = rw s.queues_eq (turn_one w.per_queue (suc w.ticks) s.queue s.tasks)

-- The bucket that an insertion goes to.
abbrev pub bucket_of : ℕ → ℕ → ℕ
bucket_of delay n = if leb delay n then delay - 1 else n - 1

place_one :
    (n d t : ℕ) (e : Entry) (q : List (List Entry))
    → place 1 n 0 d t e (q ∷ []) ≡ put_bucket (bucket_of d n) e q ∷ []
unfolding place put
place_one n d t e q = elim (Bool-cases (leb d n)) [
  | inl near ↦ rw near refl
  | inr far ↦ rw far refl
]

rounded_up : (k delay : ℕ) → k ≡ 1 → delay / k + (if delay % k == 0 then 0 else 1) ≡ delay
rounded_up k delay h = rw h (ground arith)

pub insert_queues :
    (w : TimingWheel) (s : IsSingle w) (delay x : ℕ)
    → 0 < delay
    → (insert_entry delay (task x) w).queues
      ≡ put_bucket (bucket_of delay w.per_queue) (task x) s.queue ∷ []
unfolding insert_entry insert_entry_in_loop
insert_queues w s delay x h =
    let some_delay : (delay == 0) ≡ false = ground arith in
    rw (some_delay, rounded_up w.interval delay s.seconds, s.queues_eq)
      (place_one w.per_queue delay w.ticks (task x) s.queue)
