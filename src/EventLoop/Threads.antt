-- ===== src/EventLoop/Threads.antt =====
-- One loop in each thread: the constructor, `moveToCurrentThread` and the destructor of `EventLoop`
-- (netpoll/net/eventloop.cc). Threads and loops are numbers.
use netpoll_cpp.Base.{
  Bool, Bool-cases, Option, Option-cases, ap, arith, false, if◌then◌else◌, inl, inr, none, set_at,
  some, true, ℕ, ◌==◌, ◌≡◌, ◌≢◌,
}

-- `t_loopInThisThread` of each thread; of each loop `m_tid`, the thread whose variable
-- `m_threadLocalLoopPtr` points to, and whether it exists.
pub record Threads : Type 0 where
  pub loop_in : ℕ → Option ℕ
  pub tid : ℕ → ℕ
  pub local_ptr : ℕ → ℕ
  pub alive : ℕ → Bool

unfoldable pub no_loops : Threads
no_loops = record { loop_in = λ t. none; tid = λ l. 0; local_ptr = λ l. 0; alive = λ l. false }

abbrev pub is_none : Option ℕ → Bool
is_none none = true
is_none (some l) = false

-- What the constructor and the move leave when they return.
abbrev pub constructed : (t l : ℕ) → Threads → Threads
constructed t l s = record {
  loop_in = set_at t (some l) s.loop_in;
  tid = set_at l t s.tid;
  local_ptr = set_at l t s.local_ptr;
  alive = set_at l true s.alive;
}

abbrev pub moved_to : (t l : ℕ) → Threads → Threads
moved_to t l s = record s {
  loop_in = set_at t (some l) (set_at (s.local_ptr l) none s.loop_in);
  tid = set_at l t s.tid;
  local_ptr = set_at l t s.local_ptr;
}

-- The constructor in the thread `t`, which aborts when there is a loop: `none`.
unfoldable pub construct : (t l : ℕ) → Threads → Option Threads
construct t l s = if is_none (s.loop_in t) then some (constructed t l s) else none

-- `moveToCurrentThread`, called in the thread `t`; `exit` is `none`.
unfoldable pub move_to : (is_running : Bool) → (t l : ℕ) → Threads → Option Threads
move_to is_running t l s =
    if is_running
    then none
    else (if s.tid l == t
        then some s
        else (if is_none (s.loop_in t) then some (moved_to t l s) else none))

-- The destructor in the thread `t`, which clears the variable of that thread.
unfoldable pub destruct : (t l : ℕ) → Threads → Threads
destruct t l s = record s { loop_in = set_at t none s.loop_in; alive = set_at l false s.alive }

-- The loop of a thread is one that exists, and knows that it is in the thread; and each such loop is the
-- one of its thread.
pub record IsSingle (s : Threads) : Type 0 where
  pub in_thread :
      (t l : ℕ) → s.loop_in t ≡ some l → (s.alive l ≡ true) × (s.tid l ≡ t) × (s.local_ptr l ≡ t)
  pub of_loop : (l : ℕ) → s.alive l ≡ true → s.loop_in (s.tid l) ≡ some l

-- What the program does, each destructor in the thread of its loop.
pub data Step (s : Threads) : Threads → Type 0 where
  constructs : (t l : ℕ) (u : Threads) → s.alive l ≡ false → construct t l s ≡ some u → Step s u
  moves :
      (is_running : Bool) (t l : ℕ) (u : Threads)
      → s.alive l ≡ true
      → move_to is_running t l s ≡ some u
      → Step s u
  destructs : (l : ℕ) → s.alive l ≡ true → Step s (destruct (s.tid l) l s)

constructed-IsSingle :
    (t l : ℕ) (s : Threads)
    → s.alive l ≡ false
    → s.loop_in t ≡ none
    → IsSingle s
    → IsSingle (constructed t l s)
constructed-IsSingle t l s a free h = record {
  in_thread = λ v k e. ground (arith, h.in_thread v k, a, free, e);
  of_loop = λ k e. ground (arith, h.of_loop k, a, free, e);
}

moved_to-IsSingle :
    (t l : ℕ) (s : Threads)
    → s.alive l ≡ true
    → s.loop_in t ≡ none
    → IsSingle s
    → IsSingle (moved_to t l s)
moved_to-IsSingle t l s a free h =
    let own_thread = h.in_thread (s.tid l) l (h.of_loop l a) in
    record {
      in_thread = λ v k e. ground (arith, h.in_thread v k, own_thread, h.of_loop l a, a, e);
      of_loop = λ k e.
          ground (arith, h.of_loop k, h.in_thread (s.tid k) k, own_thread, h.of_loop l a, free, e);
    }

construct-IsSingle :
    (t l : ℕ) (s u : Threads)
    → s.alive l ≡ false
    → construct t l s ≡ some u
    → IsSingle s
    → IsSingle u
unfolding construct
construct-IsSingle t l s u a e h = elim (Option-cases (s.loop_in t)) [
  | inr (k, has_loop) ↦ absurd (aborts (ap is_none has_loop) e)
  | inl free ↦ rw (returned (ap is_none free) e) at (constructed-IsSingle t l s a free h)
]
  where
    aborts : is_none (s.loop_in t) ≡ false → construct t l s ≡ some u → ⊥
    aborts f g = cc (rw (f, construct) at g)

    returned : is_none (s.loop_in t) ≡ true → construct t l s ≡ some u → constructed t l s ≡ u
    returned f g = cc (rw (f, construct) at g)

destruct-IsSingle :
    (l : ℕ) (s : Threads) → s.alive l ≡ true → IsSingle s → IsSingle (destruct (s.tid l) l s)
unfolding destruct
destruct-IsSingle l s a h = record {
  in_thread = λ t k e. ground (arith, h.in_thread t k, h.of_loop l a, e);
  of_loop = λ k e. ground (arith, h.of_loop k, h.of_loop l a, e);
}

move_to-IsSingle :
    (is_running : Bool) (t l : ℕ) (s u : Threads)
    → s.alive l ≡ true
    → move_to is_running t l s ≡ some u
    → IsSingle s
    → IsSingle u
unfolding move_to
move_to-IsSingle true t l s u a e h = cc
move_to-IsSingle false t l s u a e h = elim (Bool-cases (s.tid l == t)) [
  | inl same ↦ rw (stays same e) at h
  | inr other ↦ elim (Option-cases (s.loop_in t)) [
    | inr (k, has_loop) ↦ absurd (exits other (ap is_none has_loop) e)
    | inl free ↦ rw (returned other (ap is_none free) e) at (moved_to-IsSingle t l s a free h)
  ]
]
  where
    stays : (s.tid l == t) ≡ true → move_to false t l s ≡ some u → s ≡ u
    stays f g = cc (rw (f, move_to) at g)

    exits :
        (s.tid l == t) ≡ false → is_none (s.loop_in t) ≡ false → move_to false t l s ≡ some u → ⊥
    exits f f2 g = cc (rw (f2, move_to) at (rw (f, move_to) at g))

    returned :
        (s.tid l == t) ≡ false
        → is_none (s.loop_in t) ≡ true
        → move_to false t l s ≡ some u
        → moved_to t l s ≡ u
    returned f f2 g = cc (rw (f2, move_to) at (rw (f, move_to) at g))

pub data Reach : Threads → Type 0 where
  begin : Reach no_loops
  next : {s u : Threads} → Reach s → Step s u → Reach u

pub Reach-IsSingle : {s : Threads} → Reach s → IsSingle s
unfolding no_loops
Reach-IsSingle begin = record { in_thread = λ t l e. cc; of_loop = λ l e. cc }
Reach-IsSingle (next {s = s} r (constructs t l u a e)) =
    construct-IsSingle t l s u a e (Reach-IsSingle r)
Reach-IsSingle (next {s = s} r (moves b t l u a e)) =
    move_to-IsSingle b t l s u a e (Reach-IsSingle r)
Reach-IsSingle (next {s = s} r (destructs l a)) = destruct-IsSingle l s a (Reach-IsSingle r)

-- As long as loops are destroyed in their own threads, `isInLoopThread` of two loops that exist is
-- never true in the same thread.
pub one_loop_in_a_thread :
    {s : Threads} (k l : ℕ)
    → Reach s
    → s.alive k ≡ true
    → s.alive l ≡ true
    → s.tid k ≡ s.tid l
    → k ≡ l
one_loop_in_a_thread {s} k l r a b e =
    let h = Reach-IsSingle r in cc (h.of_loop k a, h.of_loop l b, ap s.loop_in e)

-- A loop that another thread destroys is left as the loop of its own thread, and the other thread
-- loses the pointer to its own.
pub destruct_elsewhere :
    {s : Threads} (t l : ℕ)
    → Reach s
    → s.alive l ≡ true
    → s.tid l ≢ t
    → ((destruct t l s).loop_in (s.tid l) ≡ some l)
      × ((destruct t l s).alive l ≡ false)
      × ((destruct t l s).loop_in t ≡ none)
unfolding destruct
destruct_elsewhere {s} t l r a other =
    let o = (Reach-IsSingle r).of_loop l a in (ground (arith, o, other), ground arith, ground arith)
