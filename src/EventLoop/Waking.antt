-- ===== src/EventLoop/Waking.antt =====
-- No wakeup is lost: `queueInLoop` and `quit` against the sleeping loop.
use netpoll_cpp.Base.{
  Bool, Bool-cases, List, Option, [], ap, append-nil, arith, false, inl, inr, none, refl, set_at,
  some, suc, sym, true, ℕ, ◌++◌, ◌<◌, ◌==◌, ◌∙◌, ◌∷◌, ◌≡◌, ◌≢◌, ◌⊎◌,
}
use netpoll_cpp.EventLoop.{
  EventLoop, Phase, Reach, Step, finds_empty, handled, handling, is_calling, is_polling, later,
  links, links_own, polling, quits, quits_own, reads, returns, running, runs_func, start, stopped,
  swaps, swaps_own, testing, tests_quit, wakes, wakes_to_quit,
}
use netpoll_cpp.MpscQueue.{dequeue, is_empty, new_queue, swap_head}
use netpoll_cpp.MpscQueue.Chain.{Blocked, Takes, dequeue_cases, items}
use netpoll_cpp.MpscQueue.Runs.{
  IsFifo, linked, linked-IsFifo, swapped, swapped-IsFifo, took, took-IsFifo,
}

-- Someone will make `poll` return: the event descriptor is readable, or a thread is within
-- `queueInLoop` or `quit`.
abbrev Alert : EventLoop → Type 0
Alert l = (0 < l.wakeups) ⊎ ((n : ℕ) × (l.funcs.linking n ≢ none)) ⊎ ((n : ℕ) × (l.waking n ≡ true))

-- It is so if there are nodes to be taken.
abbrev Due : List (ℕ × ℕ) → Type 0 → Type 0
Due [] alert = Unit {0}
Due (n ∷ ns) alert = alert

abbrev is_asleep : Phase → Bool
is_asleep testing = true
is_asleep polling = true
is_asleep _ = false

record IsAwake (l : EventLoop) : Type 0 where
  fifo : IsFifo l.funcs
  own_calls : is_calling l.phase ≡ false → l.own ≡ none
  due : is_asleep l.phase ≡ true → Due fifo.nodes (Alert l)
  quit_due : is_polling l.phase ≡ true → l.quit ≡ true → (0 < l.wakeups) ⊎ (0 < l.quitting)

Due_of : (ns : List (ℕ × ℕ)) (l : EventLoop) → Alert l → Due ns (Alert l)
Due_of [] l a = tt
Due_of (n ∷ ns) l a = a

asleep_of_calling : (p : Phase) → is_calling p ≡ true → is_asleep p ≡ true → ⊥
asleep_of_calling testing c a = cc
asleep_of_calling polling c a = cc
asleep_of_calling handling c a = cc
asleep_of_calling running c a = cc
asleep_of_calling stopped c a = cc

polling_of_calling : (p : Phase) → is_calling p ≡ true → is_polling p ≡ true → ⊥
polling_of_calling testing c a = cc
polling_of_calling polling c a = cc
polling_of_calling handling c a = cc
polling_of_calling running c a = cc
polling_of_calling stopped c a = cc

-- A step in a phase in which the loop's thread makes calls.
calling-IsAwake : (l : EventLoop) → IsFifo l.funcs → is_calling l.phase ≡ true → IsAwake l
calling-IsAwake l f c = record {
  fifo = f;
  own_calls = λ e. cc;
  due = λ e. absurd (asleep_of_calling l.phase c e);
  quit_due = λ e q. absurd (polling_of_calling l.phase c e);
}

-- A step of another thread that leaves the loop alert.
alert-IsAwake :
    (l : EventLoop)
    → IsFifo l.funcs
    → (is_calling l.phase ≡ false → l.own ≡ none)
    → Alert l
    → (is_polling l.phase ≡ true → l.quit ≡ true → (0 < l.wakeups) ⊎ (0 < l.quitting))
    → IsAwake l
alert-IsAwake l f o a q = record {
  fifo = f;
  own_calls = o;
  due = λ e. Due_of f.nodes l a;
  quit_due = q;
}

calling_of_own : (l : EventLoop) (n : ℕ) → IsAwake l → l.own ≡ some n → is_calling l.phase ≡ true
calling_of_own l n h o = elim (Bool-cases (is_calling l.phase)) [
  | inl c ↦ c
  | inr c ↦ let e = h.own_calls c in let x : none ≡ some n = sym e ∙ o in cc
]

-- When the loop finds its queue empty, it sleeps only over a node that a thread is still to link.
finds_empty-IsAwake :
    (l : EventLoop)
    → IsAwake l
    → l.own ≡ none
    → is_empty l.funcs.queue ≡ true
    → IsAwake (record l { phase = testing })
finds_empty-IsAwake l h o e = record {
  fifo = h.fifo;
  own_calls = λ c. o;
  due = λ a.
      found h.fifo.nodes
        (dequeue_cases l.funcs.queue l.funcs.linking h.fifo.nodes h.fifo.chain h.fifo.last);
  quit_due = λ p q. cc;
}
  where
    blocked : (ns : List (ℕ × ℕ)) → Blocked l.funcs.linking ns → Due ns (Alert l)
    blocked [] b = tt
    blocked ((n, v) ∷ ns) b = inr (inl (n, b))

    found :
        (ns : List (ℕ × ℕ))
        → ((dequeue l.funcs.queue ≡ some (none, l.funcs.queue))
            × (is_empty l.funcs.queue ≡ true)
            × Blocked l.funcs.linking ns)
          ⊎ Takes l.funcs.queue l.funcs.linking ns
        → Due ns (Alert l)
    found ns (inl t) = blocked ns t.2
    found ns (inr t) = absurd (let x = t.not_empty in cc)

set_at_self : (n p : ℕ) (f : ℕ → Option ℕ) → set_at n (some p) f n ≢ none
set_at_self n p f e = let same : (n == n) ≡ true = ground arith in let x = rw same at e in cc

Step-IsAwake : {l m : EventLoop} → Step l m → IsAwake l → IsAwake m
Step-IsAwake {l = l} (swaps f) h =
    alert-IsAwake (record l { funcs = swapped f l.funcs }) (swapped-IsFifo f l.funcs h.fifo)
      h.own_calls
      (inr (
        inl (
          l.funcs.queue.fresh,
          set_at_self l.funcs.queue.fresh (swap_head f l.funcs.queue).0 l.funcs.linking,
        )))
      h.quit_due
Step-IsAwake {l = l} (links n p e o) h =
    let nn : (n == n) ≡ true = ground arith in
    alert-IsAwake (record l { funcs = linked n p l.funcs; waking = set_at n true l.waking })
      (linked-IsFifo n p l.funcs e h.fifo) h.own_calls (inr (inr (n, rw nn refl))) h.quit_due
Step-IsAwake {l = l} (wakes n w) h =
    alert-IsAwake (record l { wakeups = suc l.wakeups; waking = set_at n false l.waking }) h.fifo
      h.own_calls (inl (omega arith)) (λ p q. inl (omega arith))
Step-IsAwake {l = l} (swaps_own f c o) h =
    calling-IsAwake (record l { funcs = swapped f l.funcs; own = some l.funcs.queue.fresh })
      (swapped-IsFifo f l.funcs h.fifo) c
Step-IsAwake {l = l} (links_own n p o e) h =
    calling-IsAwake (record l { funcs = linked n p l.funcs; own = none })
      (linked-IsFifo n p l.funcs e h.fifo) (calling_of_own l n h o)
Step-IsAwake {l = l} quits h = record {
  fifo = h.fifo;
  own_calls = h.own_calls;
  due = h.due;
  quit_due = λ p q. inr (omega arith);
}
Step-IsAwake {l = l} (wakes_to_quit k q) h =
    alert-IsAwake (record l { quitting = k; wakeups = suc l.wakeups }) h.fifo h.own_calls
      (inl (omega arith)) (λ p q. inl (omega arith))
Step-IsAwake {l = l} (quits_own c o) h = calling-IsAwake (record l { quit = true }) h.fifo c
Step-IsAwake {l = l} (tests_quit s) h = record {
  fifo = h.fifo;
  own_calls = λ c. h.own_calls (ap is_calling s);
  due = λ a. h.due (ap is_asleep s);
  quit_due = λ p q. absurd (let stops : is_polling stopped ≡ true = rw q at p in cc);
}
Step-IsAwake {l = l} (returns s) h = calling-IsAwake (record l { phase = handling }) h.fifo refl
Step-IsAwake {l = l} (reads s o) h =
    calling-IsAwake (record l { wakeups = 0 }) h.fifo (ap is_calling s)
Step-IsAwake {l = l} (handled s o) h = calling-IsAwake (record l { phase = running }) h.fifo refl
Step-IsAwake {l = l} (runs_func f q s o e) h =
    calling-IsAwake (record l { funcs = took f q l.funcs }) (took-IsFifo f q l.funcs e h.fifo)
      (ap is_calling s)
Step-IsAwake {l = l} (finds_empty s o e) h = finds_empty-IsAwake l h o e

Reach-IsAwake : {l : EventLoop} → Reach l → IsAwake l
unfolding new_queue
Reach-IsAwake start = record {
  fifo = record {
    nodes = [];
    chain = refl;
    in_order = refl;
    all_in = λ n p e. cc;
    allocated = omega arith;
    last = refl;
  };
  own_calls = λ c. refl;
  due = λ a. tt;
  quit_due = λ p q. cc;
}
Reach-IsAwake (later r t) = Step-IsAwake t (Reach-IsAwake r)

-- No wakeup is lost: if the loop waits in `poll`, the event descriptor is not readable, and no thread
-- is within `queueInLoop`, then every functor that was ever queued has run, in the order in which they
-- were queued.
pub sleeps_with_none_queued :
    {l : EventLoop}
    → Reach l
    → l.phase ≡ polling
    → l.wakeups ≡ 0
    → ((n : ℕ) → l.funcs.linking n ≡ none)
    → ((n : ℕ) → l.waking n ≡ false)
    → l.funcs.taken ≡ l.funcs.queued
sleeps_with_none_queued {l} r s z quiet awake =
    let h = Reach-IsAwake r in
    let d = h.due (ap is_asleep s) in
    sym (
      h.fifo.in_order
      ∙ ap (λ ns. l.funcs.taken ++ items ns) (none_left h.fifo.nodes d)
      ∙ append-nil l.funcs.taken)
  where
    not_alert : Alert l → ⊥
    not_alert (inl up) = absurd (omega (arith, z))
    not_alert (inr (inl (n, x))) = x (quiet n)
    not_alert (inr (inr (n, x))) = let y : true ≡ false = sym x ∙ awake n in cc

    none_left : (ns : List (ℕ × ℕ)) → Due ns (Alert l) → ns ≡ []
    none_left [] d = refl
    none_left (n ∷ ns) d = absurd (not_alert d)

-- A loop that waits in `poll` once `quit` was called is about to be woken: the event descriptor is
-- readable, or a thread is still within `quit`.
pub quit_wakes :
    {l : EventLoop}
    → Reach l
    → l.phase ≡ polling
    → l.quit ≡ true
    → (0 < l.wakeups) ⊎ (0 < l.quitting)
quit_wakes r s q = (Reach-IsAwake r).quit_due (ap is_polling s) q
