-- ===== src/TaskQueue/Wakeups/Served.antt =====
-- No wakeup is lost between `runTask` and the workers.
use netpoll_cpp.Base.{
  Bool-cases, List, Option-cases, [], ap, arith, false, inl, inr, none, refl, some, suc, sym, true,
  zero, ℕ, ◌<◌, ◌==◌, ◌∙◌, ◌∷◌, ◌≡◌, ◌≢◌, ◌⊎◌,
}
use netpoll_cpp.TaskQueue.{
  ConcurrentTaskQueue, Place, Reach, at_top, dozing, ended, moves_to, is_free, locking, running,
  take_task, taking, testing, waiting, work,
}
use netpoll_cpp.TaskQueue.Wakeups.{Reach-IsAwake, able, asleep, has_mutex}

-- Among the workers one is awake, or all sleep.
find_awake :
    (n : ℕ) (f : ℕ → Place)
    → ((w : ℕ) × (w < n) × (asleep (f w) ≡ false)) ⊎ ((w : ℕ) → w < n → asleep (f w) ≡ true)
find_awake zero f = inr (λ w l. absurd (omega (arith, l)))
find_awake (suc n) f = elim (Bool-cases (asleep (f n))) [
  | inr up ↦ inl (n, omega arith, up)
  | inl down ↦ elim (find_awake n f) [
    | inl (w, l, up) ↦ inl (w, omega (arith, l), up)
    | inr all ↦ inr (λ w l. elim (Bool-cases (w == n)) [
      | inl same ↦ let e : w ≡ n = ground (arith, same) in rw e down
      | inr less ↦ all w (ground (arith, less, l))
    ])
  ]
]

-- A worker that is able to go on does.
able-work :
    {c : ConcurrentTaskQueue} (w : ℕ) (p : Place)
    → able (is_free c.mtx) p ≡ true
    → c.place w ≡ p
    → work w p c ≢ c
unfolding work take_task
able-work {c} w at_top a e same = ground (arith, ap (λ d. d.place w) same, e)
able-work {c} w locking a e same = elim (Option-cases c.mtx) [
  | inl free ↦ cc (ap (λ d. d.mtx) (sym (moved free) ∙ same), free)
  | inr (u, held) ↦ cc (a, ap is_free held)
]
  where
    moved : c.mtx ≡ none → work w locking c ≡ record (moves_to w testing c) { mtx = some w }
    moved free = let f : is_free c.mtx ≡ true = ap is_free free in rw (f, work) refl
able-work {c} w testing a e same = ground (arith, ap (λ d. d.place w) same, e)
able-work {c} w dozing a e same = ground (arith, ap (λ d. d.place w) same, e)
able-work {c} w waiting a e same = cc
able-work {c} w taking a e same = took c.que same
  where
    took : (ts : List ℕ) → take_task w ts c ≡ c → ⊥
    took [] s = ground (arith, ap (λ d. d.place w) s, e)
    took (t ∷ ts) s = ground (arith, ap (λ d. d.place w) s, e)
able-work {c} w ended a e same = cc
able-work {c} w (running t) a e same = ground (arith, ap (λ d. d.place w) same, e)

-- While tasks are queued and `stop` was not called, some worker can go on: no order of the threads'
-- steps leaves a task in the queue with all workers asleep.
pub queued_task_is_served :
    {n t : ℕ} {ts : List ℕ} {c : ConcurrentTaskQueue}
    → 0 < n
    → Reach n c
    → c.stop ≡ false
    → c.que ≡ t ∷ ts
    → (w : ℕ) × (w < c.thread_num) × (work w (c.place w) c ≢ c)
unfolding has_mutex asleep
queued_task_is_served {c = c} l r serving queued =
    let h = Reach-IsAwake l r in
    elim (find_awake c.thread_num c.place) [
      | inr all ↦ absurd (cc (h.awake all, queued))
      | inl (w, within, up) ↦ elim (Option-cases c.mtx) [
        | inl free ↦ (
          w,
          within,
          able-work w (c.place w) (ground (arith, free, up, h.serving serving w)) refl,
        )
        | inr (u, held) ↦ (
          u,
          (h.owned u held).0,
          able-work u (c.place u) (ground (arith, (h.owned u held).1)) refl,
        )
      ]
    ]
