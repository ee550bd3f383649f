-- ===== src/TaskQueue/Stopping/Joined.antt =====
-- What is still queued when `stop` returns is never run.
use netpoll_cpp.Base.{
  Bool-cases, List, [], arith, false, inl, inr, none, refl, some, suc, sym, true, zero, ℕ, ◌++◌,
  ◌<◌, ◌==◌, ◌∙◌, ◌∷◌, ◌≡◌,
}
use netpoll_cpp.TaskQueue.{
  ConcurrentTaskQueue, Later, Outside, Place, Reach, Step, Stopper, acts, after_act, after_step,
  all_ended, ended, is_ended, joined, joining, new_task_queue, notifying, run_task, runs_task,
  start, steps, still, stopping, stop_step, uncalled, waiting, wake, wakes, work, works,
}
use netpoll_cpp.TaskQueue.Stopping.{place-work, work-IsOwn}

-- `stop` has returned only when all workers have.
record IsJoined (c : ConcurrentTaskQueue) : Type 0 where
  before : c.stopper ≡ uncalled → c.stop ≡ false
  after : c.stopper ≡ joined → (w : ℕ) → w < c.thread_num → c.place w ≡ ended

ended_of : (p : Place) → is_ended p ≡ true → p ≡ ended
ended_of p h = ground (arith, h)

all_ended_at : (n w : ℕ) (f : ℕ → Place) → all_ended n f ≡ true → w < n → f w ≡ ended
all_ended_at zero w f h l = absurd (omega (arith, l))
all_ended_at (suc n) w f h l = elim (Bool-cases (w == n)) [
  | inl same ↦ let e : w ≡ n = ground (arith, same) in rw e (ended_of (f n) (ground (arith, h)))
  | inr other ↦ all_ended_at n w f (ground (arith, h)) (ground (arith, other, l))
]

stop_step-IsJoined :
    {c : ConcurrentTaskQueue} (s : Stopper) → IsJoined c → c.stopper ≡ s → IsJoined (stop_step s c)
unfolding stop_step
stop_step-IsJoined {c} uncalled h e = record {
  before = λ f. ground (arith, f, h.before e);
  after = λ f. absurd (ground (arith, f, h.before e));
}
stop_step-IsJoined {c} notifying h e = record { before = λ f. cc; after = λ f. cc }
stop_step-IsJoined {c} joining h e = record {
  before = λ f. absurd (ground (arith, f));
  after = λ f w l. all_ended_at c.thread_num w c.place (ground (arith, f)) l;
}
stop_step-IsJoined {c} joined h e = h

Step-IsJoined : {c d : ConcurrentTaskQueue} → Step c d → IsJoined c → IsJoined d
unfolding work
Step-IsJoined {c} (works v l) h =
    let o = work-IsOwn v (c.place v) c in
    record {
      before = λ f. o.stopped ∙ h.before (sym o.stops_at ∙ f);
      after = λ f w k.
          place-work w v ended c (h.after (sym o.stops_at ∙ f) w (rw (sym o.number) k)) (λ d. refl);
    }
Step-IsJoined {c} stopping h = stop_step-IsJoined c.stopper h refl

-- Waking a worker that waits.
wake-IsJoined :
    {c : ConcurrentTaskQueue} (w : ℕ) (q us : List ℕ)
    → w < c.thread_num
    → c.place w ≡ waiting
    → IsJoined c
    → IsJoined (record c { que = q; added = us; place = wake w c.place })
unfolding wake
wake-IsJoined {c} w q us l e h = record {
  before = h.before;
  after = λ f v k. absurd (cc (h.after f w l, e));
}

Outside-IsJoined : {c d : ConcurrentTaskQueue} → Outside c d → IsJoined c → IsJoined d
unfolding run_task
Outside-IsJoined {c} (runs_task t none free may) h = record { before = h.before; after = h.after }
Outside-IsJoined {c} (runs_task t (some w) free may) h =
    wake-IsJoined w (c.que ++ (t ∷ [])) (c.added ++ (t ∷ [])) may.0 may.1 h
Outside-IsJoined {c} (wakes w l e) h = wake-IsJoined w c.que c.added l e h

Reach-IsJoined : {n : ℕ} {c : ConcurrentTaskQueue} → Reach n c → IsJoined c
unfolding new_task_queue
Reach-IsJoined start = record { before = λ f. refl; after = λ f. cc }
Reach-IsJoined (steps r s) = Step-IsJoined s (Reach-IsJoined r)
Reach-IsJoined (acts r a) = Outside-IsJoined a (Reach-IsJoined r)

-- Nothing is run from here on.
record IsOver (c d : ConcurrentTaskQueue) : Type 0 where
  over : d.stopper ≡ joined
  joined_all : IsJoined d
  no_start : d.started ≡ c.started
  no_finish : d.finished ≡ c.finished

work_ended : (v : ℕ) (d : ConcurrentTaskQueue) → work v ended d ≡ d
unfolding work
work_ended v d = refl

stops_joined : (d : ConcurrentTaskQueue) → stop_step joined d ≡ d
unfolding stop_step
stops_joined d = refl

Step-IsOver : {c d e : ConcurrentTaskQueue} → Step d e → IsOver c d → IsOver c e
Step-IsOver {c} {d} (works v l) h = over_work (d.place v) (h.joined_all.after h.over v l)
  where
    over_work : (p : Place) → p ≡ ended → IsOver c (work v p d)
    over_work p e = rw e (rw (work_ended v d) h)
Step-IsOver {c} {d} stopping h = over_stops d.stopper h.over
  where
    over_stops : (s : Stopper) → s ≡ joined → IsOver c (stop_step s d)
    over_stops s e = rw e (rw (stops_joined d) h)

Outside-IsOver : {c d e : ConcurrentTaskQueue} → Outside d e → IsOver c d → IsOver c e
unfolding run_task
Outside-IsOver {c} {d} (runs_task t none free may) h = record {
  over = h.over;
  joined_all = Outside-IsJoined (runs_task t none free may) h.joined_all;
  no_start = h.no_start;
  no_finish = h.no_finish;
}
Outside-IsOver {c} {d} (runs_task t (some w) free may) h =
    absurd (cc (h.joined_all.after h.over w may.0, may.1))
Outside-IsOver {c} {d} (wakes w l e) h = absurd (cc (h.joined_all.after h.over w l, e))

Later-IsOver : {c d : ConcurrentTaskQueue} → Later c d → IsOver c c → IsOver c d
Later-IsOver still h = h
Later-IsOver (after_step r s) h = Step-IsOver s (Later-IsOver r h)
Later-IsOver (after_act r a) h = Outside-IsOver a (Later-IsOver r h)

-- Once `stop` has returned no task is started or completed any more, whether it was queued before or is
-- added later.
pub nothing_runs_after_stop :
    {n : ℕ} {c d : ConcurrentTaskQueue}
    → Reach n c
    → c.stopper ≡ joined
    → Later c d
    → (d.started ≡ c.started) × (d.finished ≡ c.finished)
nothing_runs_after_stop r j l =
    let h =
      Later-IsOver l
        (record { over = j; joined_all = Reach-IsJoined r; no_start = refl; no_finish = refl }) in
    (h.no_start, h.no_finish)
