-- ===== src/EventLoopThread/Dangling.antt =====
-- What a `quit` by another thread, which got the pointer from `getLoop`, may do to the owner's calls.
use netpoll_cpp.Base.{
  Bool, Bool-cases, ap, arith, false, inl, inr, ltb, not, refl, true, ℕ, ◌&&◌, ◌==◌, ◌∙◌, ◌≡◌,
}
use netpoll_cpp.EventLoopThread.{
  EventLoopThread, Later, Owner, Place, Reach, Step, call_quit, cleared, constructing, destroyed,
  destroys, ended, entering, handling, idle, is_ended, joins, left, loads, looped, looping, making,
  new_thread, on_quit, on_step, owner_step, owns, quits, quits_too, runs_it, sets_run, start, steps,
  unchanged, waiting_run, waits_loop, work, works,
}
use netpoll_cpp.EventLoopThread.Handover.{implies, owner_stage, stage}

-- The pointer is there while the loop is handed out and its thread has not returned.
unfoldable pointed : EventLoopThread → ℕ → ℕ → Bool
pointed t p o =
    implies t.loop_pointer (ltb 0 p)
    && implies (o == 0) (not t.run_set && not t.called)
    && implies (ltb 1 p) t.run_set
    && implies t.m_loop (ltb 0 p && ltb p 7)

record IsPointed (t : EventLoopThread) : Type 0 where
  holds : pointed t (stage t.place) (owner_stage t.owner) ≡ true

work-IsPointed :
    (t : EventLoopThread) (p : Place) → IsPointed t → t.place ≡ p → IsPointed (work p t)
unfolding work pointed
work-IsPointed t making h e = record { holds = ground (arith, h.holds, ap stage e) }
work-IsPointed t waiting_run h e = record { holds = ground (arith, h.holds, ap stage e) }
work-IsPointed t entering h e = record { holds = ground (arith, h.holds, ap stage e) }
work-IsPointed t looping h e = record { holds = ground (arith, h.holds, ap stage e) }
work-IsPointed t handling h e = record { holds = ground (arith, h.holds, ap stage e) }
work-IsPointed t looped h e = record { holds = ground (arith, h.holds, ap stage e) }
work-IsPointed t left h e = record { holds = ground (arith, h.holds, ap stage e) }
work-IsPointed t cleared h e = record { holds = ground (arith, h.holds, ap stage e) }
work-IsPointed t ended h e = h

owner_step-IsPointed :
    (t : EventLoopThread) (o : Owner) → IsPointed t → t.owner ≡ o → IsPointed (owner_step o t)
unfolding owner_step call_quit pointed
owner_step-IsPointed t constructing h e = record {
  holds = ground (arith, h.holds, ap owner_stage e);
}
owner_step-IsPointed t idle h e = h
owner_step-IsPointed t (sets_run d) h e = record {
  holds = ground (arith, h.holds, ap owner_stage e);
}
owner_step-IsPointed t (waits_loop d) h e = record {
  holds = ground (arith, h.holds, ap owner_stage e);
}
owner_step-IsPointed t loads h e = record { holds = ground (arith, h.holds, ap owner_stage e) }
owner_step-IsPointed t (quits l) h e = record { holds = ground (arith, h.holds, ap owner_stage e) }
owner_step-IsPointed t joins h e = record { holds = ground (arith, h.holds, ap owner_stage e) }
owner_step-IsPointed t destroyed h e = h

Step-IsPointed : {t u : EventLoopThread} → Step t u → IsPointed t → IsPointed u
unfolding pointed
Step-IsPointed {t} works h = work-IsPointed t t.place h refl
Step-IsPointed {t} owns h = owner_step-IsPointed t t.owner h refl
Step-IsPointed {t} (runs_it e) h = record { holds = ground (arith, h.holds, ap owner_stage e) }
Step-IsPointed {t} (destroys e) h = record { holds = ground (arith, h.holds, ap owner_stage e) }

Reach-IsPointed : {t : EventLoopThread} → Reach t → IsPointed t
unfolding pointed new_thread call_quit
Reach-IsPointed start = record { holds = refl }
Reach-IsPointed (steps r s) = Step-IsPointed s (Reach-IsPointed r)
Reach-IsPointed (quits_too {t = t} r e) = record {
  holds = ground (arith, (Reach-IsPointed r).holds);
}

-- Whenever `m_loop` holds a pointer the loop exists: its thread has not returned.
pub m_loop_is_alive : {t : EventLoopThread} → Reach t → t.m_loop ≡ true → is_ended t.place ≡ false
unfolding pointed
m_loop_is_alive r e = ground (arith, (Reach-IsPointed r).holds, e)

-- When another thread did, and the destructor has loaded the pointer already, the loop's thread may
-- return and destroy the loop before the destructor calls `quit` of it.
pub quit_dangles :
    {t : EventLoopThread}
    → Reach t
    → t.owner ≡ quits true
    → t.place ≡ looped
    → t.quit ≡ true
    → (u : EventLoopThread) × Reach u × (u.dangling ≡ true)
unfolding work owner_step call_quit
quit_dangles {t} r o p q = (dangling_end, reached, ground (arith, o, ap is_ended p))
  where
    dangling_end : EventLoopThread
    dangling_end = owner_step (quits true) (work cleared (work left (work looped t)))

    returned : Reach (work looped t)
    returned = rw p at (steps r works)

    behind : (work looped t).place ≡ left
    behind = rw q refl

    stored_null : Reach (work left (work looped t))
    stored_null = rw behind at (steps returned works)

    gone : Reach (work cleared (work left (work looped t)))
    gone = steps stored_null works

    reached : Reach dangling_end
    reached = rw o at (steps gone owns)

-- `loop` returned before it ran the queued function, while `run` waits for that.
record IsHung (d : Bool) (t : EventLoopThread) : Type 0 where
  gone : ltb 5 (stage t.place) ≡ true
  unset : t.loop_set ≡ false
  waiting_for_it : t.owner ≡ waits_loop d

work-IsHung :
    (d : Bool) (t : EventLoopThread) (p : Place) → IsHung d t → t.place ≡ p → IsHung d (work p t)
unfolding work
work-IsHung d t left h e = record {
  gone = refl;
  unset = h.unset;
  waiting_for_it = h.waiting_for_it;
}
work-IsHung d t cleared h e = record {
  gone = refl;
  unset = h.unset;
  waiting_for_it = h.waiting_for_it;
}
work-IsHung d t ended h e = h
work-IsHung d t p h e = absurd (ground (arith, h.gone, ap stage e))

owner_step-IsHung :
    (d : Bool) (t : EventLoopThread) (o : Owner)
    → IsHung d t
    → o ≡ waits_loop d
    → IsHung d (owner_step o t)
unfolding owner_step
owner_step-IsHung d t o h e = rw e (rw (still_waits h.unset) h)
  where
    still_waits : t.loop_set ≡ false → owner_step (waits_loop d) t ≡ t
    still_waits f = rw f refl

call_quit-IsHung : (d : Bool) (t : EventLoopThread) → IsHung d t → IsHung d (call_quit t)
unfolding call_quit
call_quit-IsHung d t h = elim (Bool-cases (is_ended t.place)) [
  | inl e ↦
      rw (e, call_quit)
        (record { gone = h.gone; unset = h.unset; waiting_for_it = h.waiting_for_it })
  | inr e ↦
      rw (e, call_quit)
        (record { gone = h.gone; unset = h.unset; waiting_for_it = h.waiting_for_it })
]

idle_not_waiting : {d : Bool} {o : Owner} → o ≡ idle → o ≡ waits_loop d → ⊥
idle_not_waiting e f = cc

Later-IsHung : {d : Bool} {t u : EventLoopThread} → Later t u → IsHung d t → IsHung d u
Later-IsHung unchanged h = h
Later-IsHung {d} (on_step {u = u} l works) h = work-IsHung d u u.place (Later-IsHung l h) refl
Later-IsHung {d} (on_step {u = u} l owns) h =
    owner_step-IsHung d u u.owner (Later-IsHung l h) ((Later-IsHung l h).waiting_for_it)
Later-IsHung (on_step l (runs_it e)) h =
    absurd (idle_not_waiting e ((Later-IsHung l h).waiting_for_it))
Later-IsHung (on_step l (destroys e)) h =
    absurd (idle_not_waiting e ((Later-IsHung l h).waiting_for_it))
Later-IsHung {d} (on_quit {u = u} l e) h = call_quit-IsHung d u (Later-IsHung l h)

call_quit_eq : (t : EventLoopThread) → t.place ≡ looping → call_quit t ≡ record t { quit = true }
unfolding call_quit
call_quit_eq t e = let f : is_ended t.place ≡ false = ap is_ended e in rw f refl

returned_early-IsHung :
    (d : Bool) (t : EventLoopThread)
    → t.loop_set ≡ false
    → t.owner ≡ waits_loop d
    → IsHung d (work looping (record t { quit = true }))
unfolding work
returned_early-IsHung d t n o = record { gone = refl; unset = n; waiting_for_it = o }

-- When another thread calls `quit` between the reset of `m_quit` and its first test in `loop`, the loop
-- returns without running the function that `run` waits for: neither `run` nor a
-- destructor that called it ever returns, whatever the threads do.
pub run_may_hang :
    {t u : EventLoopThread} {d : Bool}
    → Reach t
    → t.m_loop ≡ true
    → t.place ≡ looping
    → t.loop_set ≡ false
    → t.owner ≡ waits_loop d
    → Later (work looping (call_quit t)) u
    → Reach (work looping (call_quit t)) × (u.owner ≡ waits_loop d)
unfolding call_quit
run_may_hang {t} {u} {d} r m p n o l =
    let hung : IsHung d (work looping (call_quit t)) =
      rw (call_quit_eq t p) (returned_early-IsHung d t n o) in
    let same_place : (call_quit t).place ≡ looping = ap (λ v. v.place) (call_quit_eq t p) ∙ p in
    let reached : Reach (work (call_quit t).place (call_quit t)) = steps (quits_too r m) works in
    (rw same_place at reached, (Later-IsHung l hung).waiting_for_it)
