-- ===== src/EventLoopThread/Handover.antt =====
-- The owner and the loop's thread: what each may rely on, and that they do not wait for each other.
use netpoll_cpp.Base.{Bool, ap, arith, false, ltb, not, refl, true, ℕ, ◌&&◌, ◌==◌, ◌||◌, ◌≡◌}
use netpoll_cpp.EventLoopThread.{
  EventLoopThread, Owner, Place, ReachAlone, Step, begin, call_quit, cleared, constructing,
  destroyed, destroys, ended, entering, moves_on, handling, idle, joins, left, loads, looped,
  looping, making, new_thread, owner_step, owns, quits, runs_it, sets_run, waiting_run, waits_loop,
  work, works,
}

-- How far the loop's thread and the owner are.
abbrev pub stage : Place → ℕ
stage making = 0
stage waiting_run = 1
stage entering = 2
stage looping = 3
stage handling = 4
stage looped = 5
stage left = 6
stage cleared = 7
stage ended = 8

abbrev pub owner_stage : Owner → ℕ
owner_stage constructing = 0
owner_stage idle = 1
owner_stage (sets_run d) = 1
owner_stage (waits_loop d) = 2
owner_stage loads = 3
owner_stage (quits l) = 4
owner_stage joins = 5
owner_stage destroyed = 6

-- `quit` is not going to be called.
abbrev pub found_null : Owner → Bool
found_null (quits l) = not l
found_null o = false

abbrev pub implies : Bool → Bool → Bool
implies a b = not a || b

-- In terms of the two stages: what the promises, `m_loop` and `m_quit` hold, as long as no other
-- thread calls `quit`.
unfoldable pub handed_over : EventLoopThread → ℕ → ℕ → Bool → Bool
handed_over t p o null =
    implies (ltb 0 p) t.loop_pointer
    && implies t.loop_pointer (ltb 0 p)
    && implies (o == 0) (not t.run_set)
    && implies (t.called && not (o == 2)) t.loop_set
    && implies (ltb 1 p) t.run_set
    && implies (ltb 4 p) t.loop_set
    && implies t.loop_set (ltb 4 p)
    && implies t.m_loop (ltb 0 p && ltb p 7)
    && implies (ltb 0 o && ltb p 7) (ltb 0 p && t.m_loop)
    && implies t.called t.run_set
    && implies (o == 2) t.run_set
    && implies (ltb 2 o) t.loop_set
    && implies (ltb 4 o) (t.quit || ltb 5 p)
    && implies (ltb o 5) (ltb p 6 && not t.quit)
    && not t.dangling
    && not null

pub record IsHandedOver (t : EventLoopThread) : Type 0 where
  pub holds : handed_over t (stage t.place) (owner_stage t.owner) (found_null t.owner) ≡ true

-- The steps of the loop's thread, one lemma each.
work_making-IsHandedOver :
    (t : EventLoopThread) → IsHandedOver t → stage t.place ≡ 0 → IsHandedOver (work making t)
unfolding work handed_over
work_making-IsHandedOver t h e = record { holds = ground (arith, h.holds, e) }

work_waiting_run-IsHandedOver :
    (t : EventLoopThread) → IsHandedOver t → stage t.place ≡ 1 → IsHandedOver (work waiting_run t)
unfolding work handed_over
work_waiting_run-IsHandedOver t h e = record { holds = ground (arith, h.holds, e) }

work_entering-IsHandedOver :
    (t : EventLoopThread) → IsHandedOver t → stage t.place ≡ 2 → IsHandedOver (work entering t)
unfolding work handed_over
work_entering-IsHandedOver t h e = record { holds = ground (arith, h.holds, e) }

work_looping-IsHandedOver :
    (t : EventLoopThread) → IsHandedOver t → stage t.place ≡ 3 → IsHandedOver (work looping t)
unfolding work handed_over
work_looping-IsHandedOver t h e = record { holds = ground (arith, h.holds, e) }

work_handling-IsHandedOver :
    (t : EventLoopThread) → IsHandedOver t → stage t.place ≡ 4 → IsHandedOver (work handling t)
unfolding work handed_over
work_handling-IsHandedOver t h e = record { holds = ground (arith, h.holds, e) }

work_looped-IsHandedOver :
    (t : EventLoopThread) → IsHandedOver t → stage t.place ≡ 5 → IsHandedOver (work looped t)
unfolding work handed_over
work_looped-IsHandedOver t h e = record { holds = ground (arith, h.holds, e) }

work_left-IsHandedOver :
    (t : EventLoopThread) → IsHandedOver t → stage t.place ≡ 6 → IsHandedOver (work left t)
unfolding work handed_over
work_left-IsHandedOver t h e = record { holds = ground (arith, h.holds, e) }

work_cleared-IsHandedOver :
    (t : EventLoopThread) → IsHandedOver t → stage t.place ≡ 7 → IsHandedOver (work cleared t)
unfolding work handed_over
work_cleared-IsHandedOver t h e = record { holds = ground (arith, h.holds, e) }

work_ended-IsHandedOver : (t : EventLoopThread) → IsHandedOver t → IsHandedOver (work ended t)
unfolding work
work_ended-IsHandedOver t h = h

work-IsHandedOver :
    (t : EventLoopThread) (p : Place) → IsHandedOver t → t.place ≡ p → IsHandedOver (work p t)
work-IsHandedOver t making h e = work_making-IsHandedOver t h (ap stage e)
work-IsHandedOver t waiting_run h e = work_waiting_run-IsHandedOver t h (ap stage e)
work-IsHandedOver t entering h e = work_entering-IsHandedOver t h (ap stage e)
work-IsHandedOver t looping h e = work_looping-IsHandedOver t h (ap stage e)
work-IsHandedOver t handling h e = work_handling-IsHandedOver t h (ap stage e)
work-IsHandedOver t looped h e = work_looped-IsHandedOver t h (ap stage e)
work-IsHandedOver t left h e = work_left-IsHandedOver t h (ap stage e)
work-IsHandedOver t cleared h e = work_cleared-IsHandedOver t h (ap stage e)
work-IsHandedOver t ended h e = work_ended-IsHandedOver t h

-- Those of the owner.
own_constructing-IsHandedOver :
    (t : EventLoopThread)
    → IsHandedOver t
    → owner_stage t.owner ≡ 0
    → IsHandedOver (owner_step constructing t)
unfolding owner_step handed_over
own_constructing-IsHandedOver t h e = record { holds = ground (arith, h.holds, e) }

own_sets_run-IsHandedOver :
    (d : Bool) (t : EventLoopThread)
    → IsHandedOver t
    → owner_stage t.owner ≡ 1
    → IsHandedOver (owner_step (sets_run d) t)
unfolding owner_step handed_over
own_sets_run-IsHandedOver d t h e = record { holds = ground (arith, h.holds, e) }

own_waits_loop-IsHandedOver :
    (d : Bool) (t : EventLoopThread)
    → IsHandedOver t
    → owner_stage t.owner ≡ 2
    → IsHandedOver (owner_step (waits_loop d) t)
unfolding owner_step handed_over
own_waits_loop-IsHandedOver d t h e = record { holds = ground (arith, h.holds, e) }

own_loads-IsHandedOver :
    (t : EventLoopThread)
    → IsHandedOver t
    → owner_stage t.owner ≡ 3
    → IsHandedOver (owner_step loads t)
unfolding owner_step handed_over
own_loads-IsHandedOver t h e = record { holds = ground (arith, h.holds, e) }

own_joins-IsHandedOver :
    (t : EventLoopThread)
    → IsHandedOver t
    → owner_stage t.owner ≡ 5
    → IsHandedOver (owner_step joins t)
unfolding owner_step handed_over
own_joins-IsHandedOver t h e = record { holds = ground (arith, h.holds, e) }

own_quits_null-IsHandedOver :
    (t : EventLoopThread)
    → IsHandedOver t
    → t.owner ≡ quits false
    → IsHandedOver (owner_step (quits false) t)
unfolding owner_step handed_over
own_quits_null-IsHandedOver t h e = record {
  holds = ground (arith, h.holds, ap owner_stage e, ap found_null e);
}

own_quits-IsHandedOver :
    (t : EventLoopThread)
    → IsHandedOver t
    → t.owner ≡ quits true
    → IsHandedOver (owner_step (quits true) t)
unfolding owner_step call_quit handed_over
own_quits-IsHandedOver t h e = record { holds = ground (arith, h.holds, ap owner_stage e) }

own_idle : (t : EventLoopThread) → (owner_step idle t ≡ t) × (owner_step destroyed t ≡ t)
unfolding owner_step
own_idle t = (refl, refl)

owner_step-IsHandedOver :
    (t : EventLoopThread) (o : Owner) → IsHandedOver t → t.owner ≡ o → IsHandedOver (owner_step o t)
owner_step-IsHandedOver t constructing h e = own_constructing-IsHandedOver t h (ap owner_stage e)
owner_step-IsHandedOver t idle h e = rw ((own_idle t).0) h
owner_step-IsHandedOver t (sets_run d) h e = own_sets_run-IsHandedOver d t h (ap owner_stage e)
owner_step-IsHandedOver t (waits_loop d) h e = own_waits_loop-IsHandedOver d t h (ap owner_stage e)
owner_step-IsHandedOver t loads h e = own_loads-IsHandedOver t h (ap owner_stage e)
owner_step-IsHandedOver t (quits false) h e = own_quits_null-IsHandedOver t h e
owner_step-IsHandedOver t (quits true) h e = own_quits-IsHandedOver t h e
owner_step-IsHandedOver t joins h e = own_joins-IsHandedOver t h (ap owner_stage e)
owner_step-IsHandedOver t destroyed h e = rw ((own_idle t).1) h

Step-IsHandedOver : {t u : EventLoopThread} → Step t u → IsHandedOver t → IsHandedOver u
unfolding handed_over
Step-IsHandedOver {t} works h = work-IsHandedOver t t.place h refl
Step-IsHandedOver {t} owns h = owner_step-IsHandedOver t t.owner h refl
Step-IsHandedOver {t} (runs_it e) h = record { holds = ground (arith, h.holds, ap owner_stage e) }
Step-IsHandedOver {t} (destroys e) h = record { holds = ground (arith, h.holds, ap owner_stage e) }

pub ReachAlone-IsHandedOver : {t : EventLoopThread} → ReachAlone t → IsHandedOver t
unfolding new_thread handed_over
ReachAlone-IsHandedOver begin = record { holds = refl }
ReachAlone-IsHandedOver (moves_on r s) = Step-IsHandedOver s (ReachAlone-IsHandedOver r)
