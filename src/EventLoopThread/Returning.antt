-- ===== src/EventLoopThread/Returning.antt =====
-- The owner's calls return.
use netpoll_cpp.Base.{Bool, ap, arith, false, inl, inr, not, refl, true, ◌≡◌, ◌≢◌, ◌⊎◌}
use netpoll_cpp.EventLoopThread.{
  EventLoopThread, Owner, Place, ReachAlone, call_quit, cleared, constructing, destroyed, ended,
  entering, handling, idle, is_ended, joins, left, loads, looped, looping, making, owner_step,
  quits, sets_run, waiting_run, waits_loop, work,
}
use netpoll_cpp.EventLoopThread.Handover.{
  IsHandedOver, ReachAlone-IsHandedOver, handed_over, owner_stage, stage,
}

-- When the loop's thread has to wait: for `run`, in `poll`, or having returned.
abbrev pub waits : EventLoopThread → Place → Bool
waits t waiting_run = not t.run_set
waits t looped = not t.quit
waits t ended = true
waits t p = false

work_moves : (t : EventLoopThread) (p : Place) → t.place ≡ p → waits t p ≡ false → work p t ≢ t
unfolding work
work_moves t making e w same = ground (arith, ap (λ u. stage u.place) same, ap stage e)
work_moves t waiting_run e w same = ground (arith, ap (λ u. stage u.place) same, ap stage e, w)
work_moves t entering e w same = ground (arith, ap (λ u. stage u.place) same, ap stage e)
work_moves t looping e w same = ground (arith, ap (λ u. stage u.place) same, ap stage e)
work_moves t handling e w same = ground (arith, ap (λ u. stage u.place) same, ap stage e)
work_moves t looped e w same = ground (arith, ap (λ u. stage u.place) same, ap stage e, w)
work_moves t left e w same = ground (arith, ap (λ u. stage u.place) same, ap stage e)
work_moves t cleared e w same = ground (arith, ap (λ u. stage u.place) same, ap stage e)
work_moves t ended e w same = cc

-- When the owner has to wait.
abbrev pub owner_waits : EventLoopThread → Owner → Bool
owner_waits t constructing = not t.loop_pointer
owner_waits t (waits_loop d) = not t.loop_set
owner_waits t joins = not (is_ended t.place)
owner_waits t idle = true
owner_waits t destroyed = true
owner_waits t o = false

abbrev is_setting : Owner → Bool
is_setting (sets_run d) = true
is_setting o = false

own_moves :
    (t : EventLoopThread) (o : Owner) → t.owner ≡ o → owner_waits t o ≡ false → owner_step o t ≢ t
unfolding owner_step call_quit
own_moves t constructing e w same =
    ground (arith, ap (λ u. owner_stage u.owner) same, ap owner_stage e, w)
own_moves t idle e w same = cc
own_moves t (sets_run d) e w same =
    ground (arith, ap (λ u. is_setting u.owner) same, ap is_setting e)
own_moves t (waits_loop d) e w same =
    ground (arith, ap (λ u. owner_stage u.owner) same, ap owner_stage e, w)
own_moves t loads e w same = ground (arith, ap (λ u. owner_stage u.owner) same, ap owner_stage e)
own_moves t (quits l) e w same =
    ground (arith, ap (λ u. owner_stage u.owner) same, ap owner_stage e)
own_moves t joins e w same = ground (arith, ap (λ u. owner_stage u.owner) same, ap owner_stage e, w)
own_moves t destroyed e w same = cc

abbrev pub in_call : Owner → Bool
in_call idle = false
in_call destroyed = false
in_call o = true

-- Not both have to wait.
not_both :
    (t : EventLoopThread)
    → IsHandedOver t
    → in_call t.owner ≡ true
    → (waits t t.place ≡ false) ⊎ (owner_waits t t.owner ≡ false)
unfolding handed_over
not_both t h c = ground (arith, h.holds)

-- As long as no other thread calls `quit` of the loop: the owner and the loop's thread never wait for
-- each other, so that in the constructor, in `run` and in the destructor one of the two can go on;
-- and no member of the loop is called after it was destroyed.
pub calls_return :
    {t : EventLoopThread}
    → ReachAlone t
    → in_call t.owner ≡ true
    → ((work t.place t ≢ t) ⊎ (owner_step t.owner t ≢ t)) × (t.dangling ≡ false)
unfolding handed_over
calls_return {t} r c =
    let h = ReachAlone-IsHandedOver r in
    (
      elim (not_both t h c) [
        | inl w ↦ inl (work_moves t t.place refl w)
        | inr w ↦ inr (own_moves t t.owner refl w)
      ],
      ground (arith, h.holds),
    )
