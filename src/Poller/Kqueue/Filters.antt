-- ===== src/Poller/Kqueue/Filters.antt =====
-- The filters that the kernel holds for a `KQueue` after a change.
use mathlib.Core.Path.{ap₂}
use netpoll_cpp.Base.{Bool, List, ap, arith, false, if◌then◌else◌, refl, true, ℕ, ◌==◌, ◌∙◌, ◌≡◌}
use netpoll_cpp.Channel.{Flags}
use netpoll_cpp.Poller.{wants}
use netpoll_cpp.Poller.Kqueue.{
  Change, Filter, IsValid, Kqueue, apply_changes, change_filter, holds, old_events, read_filter,
  watched, write_filter,
}

holds-change_filter :
    (f : Filter) (fd g : ℕ) (now old : Bool) (cs : List Change)
    → holds cs f fd ≡ old
    → holds (change_filter f fd now old cs) f g ≡ (if fd == g then now else holds cs f g)
holds-change_filter read_filter fd g true true cs h = ground arith
holds-change_filter read_filter fd g true false cs h = ground arith
holds-change_filter read_filter fd g false true cs h = ground arith
holds-change_filter read_filter fd g false false cs h = ground arith
holds-change_filter write_filter fd g true true cs h = ground arith
holds-change_filter write_filter fd g true false cs h = ground arith
holds-change_filter write_filter fd g false true cs h = ground arith
holds-change_filter write_filter fd g false false cs h = ground arith

-- The other filter stays.
read-change_write :
    (fd g : ℕ) (now old : Bool) (cs : List Change)
    → holds (change_filter write_filter fd now old cs) read_filter g ≡ holds cs read_filter g
read-change_write fd g now old cs = ground arith

write-change_read :
    (fd g : ℕ) (now old : Bool) (cs : List Change)
    → holds (change_filter read_filter fd now old cs) write_filter g ≡ holds cs write_filter g
write-change_read fd g now old cs = ground arith

if_pair :
    (test : Bool) (a b c d : Bool)
    → ◌≡◌ {A = Bool × Bool}
        ((if test then a else c), (if test then b else d))
        (if test then (a, b) else (c, d))
if_pair true a b c d = refl
if_pair false a b c d = refl

-- It is enough that the kernel holds what the mask of this one channel asks for.
pub watched-apply_changes_at :
    (fd : ℕ) (e : Flags) (k : Kqueue) (g : ℕ)
    → watched k fd ≡ wants (old_events (k.masks fd))
    → watched (apply_changes fd e k) g ≡ (if fd == g then wants e else watched k g)
unfolding apply_changes
watched-apply_changes_at fd e k g a =
    let old = old_events (k.masks fd) in
    let inner = change_filter read_filter fd (wants e).0 (wants old).0 k.changes in
    let w_old : holds inner write_filter fd ≡ (wants old).1 =
      write-change_read fd fd (wants e).0 (wants old).0 k.changes
      ∙ ap (λ (x : Bool × Bool). x.1) a in
    ap₂ {C = Bool × Bool} (λ x y. (x, y))
      (read-change_write fd g (wants e).1 (wants old).1 inner
        ∙ holds-change_filter read_filter fd g (wants e).0 (wants old).0 k.changes
            (ap (λ (x : Bool × Bool). x.0) a))
      (holds-change_filter write_filter fd g (wants e).1 (wants old).1 inner w_old
        ∙ ap (λ x. if fd == g then (wants e).1 else x)
            (write-change_read fd g (wants e).0 (wants old).0 k.changes))
    ∙ if_pair (fd == g) (wants e).0 (wants e).1 (holds k.changes read_filter g)
        (holds k.changes write_filter g)

pub watched-apply_changes :
    (fd : ℕ) (e : Flags) (k : Kqueue) (g : ℕ)
    → IsValid k
    → watched (apply_changes fd e k) g ≡ (if fd == g then wants e else watched k g)
watched-apply_changes fd e k g v = watched-apply_changes_at fd e k g (v.agrees fd)
