-- ===== src/Poller/Kqueue/Laws.antt =====
-- What a call leaves of a `KQueue`, and the filters it leaves in the kernel.
use netpoll_cpp.Base.{
  Bool-cases, Option, ap, arith, false, if_other, if_same, if◌then◌else◌, inl, inr, kept_at, none,
  refl, set_at, some, sym, true, ℕ, ◌==◌, ◌∙◌, ◌≡◌, ◌≢◌,
}
use netpoll_cpp.Channel.{Flags, is_none_event, none_event, shares_flag}
use netpoll_cpp.Poller.{wants, wants_nothing}
use netpoll_cpp.Poller.Epoll.{Index, added, deleted, new}
use netpoll_cpp.Poller.Kqueue.{
  IsValid, Kqueue, apply_changes, old_events, registered, remove_channel, update_channel, watched,
}
use netpoll_cpp.Poller.Kqueue.Filters.{watched-apply_changes}

nothing_asked : wants none_event ≡ (false, false)
unfolding shares_flag
nothing_asked = refl

-- What a call leaves: the masks and filters of `apply_changes`, or none of `fd`, and a state for it.
record Leaves (fd : ℕ) (m : Option Flags) (k k' : Kqueue) : Type 0 where
  state : Index
  index_eq : (g : ℕ) → k'.index g ≡ (if fd == g then state else k.index g)
  masks_eq : (g : ℕ) → k'.masks g ≡ (if fd == g then m else k.masks g)
  watched_eq : (g : ℕ) → watched k' g ≡ (if fd == g then wants (old_events m) else watched k g)
  if_new : state ≡ new → m ≡ none
  if_deleted : state ≡ deleted → wants (old_events m) ≡ (false, false)

Leaves-IsValid :
    (fd : ℕ) (m : Option Flags) (k k' : Kqueue) → IsValid k → Leaves fd m k k' → IsValid k'
Leaves-IsValid fd m k k' v l =
    let masked : (g : ℕ)
        → (fd == g) ≡ true
        → wants (old_events (k'.masks g)) ≡ wants (old_events m) =
      λ g same. ap (λ o. wants (old_events o)) (if_same (fd == g) _ _ _ (l.masks_eq g) same) in
    let kept : (g : ℕ) → (fd == g) ≡ false → k'.masks g ≡ k.masks g =
      λ g other. if_other (fd == g) _ _ _ (l.masks_eq g) other in
    record {
      agrees = λ g. elim (Bool-cases (fd == g)) [
        | inl same ↦ if_same (fd == g) _ _ _ (l.watched_eq g) same ∙ sym (masked g same)
        | inr other ↦
            if_other (fd == g) _ _ _ (l.watched_eq g) other
            ∙ v.agrees g
            ∙ sym (ap (λ o. wants (old_events o)) (kept g other))
      ];
      no_mask = λ g e. elim (Bool-cases (fd == g)) [
        | inl same ↦
            if_same (fd == g) _ _ _ (l.masks_eq g) same
            ∙ l.if_new (sym (if_same (fd == g) _ _ _ (l.index_eq g) same) ∙ e)
        | inr other ↦
            kept g other ∙ v.no_mask g (sym (if_other (fd == g) _ _ _ (l.index_eq g) other) ∙ e)
      ];
      asks_nothing = λ g e. elim (Bool-cases (fd == g)) [
        | inl same ↦
            masked g same ∙ l.if_deleted (sym (if_same (fd == g) _ _ _ (l.index_eq g) same) ∙ e)
        | inr other ↦
            ap (λ o. wants (old_events o)) (kept g other)
            ∙ v.asks_nothing g (sym (if_other (fd == g) _ _ _ (l.index_eq g) other) ∙ e)
      ];
    }

-- `apply_changes`, with the indices that the caller leaves.
applied-Leaves :
    (fd : ℕ) (e : Flags) (k : Kqueue) (st : Index) (index : ℕ → Index)
    → IsValid k
    → st ≢ new
    → (st ≡ deleted → is_none_event e ≡ true)
    → ((g : ℕ) → index g ≡ (if fd == g then st else k.index g))
    → Leaves fd (some e) k (record (apply_changes fd e k) { index = index })
unfolding apply_changes
applied-Leaves fd e k st index v not_new nothing h = record {
  state = st;
  index_eq = h;
  masks_eq = λ g. refl;
  watched_eq = λ g. watched-apply_changes fd e k g v;
  if_new = λ eq. absurd (not_new eq);
  if_deleted = λ eq. wants_nothing e (nothing eq);
}

update-Leaves :
    (fd : ℕ) (e : Flags) (k : Kqueue) (i : Index)
    → IsValid k
    → k.index fd ≡ i
    → Leaves fd (some e) k (update_channel fd e k)
unfolding update_channel
update-Leaves fd e k new v h =
    let l =
      applied-Leaves fd e k added (set_at fd added k.index) v (ground arith) (ground arith)
        (λ g. refl) in
    rw (h, update_channel) l
update-Leaves fd e k deleted v h =
    let l =
      applied-Leaves fd e k added (set_at fd added k.index) v (ground arith) (ground arith)
        (λ g. refl) in
    rw (h, update_channel) l
update-Leaves fd e k added v h = elim (Bool-cases (is_none_event e)) [
  | inl nothing ↦
      let l =
        applied-Leaves fd e k deleted (set_at fd deleted k.index) v (ground arith) (λ eq. nothing)
          (λ g. refl) in
      rw (h, update_channel, nothing) l
  | inr something ↦
      let l =
        applied-Leaves fd e k added k.index v (ground arith) (ground arith)
          (kept_at fd k.index added h) in
      rw (h, update_channel, something) l
]

-- A call leaves the masks as a function of descriptors, and the filters as the masks ask.
pub update_laws :
    (fd : ℕ) (e : Flags) (k : Kqueue)
    → IsValid k
    → IsValid (update_channel fd e k)
      × ((g : ℕ) → watched (update_channel fd e k) g ≡ (if fd == g then wants e else watched k g))
update_laws fd e k v =
    let l = update-Leaves fd e k (k.index fd) v refl in
    (Leaves-IsValid fd (some e) k (update_channel fd e k) v l, l.watched_eq)

-- A removed channel has no mask, and the filters are those that the empty mask leaves.
removed-Leaves :
    (fd : ℕ) (k r : Kqueue)
    → ((g : ℕ) → (fd == g) ≡ false → r.masks g ≡ k.masks g)
    → ((g : ℕ) → watched r g ≡ (if fd == g then (false, false) else watched k g))
    → Leaves fd none k (record r { index = set_at fd new k.index; masks = set_at fd none r.masks })
removed-Leaves fd k r hm hw = record {
  state = new;
  index_eq = λ g. refl;
  masks_eq = λ g. elim (Bool-cases (fd == g)) [
    | inl same ↦ rw same refl
    | inr other ↦ rw other (hm g other)
  ];
  watched_eq = λ g. hw g ∙ ap (λ w. if fd == g then w else watched k g) (sym nothing_asked);
  if_new = λ eq. refl;
  if_deleted = λ eq. nothing_asked;
}

remove-Leaves :
    (fd : ℕ) (k : Kqueue) (i : Index)
    → IsValid k
    → k.index fd ≡ i
    → i ≢ new
    → Leaves fd none k (remove_channel fd k)
unfolding remove_channel
remove-Leaves fd k new v h not_new = absurd (not_new refl)
remove-Leaves fd k added v h not_new =
    let r = apply_changes fd none_event k in
    let l =
      removed-Leaves fd k r (λ g other. rw other refl)
        (λ g.
          watched-apply_changes fd none_event k g v
          ∙ ap (λ w. if fd == g then w else watched k g) nothing_asked) in
    rw (h, remove_channel) l
remove-Leaves fd k deleted v h not_new =
    let l =
      removed-Leaves fd k k (λ g other. refl)
        (kept_at fd (watched k) (false, false) (v.agrees fd ∙ v.asks_nothing fd h)) in
    rw (h, remove_channel) l

pub remove_laws :
    (fd : ℕ) (k : Kqueue)
    → IsValid k
    → registered k fd ≡ true
    → IsValid (remove_channel fd k)
      × ((g : ℕ)
          → watched (remove_channel fd k) g ≡ (if fd == g then (false, false) else watched k g))
remove_laws fd k v r =
    let l = remove-Leaves fd k (k.index fd) v refl (ground arith) in
    (
      Leaves-IsValid fd none k (remove_channel fd k) v l,
      λ g. l.watched_eq g ∙ ap (λ w. if fd == g then w else watched k g) nothing_asked,
    )
