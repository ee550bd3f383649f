-- ===== src/Poller/Kqueue/Fork.antt =====
-- `resetAfterFork` of a `KQueue`: a new kernel queue, which holds nothing, is given what the channels
-- ask for. `fds` are the keys of `channels_` in the order of the iteration.
use netpoll_cpp.Base.{
  Bool, Bool-cases, List, Option, [], ap, arith, false, if◌then◌else◌, inl, inr, none, refl, set_at,
  some, sym, true, ℕ, ◌==◌, ◌||◌, ◌∙◌, ◌∷◌, ◌≡◌, ◌⊎◌,
}
use netpoll_cpp.Channel.{Flags, is_none_event, none_event}
use netpoll_cpp.Poller.{wants, wants_nothing}
use netpoll_cpp.Poller.Kqueue.{IsValid, Kqueue, apply_changes, old_events, watched}
use netpoll_cpp.Poller.Kqueue.Filters.{watched-apply_changes_at}

-- The loop's body. That a channel asks for something is `isReading() || isWriting()`.
unfoldable pub renew_channel : ℕ → Option Flags → Kqueue → Kqueue
unfolding apply_changes
renew_channel fd none k = k
renew_channel fd (some e) k =
    let r : Kqueue = record k { masks = set_at fd (some none_event) k.masks } in
    if (wants e).0 || (wants e).1 then apply_changes fd e r else r

unfoldable pub renew_channels : List ℕ → Kqueue → Kqueue
unfolding renew_channel
renew_channels [] k = k
renew_channels (fd ∷ fds) k = renew_channels fds (renew_channel fd (k.masks fd) k)

unfoldable pub reset_after_fork : List ℕ → Kqueue → Kqueue
unfolding renew_channels
reset_after_fork fds k = renew_channels fds (record k { changes = [] })

abbrev pub is_key : ℕ → List ℕ → Bool
is_key g [] = false
is_key g (fd ∷ fds) = fd == g || is_key g fds

abbrev pub AllDistinct : List ℕ → Type 0
AllDistinct [] = Unit {0}
AllDistinct (fd ∷ fds) = (is_key fd fds ≡ false) × AllDistinct fds

record IsRenewed (fd : ℕ) (k r : Kqueue) : Type 0 where
  here : (g : ℕ) → watched r g ≡ (if fd == g then wants (old_events (k.masks fd)) else watched k g)
  others : (g : ℕ) → (fd == g) ≡ false → r.masks g ≡ k.masks g

-- A channel for which nothing is changed.
unchanged_watched :
    (fd g : ℕ) (k : Kqueue) (o : Option Flags)
    → k.masks fd ≡ o
    → wants (old_events o) ≡ (false, false)
    → watched k fd ≡ (false, false)
    → watched k g ≡ (if fd == g then wants (old_events (k.masks fd)) else watched k g)
unchanged_watched fd g k o e w nothing = elim (Bool-cases (fd == g)) [
  | inl same ↦
      let f : fd ≡ g = ground (arith, same) in
      rw same (ap (watched k) (sym f) ∙ nothing ∙ sym w ∙ ap (λ x. wants (old_events x)) (sym e))
  | inr other_fd ↦ rw other_fd refl
]

none_wanted : wants none_event ≡ (false, false)
unfolding is_none_event
none_wanted = wants_nothing none_event refl

cleared_agrees :
    (fd : ℕ) (k : Kqueue)
    → watched k fd ≡ (false, false)
    → watched k fd ≡ wants (old_events (set_at fd (some none_event) k.masks fd))
cleared_agrees fd k nothing =
    let same : (fd == fd) ≡ true = ground arith in rw same (nothing ∙ sym none_wanted)

renew_channel-IsRenewed :
    (fd : ℕ) (o : Option Flags) (k : Kqueue)
    → k.masks fd ≡ o
    → watched k fd ≡ (false, false)
    → IsRenewed fd k (renew_channel fd o k)
unfolding renew_channel apply_changes
renew_channel-IsRenewed fd none k e nothing = record {
  here = λ g. unchanged_watched fd g k none e none_wanted nothing;
  others = λ g f. refl;
}
renew_channel-IsRenewed fd (some m) k e nothing = elim (Bool-cases ((wants m).0 || (wants m).1)) [
  | inl asking ↦
      rw (asking, renew_channel)
        (record {
          here = λ g.
              watched-apply_changes_at fd m
                (record k { masks = set_at fd (some none_event) k.masks }) g
                (cleared_agrees fd k nothing)
              ∙ ap (λ x. if fd == g then wants (old_events x) else watched k g) (sym e);
          others = λ g f. rw f refl;
        })
  | inr quiet ↦
      rw (quiet, renew_channel)
        (record {
          here = λ g. unchanged_watched fd g k (some m) e (both_false quiet) nothing;
          others = λ g f. rw f refl;
        })
]
  where
    both_false : ((wants m).0 || (wants m).1) ≡ false → wants m ≡ (false, false)
    both_false q = ground (arith, q)

renew_channels_lem :
    (fds : List ℕ) (k : Kqueue)
    → AllDistinct fds
    → ((fd : ℕ) → is_key fd fds ≡ true → watched k fd ≡ (false, false))
    → (g : ℕ)
    → watched (renew_channels fds k) g
      ≡ (if is_key g fds then wants (old_events (k.masks g)) else watched k g)
unfolding renew_channels
renew_channels_lem [] k d nothing g = refl
renew_channels_lem (fd ∷ fds) k d nothing g =
    let again = renew_channels_lem fds renewed d.1 rest_nothing g in
    elim (Bool-cases (fd == g)) [
      | inl same ↦
          let f : fd ≡ g = ground (arith, same) in
          let gone : is_key g fds ≡ false = ap (λ x. is_key x fds) (sym f) ∙ d.0 in
          rw same (
            again
            ∙ ap (λ b. if b then wants (old_events (renewed.masks g)) else watched renewed g) gone
            ∙ r.here g
            ∙ ap (λ b. if b then wants (old_events (k.masks fd)) else watched k g) same
            ∙ ap (λ x. wants (old_events (k.masks x))) f)
      | inr differs ↦ rw differs (
          again
          ∙ ap (λ m. if is_key g fds then wants (old_events m) else watched renewed g)
              (r.others g differs)
          ∙ ap (λ w. if is_key g fds then wants (old_events (k.masks g)) else w) (r.here g)
          ∙ ap
              (λ b.
                if is_key g fds
                then wants (old_events (k.masks g))
                else (if b then wants (old_events (k.masks fd)) else watched k g))
              differs)
    ]
  where
    renewed : Kqueue
    renewed = renew_channel fd (k.masks fd) k

    r : IsRenewed fd k (renew_channel fd (k.masks fd) k)
    r =
        let first : is_key fd (fd ∷ fds) ≡ true = ground arith in
        renew_channel-IsRenewed fd (k.masks fd) k refl (nothing fd first)

    differs_from : (x : ℕ) → is_key x fds ≡ true → (fd == x) ≡ false
    differs_from x h = elim (Bool-cases (fd == x)) [
      | inr differs ↦ differs
      | inl same ↦
          let f : fd ≡ x = ground (arith, same) in absurd (cc (d.0, ap (λ y. is_key y fds) f, h))
    ]

    rest_nothing : (x : ℕ) → is_key x fds ≡ true → watched renewed x ≡ (false, false)
    rest_nothing x h =
        let listed : is_key x (fd ∷ fds) ≡ true = ground (arith, h) in
        r.here x
        ∙ ap (λ b. if b then wants (old_events (k.masks fd)) else watched k x) (differs_from x h)
        ∙ nothing x listed

-- After a fork the new kernel queue watches every descriptor for what the old one did.
pub watched-reset_after_fork :
    (fds : List ℕ) (k : Kqueue)
    → IsValid k
    → AllDistinct fds
    → ((fd : ℕ) → is_key fd fds ≡ false → k.masks fd ≡ none)
    → (g : ℕ) → watched (reset_after_fork fds k) g ≡ watched k g
unfolding reset_after_fork
watched-reset_after_fork fds k v d keys g =
    renew_channels_lem fds (record k { changes = [] }) d (λ fd h. refl) g
    ∙ as_before (Bool-cases (is_key g fds))
  where
    as_before :
        (is_key g fds ≡ true) ⊎ (is_key g fds ≡ false)
        → (if is_key g fds then wants (old_events (k.masks g)) else (false, false)) ≡ watched k g
    as_before (inl listed) = rw listed (sym (v.agrees g))
    as_before (inr unlisted) = rw unlisted (
        sym none_wanted ∙ ap (λ m. wants (old_events m)) (sym (keys g unlisted)) ∙ sym (v.agrees g))
