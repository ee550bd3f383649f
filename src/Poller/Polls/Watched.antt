-- ===== src/Poller/Polls/Watched.antt =====
-- What `poll` is asked for after each call, on a `PollPoller`.

use netpoll_cpp.Base.{
  Bool, Bool-cases, Option-cases, ap, arith, false, get_elem?, get_elem?-append_one, get_elem?-set,
  get_elem?-some, get_elem?_lt, if◌then◌else◌, inl, inr, length, pos, refl, some, sym, true, ℕ, ◌-◌,
  ◌==◌, ◌∙◌, ◌≡◌,
}
use netpoll_cpp.Channel.{Flags, is_none_event}
use netpoll_cpp.Poller.{wants, wants_nothing}
use netpoll_cpp.Poller.Polls.{PollFd, PollPoller, owner, remove_channel, update_channel}
use netpoll_cpp.Poller.Polls.Removal.{
  cut, cut-IsValid, cut_entry, moved, moved-IsValid, moved_get, other_place,
}
use netpoll_cpp.Poller.Polls.Valid.{
  IsValid, accepts, asked, asked_at, place_of, pushed, pushed-IsValid, renewed, rewritten,
  rewritten-IsValid, watched,
}

asked-renewed : (fd : ℕ) (e : Flags) → asked (renewed fd e) ≡ wants e
asked-renewed fd e = elim (Bool-cases (is_none_event e)) [
  | inl nothing ↦ rw nothing (sym (wants_nothing e nothing))
  | inr some_bits ↦ rw some_bits refl
]

-- A channel whose entry is known.
watched_at :
    (p : PollPoller) (g j : ℕ) (x : PollFd)
    → p.channels g ≡ true
    → p.index g ≡ some j
    → get_elem? p.pollfds j ≡ some x
    → watched p g ≡ asked x
watched_at p g j x r ej ex = rw (r, ej) (ap asked_at ex)

-- A channel that a call is not about keeps its entry, in whatever place.
watched_kept :
    (p q : PollPoller) (g : ℕ)
    → IsValid p
    → q.channels g ≡ p.channels g
    → ((j : ℕ) (x : PollFd)
        → p.index g ≡ some j
        → get_elem? p.pollfds j ≡ some x
        → owner x ≡ g
        → (k : ℕ) × (q.index g ≡ some k) × (get_elem? q.pollfds k ≡ some x))
    → watched q g ≡ watched p g
watched_kept p q g v same keep = elim (Bool-cases (p.channels g)) [
  | inl yes_ ↦
      let (j, (ej, (x, ex, ox))) = v.placed g yes_ in
      let (k, ek, fk) = keep j x ej ex ox in
      watched_at q g k x (same ∙ yes_) ek fk ∙ sym (watched_at p g j x yes_ ej ex)
  | inr no_ ↦ rw (same, no_) refl
]

-- Removals and updates of `fd`: what holds at `fd` itself, and elsewhere.
either_channel :
    (p q : PollPoller) (fd : ℕ) (w : Bool × Bool)
    → watched q fd ≡ w
    → ((g : ℕ) → (fd == g) ≡ false → watched q g ≡ watched p g)
    → (g : ℕ) → watched q g ≡ (if fd == g then w else watched p g)
either_channel p q fd w here there g = elim (Bool-cases (fd == g)) [
  | inl same ↦ let e : g ≡ fd = ground arith in rw same (ap (watched q) e ∙ here)
  | inr other ↦ rw other (there g other)
]

module _ (fd : ℕ) (p : PollPoller) (v : IsValid p) where
  module _ (i : ℕ) (r : p.channels fd ≡ true) (e : p.index fd ≡ some i) where
    cut_laws :
        (i == length p.pollfds - 1) ≡ true
        → (g : ℕ) → watched (cut fd p v i r e) g ≡ (if fd == g then (false, false) else watched p g)
    unfolding cut
    cut_laws last =
        let here : (fd == fd) ≡ true = ground arith in
        either_channel p (cut fd p v i r e) fd (false, false) (rw here refl)
          (λ g ne.
            watched_kept p (cut fd p v i r e) g v (rw ne refl)
              (λ j x ej ex ox. (j, ej, cut_entry fd p v i r e g j x ne ej ex ox last)))

    moved_laws :
        (z : PollFd) (n : (i == length p.pollfds - 1) ≡ false)
        (a : get_elem? p.pollfds (length p.pollfds - 1) ≡ some z) (g : ℕ)
        → watched (moved fd p v i r e z n a) g ≡ (if fd == g then (false, false) else watched p g)
    unfolding moved
    moved_laws z n a =
        let here : (fd == fd) ≡ true = ground arith in
        either_channel p (moved fd p v i r e z n a) fd (false, false) (rw here refl)
          (λ g ne. watched_kept p (moved fd p v i r e z n a) g v (rw ne refl) (λ j x ej ex ox.
            let (ix, holds) = moved_get fd p v i r e z n a g j x ne ej ex ox in
            (if owner z == g then i else j, ix, holds)))

  -- A registered channel that is removed.
  pub remove_laws :
      p.channels fd ≡ true
      → IsValid (remove_channel fd p)
        × ((g : ℕ)
            → watched (remove_channel fd p) g ≡ (if fd == g then (false, false) else watched p g))
  unfolding remove_channel cut moved
  remove_laws r =
      let (i, (e, (x, ex, ox))) = v.placed fd r in
      elim (Bool-cases (i == length p.pollfds - 1)) [
        | inl last ↦
            let same : remove_channel fd p ≡ cut fd p v i r e = rw (e, remove_channel, last) refl in
            rw same (cut-IsValid fd p v i r e last, cut_laws i r e last)
        | inr n ↦
            let (z, a) =
              get_elem?-some p.pollfds (length p.pollfds - 1)
                (ground (arith, get_elem?_lt p.pollfds i ex)) in
            let same : remove_channel fd p ≡ moved fd p v i r e z n a =
              rw (e, remove_channel, n, a) refl in
            rw same (moved-IsValid fd p v i r e z n a, moved_laws i r e z n a)
      ]

  pushed_laws :
      (m : Flags)
      → (g : ℕ) → watched (pushed fd m p v) g ≡ (if fd == g then wants m else watched p g)
  unfolding pushed
  pushed_laws m =
      let here : (fd == fd) ≡ true = ground arith in
      let x : PollFd = record { fd = pos fd; events = m } in
      either_channel p (pushed fd m p v) fd (wants m)
        (watched_at (pushed fd m p v) fd (length p.pollfds) x (rw here refl) (rw here refl)
          (ground (arith, get_elem?-append_one p.pollfds x (length p.pollfds))))
        (λ g ne. watched_kept p (pushed fd m p v) g v (rw ne refl) (λ j y ej ey oy. (
          j,
          rw ne ej,
          ground (arith, ey, get_elem?_lt p.pollfds j ey, get_elem?-append_one p.pollfds x j),
        )))

  rewritten_laws :
      (m : Flags) (i : ℕ)
      → p.channels fd ≡ true
      → p.index fd ≡ some i
      → (g : ℕ) → watched (rewritten fd m p v i) g ≡ (if fd == g then wants m else watched p g)
  unfolding rewritten
  rewritten_laws m i r e =
      let (_, (x, ex, ox)) = place_of p fd i v r e in
      either_channel p (rewritten fd m p v i) fd (wants m)
        (watched_at (rewritten fd m p v i) fd i (renewed fd m) r e (
            ground (arith, get_elem?_lt p.pollfds i ex, get_elem?-set p.pollfds i i (renewed fd m)))
          ∙ asked-renewed fd m)
        (λ g ne. watched_kept p (rewritten fd m p v i) g v refl (λ j y ej ey oy. (
          j,
          ej,
          ground (
            arith,
            ey,
            other_place fd p v i r e g j ne (ej, (y, ey, oy)),
            get_elem?-set p.pollfds i j (renewed fd m),
          ),
        )))

  -- A channel that is accepted is updated.
  pub update_laws :
      (m : Flags)
      → accepts p fd ≡ true
      → IsValid (update_channel fd m p)
        × ((g : ℕ) → watched (update_channel fd m p) g ≡ (if fd == g then wants m else watched p g))
  unfolding update_channel pushed rewritten
  update_laws m a = elim (Option-cases (p.index fd)) [
    | inl unused ↦
        let same : update_channel fd m p ≡ pushed fd m p v = rw (unused, update_channel) refl in
        rw same (pushed-IsValid fd m p v unused, pushed_laws m)
    | inr (i, e) ↦
        let r : p.channels fd ≡ true = ground (arith, e) in
        let same : update_channel fd m p ≡ rewritten fd m p v i = rw (e, update_channel) refl in
        rw same (rewritten-IsValid fd m p v i r e, rewritten_laws m i r e)
  ]
