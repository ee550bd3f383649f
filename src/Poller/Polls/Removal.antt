-- ===== src/Poller/Polls/Removal.antt =====
-- `removeChannel`: the entry goes, and the one that takes its place gets its index.

use netpoll_cpp.Base.{
  Bool-cases, ap, arith, false, get_elem?, get_elem?-set, get_elem?-take, get_elem?_lt,
  if◌then◌else◌, inl, inr, length, length-set, ltb, none, refl, set, set_at, some, true, ℕ, ◌-◌,
  ◌<◌, ◌==◌, ◌∙◌, ◌≡◌,
}
use netpoll_cpp.Poller.Polls.{PollFd, PollPoller, move_last, owner, pop_back}
use netpoll_cpp.Poller.Polls.Valid.{IsValid, Places, place_of, same_owner}

module _ (fd : ℕ) (p : PollPoller) (v : IsValid p) (i : ℕ) (r : p.channels fd ≡ true)
    (at_i : p.index fd ≡ some i) where
  -- The entry is the last one.
  unfoldable pub cut : PollPoller
  cut = record p { pollfds = pop_back p.pollfds; channels = set_at fd false p.channels }

  -- Another channel has another place.
  pub other_place : (g j : ℕ) → (fd == g) ≡ false → Places p g j → (i == j) ≡ false
  other_place g j ne q = elim (Bool-cases (i == j)) [
    | inl same ↦
        let ij : j ≡ i = ground arith in
        let fg =
          same_owner {p = p} {fd = fd} {g = g} {i = i} v (place_of p fd i v r at_i) (rw ij at q) in
        ground arith
    | inr other ↦ other
  ]

  -- What another channel's place holds stays there.
  pub cut_entry :
      (g j : ℕ) (x : PollFd)
      → (fd == g) ≡ false
      → p.index g ≡ some j
      → get_elem? p.pollfds j ≡ some x
      → owner x ≡ g
      → (i == length p.pollfds - 1) ≡ true
      → get_elem? cut.pollfds j ≡ some x
  unfolding cut
  cut_entry g j x ne ej ex ox last = ground (
    arith,
    ex,
    other_place g j ne (ej, (x, ex, ox)),
    get_elem?_lt p.pollfds j ex,
    get_elem?-take (length p.pollfds - 1) p.pollfds j,
  )

  pub cut-IsValid : (i == length p.pollfds - 1) ≡ true → IsValid cut
  unfolding cut
  cut-IsValid last = record {
    placed = λ g rg.
        let ne : (fd == g) ≡ false = ground arith in
        let (j, (ej, (x, ex, ox))) = v.placed g (rw ne at rg) in
        (j, (ej, (x, cut_entry g j x ne ej ex ox last, ox)));
    owned = λ j x ex.
        ground (arith, get_elem?-take (length p.pollfds - 1) p.pollfds j, v.owned j x, at_i);
  }

  module _ (z : PollFd) (not_last : (i == length p.pollfds - 1) ≡ false)
      (at_end : get_elem? p.pollfds (length p.pollfds - 1) ≡ some z) where
    -- The last entry moves to the place.
    unfoldable pub moved : PollPoller
    unfolding move_last
    moved = move_last i z (record p { channels = set_at fd false p.channels })

    last : ℕ
    last = length p.pollfds - 1

    pub in_range : i < length p.pollfds
    in_range = let (e, (x, ex, ox)) = place_of p fd i v r at_i in get_elem?_lt p.pollfds i ex

    pub moved_entry :
        (j : ℕ)
        → get_elem? moved.pollfds j ≡ (
            if ltb j (length p.pollfds - 1)
            then (if i == j then some z else get_elem? p.pollfds j)
            else none)
    unfolding moved
    moved_entry j = ground (
      arith,
      in_range,
      length-set p.pollfds i z,
      get_elem?-take (length (set p.pollfds i z) - 1) (set p.pollfds i z) j,
      get_elem?-set p.pollfds i j z,
    )

    -- The channel of the last entry.
    end_place : Places p (owner z) (length p.pollfds - 1)
    end_place = let o = v.owned (length p.pollfds - 1) z at_end in (o.1, (z, at_end, refl))

    other_end :
        (g j : ℕ) → (owner z == g) ≡ false → Places p g j → (j == length p.pollfds - 1) ≡ false
    other_end g j ne q = elim (Bool-cases (j == length p.pollfds - 1)) [
      | inl same ↦
          let e : j ≡ length p.pollfds - 1 = ground arith in
          let fg =
            same_owner {p = p} {fd = owner z} {g = g} {i = length p.pollfds - 1} v end_place
              (rw e at q) in
          ground arith
      | inr other ↦ other
    ]

    pub moved_get :
        (g j : ℕ) (x : PollFd)
        → (fd == g) ≡ false
        → p.index g ≡ some j
        → get_elem? p.pollfds j ≡ some x
        → owner x ≡ g
        → (moved.index g ≡ some (if owner z == g then i else j))
          × (get_elem? moved.pollfds (if owner z == g then i else j) ≡ some x)
    unfolding moved
    moved_get g j x ne ej ex ox = elim (Bool-cases (owner z == g)) [
      | inl same ↦
          let before : ltb i (length p.pollfds - 1) ≡ true = ground (arith, in_range) in
          let here : (i == i) ≡ true = ground arith in
          let zx : z ≡ x = ground (arith, end_place.0, at_end, ej, ex) in
          rw same (refl, moved_entry i ∙ rw (before, here) (ap some zx))
      | inr other ↦
          let apart = other_place g j ne (ej, (x, ex, ox)) in
          let inside : ltb j (length p.pollfds - 1) ≡ true =
            ground (arith, get_elem?_lt p.pollfds j ex, other_end g j other (ej, (x, ex, ox))) in
          rw other (ej, moved_entry j ∙ rw (inside, apart) ex)
    ]

    -- The owner of the last entry is not the channel that is removed.
    pub end_apart : (fd == owner z) ≡ false
    end_apart = ground (arith, end_place.0, at_i, in_range)

    moved_owned :
        (j : ℕ) (x : PollFd)
        → get_elem? moved.pollfds j ≡ some x
        → (moved.channels (owner x) ≡ true) × (moved.index (owner x) ≡ some j)
    unfolding moved
    moved_owned j x ex = elim (Bool-cases (i == j)) [
      | inl same ↦
          let zx : z ≡ x = ground (arith, ex, moved_entry j) in
          let ij : i ≡ j = ground arith in
          let zz : (owner z == owner z) ≡ true = ground arith in
          rw (← zx) (rw end_apart (v.owned (length p.pollfds - 1) z at_end).0, rw zz (ap some ij))
      | inr other ↦
          let old : get_elem? p.pollfds j ≡ some x = ground (arith, ex, moved_entry j) in
          let o = v.owned j x old in
          let apart : (fd == owner x) ≡ false = ground (arith, at_i, o.1) in
          let inside : j < length p.pollfds - 1 = ground (arith, ex, moved_entry j) in
          let end : (owner z == owner x) ≡ false = ground (arith, end_place.0, o.1) in
          (rw apart o.0, rw end o.1)
    ]

    pub moved-IsValid : IsValid moved
    unfolding moved
    moved-IsValid = record {
      placed = λ g rg.
          let ne : (fd == g) ≡ false = ground arith in
          let (j, (ej, (x, ex, ox))) = v.placed g (rw ne at rg) in
          let (index, holds) = moved_get g j x ne ej ex ox in
          (if owner z == g then i else j, (index, (x, holds, ox)));
      owned = λ j x ex. moved_owned j x ex;
    }
