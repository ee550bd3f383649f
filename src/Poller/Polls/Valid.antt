-- ===== src/Poller/Polls/Valid.antt =====
-- The array of a `PollPoller` and the indices of its channels fit together.
use netpoll_cpp.Base.{
  Bool, Bool-cases, Option, [], ap, arith, false, get_elem?, get_elem?-append_one, get_elem?-set,
  get_elem?_lt, if◌then◌else◌, inl, inr, length, ltb, negsuc, none, pos, refl, set, set_at, some,
  sym, true, ℕ, ◌&&◌, ◌++◌, ◌==◌, ◌>>=◌, ◌||◌, ◌∙◌, ◌∷◌, ◌≡◌,
}
use netpoll_cpp.Channel.{Flags, is_none_event}
use netpoll_cpp.Poller.{wants}
use netpoll_cpp.Poller.Polls.{PollFd, PollPoller, owner}

-- What `poll` is asked to report for an entry; it passes over a negative descriptor.
abbrev pub asked : PollFd → Bool × Bool
asked x = elim x.fd [ pos n ↦ wants x.events | negsuc n ↦ (false, false) ]

abbrev pub asked_at : Option PollFd → Bool × Bool
asked_at none = (false, false)
asked_at (some x) = asked x

abbrev pub entry : PollPoller → ℕ → Option PollFd
entry p fd = p.index fd >>= λ i. get_elem? p.pollfds i

abbrev pub watched : PollPoller → ℕ → Bool × Bool
watched p fd = if p.channels fd then asked_at (entry p fd) else (false, false)

-- A channel may be updated if it is registered, or was never: one that was removed keeps its index.
abbrev pub accepts : PollPoller → ℕ → Bool
accepts p fd = p.channels fd || elim (p.index fd) [ none ↦ true | some i ↦ false ]

abbrev pub Places : PollPoller → ℕ → ℕ → Type 0
Places p fd i =
    (p.index fd ≡ some i) × ((x : PollFd) × (get_elem? p.pollfds i ≡ some x) × (owner x ≡ fd))

pub record IsValid (p : PollPoller) : Type 0 where
  -- Each registered channel has its entry at its index, and each entry belongs to such a channel.
  pub placed : (fd : ℕ) → p.channels fd ≡ true → (i : ℕ) × Places p fd i
  pub owned :
      (i : ℕ) (x : PollFd)
      → get_elem? p.pollfds i ≡ some x
      → (p.channels (owner x) ≡ true) × (p.index (owner x) ≡ some i)

-- The entry that an update writes.
abbrev pub renewed : ℕ → Flags → PollFd
renewed fd e = record { fd = if is_none_event e then negsuc fd else pos fd; events = e }

owner-renewed : (fd : ℕ) (e : Flags) → owner (renewed fd e) ≡ fd
owner-renewed fd e = elim (Bool-cases (is_none_event e)) [
  | inl ignored ↦ rw ignored refl
  | inr kept ↦ rw kept refl
]

-- Two registered channels have no common place.
pub same_owner : {p : PollPoller} {fd g i : ℕ} → IsValid p → Places p fd i → Places p g i → fd ≡ g
same_owner v (a, (x, ex, ox)) (b, (y, ey, oy)) =
    let same : x ≡ y = cc (sym ex ∙ ey) in sym ox ∙ ap owner same ∙ oy

pub place_of :
    (p : PollPoller) (fd i : ℕ)
    → IsValid p
    → p.channels fd ≡ true
    → p.index fd ≡ some i
    → Places p fd i
place_of p fd i v r e =
    let (j, (ej, rest)) = v.placed fd r in
    let same : j ≡ i = cc (sym ej ∙ e) in (e, rw (← same) rest)

module _ (fd : ℕ) (e : Flags) (p : PollPoller) (v : IsValid p) where
  unfoldable pub pushed : PollPoller
  pushed = record {
    pollfds = p.pollfds ++ (record { fd = pos fd; events = e } ∷ []);
    index = set_at fd (some (length p.pollfds)) p.index;
    channels = set_at fd true p.channels;
  }

  pub pushed-IsValid : p.index fd ≡ none → IsValid pushed
  unfolding pushed
  pushed-IsValid new_one = record {
    placed = λ g r. elim (Bool-cases (fd == g)) [
      | inl same ↦ (
        length p.pollfds,
        (
          rw same refl,
          (
            record { fd = pos fd; events = e },
            ground (
              arith,
              get_elem?-append_one p.pollfds (record { fd = pos fd; events = e })
                  (length p.pollfds),
            ),
            ground arith,
          ),
        ),
      )
      | inr other ↦
          let (j, (ej, (x, ex, ox))) = v.placed g (rw other at r) in
          (
            j,
            (
              rw other ej,
              (
                x,
                ground (
                  arith,
                  ex,
                  get_elem?_lt p.pollfds j ex,
                  get_elem?-append_one p.pollfds (record { fd = pos fd; events = e }) j,
                ),
                ox,
              ),
            ),
          )
    ];
    owned = λ i x ex. ground (
      arith,
      new_one,
      get_elem?-append_one p.pollfds (record { fd = pos fd; events = e }) i,
      v.owned i x,
    );
  }

  unfoldable pub rewritten : ℕ → PollPoller
  rewritten i = record p { pollfds = set p.pollfds i (renewed fd e) }

  pub rewritten-IsValid :
      (i : ℕ) → p.channels fd ≡ true → p.index fd ≡ some i → IsValid (rewritten i)
  unfolding rewritten
  rewritten-IsValid i r old = record {
    placed = λ g rg.
        let (j, (ej, (x, ex, ox))) = v.placed g rg in
        elim (Bool-cases (i == j)) [
          | inl same ↦
              let ij : i ≡ j = ground arith in
              let fg =
                same_owner {p = p} {fd = fd} {g = g} {i = i} v (place_of p fd i v r old)
                  (place_of p g i v rg (ej ∙ ap some (sym ij))) in
              (
                j,
                (
                  ej,
                  (
                    renewed fd e,
                    ground (
                      arith,
                      get_elem?_lt p.pollfds j ex,
                      get_elem?-set p.pollfds i j (renewed fd e),
                    ),
                    owner-renewed fd e ∙ fg,
                  ),
                ),
              )
          | inr other ↦
              (j, (ej, (x, ground (arith, ex, get_elem?-set p.pollfds i j (renewed fd e)), ox)))
        ];
    owned = λ j x ex. elim (Bool-cases (i == j && ltb i (length p.pollfds))) [
      | inl same ↦
          let here : renewed fd e ≡ x =
            ground (arith, ex, get_elem?-set p.pollfds i j (renewed fd e)) in
          let o : fd ≡ owner x = sym (owner-renewed fd e) ∙ ap owner here in
          let ij : i ≡ j = ground arith in
          (ap p.channels (sym o) ∙ r, ap p.index (sym o) ∙ old ∙ ap some ij)
      | inr other ↦ v.owned j x (ground (arith, ex, get_elem?-set p.pollfds i j (renewed fd e)))
    ];
  }
