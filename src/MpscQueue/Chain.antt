-- ===== src/MpscQueue/Chain.antt =====
-- The nodes from the tail to the head, in the order of the exchanges. Between two of them the link is
-- there, or the thread that made the second one is still to set it.
use netpoll_cpp.Base.{
  Bool, Bool-cases, List, Option, Option-cases, [], ap, arith, false, inl, inr, none, refl, set_at,
  some, sym, true, ℕ, ◌++◌, ◌<◌, ◌==◌, ◌>>=◌, ◌||◌, ◌∙◌, ◌∷◌, ◌≡◌, ◌≢◌, ◌≤◌, ◌⊎◌,
}
use netpoll_cpp.MpscQueue.{MpscQueue, dequeue, is_empty, link, swap_head}

-- `linking n` is the node behind which the maker of `n` will link it, while that is still to be done.
abbrev pub Joined : Option ℕ → Option ℕ → ℕ → ℕ → Type 0
Joined none next a n = next ≡ some n
Joined (some p) next a n = (p ≡ a) × (next ≡ none)

module _ {A : Type 0} where
  abbrev pub Chain : MpscQueue A → (ℕ → Option ℕ) → ℕ → List (ℕ × A) → Type 0
  Chain q linking a [] = a ≡ q.head
  Chain q linking a ((n, v) ∷ ns) =
      (a < n) × Joined (linking n) (q.next a) a n × (q.datum n ≡ some v) × Chain q linking n ns

  abbrev pub in_chain : ℕ → List (ℕ × A) → Bool
  in_chain n [] = false
  in_chain n ((m, v) ∷ ns) = n == m || in_chain n ns

  pub Chain-le-head :
      (q : MpscQueue A) (linking : ℕ → Option ℕ) (a : ℕ) (ns : List (ℕ × A))
      → Chain q linking a ns
      → a ≤ q.head
  Chain-le-head q linking a [] c = omega arith
  Chain-le-head q linking a ((n, v) ∷ ns) c = omega (arith, c.0, Chain-le-head q linking n ns c.3)

  in_chain-le :
      (q : MpscQueue A) (linking : ℕ → Option ℕ) (a n : ℕ) (ns : List (ℕ × A))
      → Chain q linking a ns
      → in_chain n ns ≡ true
      → a < n
  in_chain-le q linking a n [] c i = cc
  in_chain-le q linking a n ((m, v) ∷ ns) c i = elim (Bool-cases (n == m)) [
    | inl same ↦ ground (arith, c.0)
    | inr other ↦ let r = in_chain-le q linking m n ns c.3 (ground arith) in omega (arith, r, c.0)
  ]

  -- The node behind which another is to be linked is in the chain, or its start.
  pub Chain-le-linking :
      (q : MpscQueue A) (linking : ℕ → Option ℕ) (a n p : ℕ) (ns : List (ℕ × A))
      → Chain q linking a ns
      → in_chain n ns ≡ true
      → linking n ≡ some p
      → (a ≤ p) × (q.next p ≡ none) × (p < q.head)
  Chain-le-linking q linking a n p [] c i e = cc
  Chain-le-linking q linking a n p ((m, v) ∷ ns) c i e = elim (Bool-cases (n == m)) [
    | inl same ↦
        let nm : n ≡ m = ground arith in
        let lm : linking m ≡ some p = ap linking (sym nm) ∙ e in
        let j = rw lm at (c.1) in
        (
          omega (arith, j.0),
          ap q.next j.0 ∙ j.1,
          omega (arith, j.0, c.0, Chain-le-head q linking m ns c.3),
        )
    | inr other ↦
        let r = Chain-le-linking q linking m n p ns c.3 (ground arith) e in
        (omega (arith, r.0, c.0), r.1, r.2)
  ]

  -- An exchange appends the new node, which is still to be linked behind the old head.
  pub Chain-swap_head :
      (q : MpscQueue A) (linking : ℕ → Option ℕ) (v : A) (a : ℕ) (ns : List (ℕ × A))
      → q.head < q.fresh
      → q.next q.head ≡ none
      → Chain q linking a ns
      → Chain (swap_head v q).1 (set_at q.fresh (some q.head) linking) a (ns ++ ((q.fresh, v) ∷ []))
  unfolding swap_head
  Chain-swap_head q linking v a [] lt e c =
      let ff : (q.fresh == q.fresh) ≡ true = ground arith in
      let fa : (q.fresh == a) ≡ false = ground (arith, c) in
      (omega (arith, c), rw (fa, ff) (sym c, ap q.next c ∙ e), rw ff refl, refl)
  Chain-swap_head q linking v a ((n, w) ∷ ns) lt e c =
      let h = Chain-le-head q linking n ns c.3 in
      let fa : (q.fresh == a) ≡ false = ground (arith, c.0) in
      let fn : (q.fresh == n) ≡ false = ground arith in
      (c.0, rw (fa, fn) (c.1), rw fn (c.2), Chain-swap_head q linking v n ns lt e c.3)

  -- A store behind a node that lies before the chain's start does not touch the chain.
  Chain-link_before :
      (q : MpscQueue A) (linking : ℕ → Option ℕ) (a n p : ℕ) (ns : List (ℕ × A))
      → p < a
      → n ≤ a
      → Chain q linking a ns
      → Chain (link p n q) (set_at n none linking) a ns
  unfolding link
  Chain-link_before q linking a n p [] lt le c = c
  Chain-link_before q linking a n p ((m, w) ∷ ns) lt le c =
      let pa : (p == a) ≡ false = ground arith in
      let nm : (n == m) ≡ false = ground (arith, c.0) in
      (
        c.0,
        rw (pa, nm) (c.1),
        c.2,
        Chain-link_before q linking m n p ns (omega (arith, c.0)) (omega (arith, c.0)) c.3,
      )

  -- The store that ends an `enqueue` links its node, and keeps the chain.
  pub Chain-link :
      (q : MpscQueue A) (linking : ℕ → Option ℕ) (a n p : ℕ) (ns : List (ℕ × A))
      → Chain q linking a ns
      → in_chain n ns ≡ true
      → linking n ≡ some p
      → Chain (link p n q) (set_at n none linking) a ns
  unfolding link
  Chain-link q linking a n p [] c i e = cc
  Chain-link q linking a n p ((m, w) ∷ ns) c i e = elim (Bool-cases (n == m)) [
    | inl same ↦
        let nm : n ≡ m = ground arith in
        let j = rw (ap linking (sym nm) ∙ e) at (c.1) in
        let pa : (p == a) ≡ true = ground (arith, j.0) in
        (
          c.0,
          rw (pa, same) (ap some nm),
          c.2,
          Chain-link_before q linking m n p ns (omega (arith, j.0, c.0)) (omega (arith, nm)) c.3,
        )
    | inr other ↦
        let later : in_chain n ns ≡ true = ground arith in
        let r = Chain-le-linking q linking m n p ns c.3 later e in
        let pa : (p == a) ≡ false = ground (arith, c.0, r.0) in
        (c.0, rw (pa, other) (c.1), c.2, Chain-link q linking m n p ns c.3 later e)
  ]

  abbrev pub items : List (ℕ × A) → List A
  items [] = []
  items ((n, v) ∷ ns) = v ∷ items ns

  pub items-append :
      (ns : List (ℕ × A)) (n : ℕ) (v : A) → items (ns ++ ((n, v) ∷ [])) ≡ items ns ++ (v ∷ [])
  items-append [] n v = refl
  items-append ((m, w) ∷ ns) n v = ap (λ l. w ∷ l) (items-append ns n v)

  pub in_chain-append :
      (k n : ℕ) (v : A) (ns : List (ℕ × A))
      → in_chain k (ns ++ ((n, v) ∷ [])) ≡ (k == n || in_chain k ns)
  in_chain-append k n v [] = refl
  in_chain-append k n v ((m, w) ∷ ns) = ground (arith, in_chain-append k n v ns)

  -- Why a consumer finds nothing: the chain is empty, or the link to its first node is still to be
  -- set.
  abbrev pub Blocked : (ℕ → Option ℕ) → List (ℕ × A) → Type 0
  Blocked linking [] = Unit {0}
  Blocked linking ((n, v) ∷ ns) = linking n ≢ none

  -- Of a chain, `dequeue` takes the first node if it is linked.
  pub record Takes (q : MpscQueue A) (linking : ℕ → Option ℕ) (ns : List (ℕ × A)) : Type 0 where
    pub node : ℕ
    pub item : A
    pub rest : List (ℕ × A)
    pub nodes_eq : ns ≡ (node, item) ∷ rest
    pub dequeue_eq : dequeue q ≡ some (some item, record q { tail = node })
    pub not_empty : is_empty q ≡ false
    pub is_linked : linking node ≡ none
    pub chain : Chain q linking node rest

  pub dequeue_cases :
      (q : MpscQueue A) (linking : ℕ → Option ℕ) (ns : List (ℕ × A))
      → Chain q linking q.tail ns
      → q.next q.head ≡ none
      → ((dequeue q ≡ some (none, q)) × (is_empty q ≡ true) × Blocked linking ns)
        ⊎ Takes q linking ns
  unfolding dequeue is_empty
  dequeue_cases q linking [] c last =
      let e : q.next q.tail ≡ none = ap q.next c ∙ last in
      inl (rw (e, dequeue) refl, rw (e, is_empty) refl, tt)
  dequeue_cases q linking ((n, v) ∷ ns) c last = elim (Option-cases (linking n)) [
    | inl none_left ↦
        let e = rw none_left at (c.1) in
        inr (record {
          node = n;
          item = v;
          rest = ns;
          nodes_eq = refl;
          dequeue_eq = rw (e, dequeue, c.2, ◌>>=◌) refl;
          not_empty = rw (e, is_empty) refl;
          is_linked = none_left;
          chain = c.3;
        })
    | inr (p, waits) ↦
        let e = rw waits at (c.1) in
        inl (
          rw (e.1, dequeue) refl,
          rw (e.1, is_empty) refl,
          λ k. (let x : none ≡ some p = sym k ∙ waits in cc),
        )
  ]
