-- ===== src/MpscQueue/Runs.antt =====
-- Any number of producers and one consumer, in any interleaving of their accesses.
use netpoll_cpp.Base.{
  List, Option, [], ap, append-nil, append_assoc, arith, false, inl, inr, none, refl, set_at, some,
  sym, true, ℕ, ◌++◌, ◌<◌, ◌==◌, ◌∙◌, ◌∷◌, ◌≡◌, ◌≢◌, ◌≤◌,
}
use netpoll_cpp.MpscQueue.{MpscQueue, dequeue, is_empty, link, new_queue, swap_head}
use netpoll_cpp.MpscQueue.Chain.{
  Blocked, Chain, Chain-le-linking, Chain-link, Chain-swap_head, Takes, dequeue_cases, in_chain,
  in_chain-append, items, items-append,
}

-- The queue; for each node made whose link is still to be set, the node behind which that will be;
-- the items in the order of their exchanges; and those that the consumer got.
pub record Run (A : Type 0) : Type 0 where
  pub queue : MpscQueue A
  pub linking : ℕ → Option ℕ
  pub queued : List A
  pub taken : List A

module _ {A : Type 0} where
  abbrev pub swapped : A → Run A → Run A
  swapped v c = record {
    queue = (swap_head v c.queue).1;
    linking = set_at c.queue.fresh (some (swap_head v c.queue).0) c.linking;
    queued = c.queued ++ (v ∷ []);
    taken = c.taken;
  }

  abbrev pub linked : ℕ → ℕ → Run A → Run A
  linked n p c = record c { queue = link p n c.queue; linking = set_at n none c.linking }

  abbrev pub took : A → MpscQueue A → Run A → Run A
  took v q c = record c { queue = q; taken = c.taken ++ (v ∷ []) }

  pub data Step (c : Run A) : Run A → Type 0 where
    swaps : (v : A) → Step c (swapped v c)
    links : (n p : ℕ) → c.linking n ≡ some p → Step c (linked n p c)
    takes : (v : A) (q : MpscQueue A) → dequeue c.queue ≡ some (some v, q) → Step c (took v q c)

  abbrev pub new_run : Run A
  new_run = record { queue = new_queue; linking = λ n. none; queued = []; taken = [] }

  pub data Reach : Run A → Type 0 where
    start : Reach new_run
    later : {c d : Run A} → Reach c → Step c d → Reach d

  pub nil_of_Blocked :
      (linking : ℕ → Option ℕ) (ns : List (ℕ × A))
      → ((n : ℕ) → linking n ≡ none)
      → Blocked linking ns
      → ns ≡ []
  nil_of_Blocked linking [] quiet b = refl
  nil_of_Blocked linking ((n, v) ∷ ns) quiet b = absurd (b (quiet n))

  -- The nodes behind the tail hold what is queued and not yet taken.
  pub record IsFifo (c : Run A) : Type 0 where
    pub nodes : List (ℕ × A)
    pub chain : Chain c.queue c.linking c.queue.tail nodes
    pub in_order : c.queued ≡ c.taken ++ items nodes
    pub all_in : (n p : ℕ) → c.linking n ≡ some p → in_chain n nodes ≡ true
    pub allocated : c.queue.head < c.queue.fresh
    pub last : c.queue.next c.queue.head ≡ none

  pub swapped-IsFifo : (v : A) (c : Run A) → IsFifo c → IsFifo (swapped v c)
  unfolding swap_head
  swapped-IsFifo v c h = record {
    nodes = h.nodes ++ ((c.queue.fresh, v) ∷ []);
    chain = Chain-swap_head c.queue c.linking v c.queue.tail h.nodes h.allocated h.last h.chain;
    in_order =
        ap (λ l. l ++ (v ∷ [])) h.in_order
        ∙ append_assoc c.taken (items h.nodes) (v ∷ [])
        ∙ ap (λ l. c.taken ++ l) (sym (items-append h.nodes c.queue.fresh v));
    all_in = λ n p e. ground (arith, h.all_in n p, in_chain-append n c.queue.fresh v h.nodes);
    allocated = omega arith;
    last = (let ff : (c.queue.fresh == c.queue.fresh) ≡ true = ground arith in rw ff refl);
  }

  pub linked-IsFifo :
      (n p : ℕ) (c : Run A) → c.linking n ≡ some p → IsFifo c → IsFifo (linked n p c)
  unfolding link
  linked-IsFifo n p c e h = record {
    nodes = h.nodes;
    chain = Chain-link c.queue c.linking c.queue.tail n p h.nodes h.chain (h.all_in n p e) e;
    in_order = h.in_order;
    all_in = λ m r f. ground (arith, h.all_in m r);
    allocated = h.allocated;
    last =
        (let r =
            Chain-le-linking c.queue c.linking c.queue.tail n p h.nodes h.chain (h.all_in n p e)
              e in
          let other : (p == c.queue.head) ≡ false = ground (arith, r.2) in rw other h.last);
  }

  Takes-IsFifo :
      (c : Run A) (h : IsFifo c) (t : Takes c.queue c.linking h.nodes)
      → IsFifo (took t.item (record c.queue { tail = t.node }) c)
  Takes-IsFifo c h t = record {
    nodes = t.rest;
    chain = t.chain;
    in_order =
        h.in_order
        ∙ ap (λ ns. c.taken ++ items ns) t.nodes_eq
        ∙ sym (append_assoc c.taken (t.item ∷ []) (items t.rest));
    all_in = λ n p e. all_rest n p e;
    allocated = h.allocated;
    last = h.last;
  }
    where
      all_rest : (n p : ℕ) → c.linking n ≡ some p → in_chain n t.rest ≡ true
      all_rest n p e = ground (arith, h.all_in n p, ap (in_chain n) t.nodes_eq, t.is_linked)

  pub took-IsFifo :
      (v : A) (q : MpscQueue A) (c : Run A)
      → dequeue c.queue ≡ some (some v, q)
      → IsFifo c
      → IsFifo (took v q c)
  took-IsFifo v q c e h = elim (dequeue_cases c.queue c.linking h.nodes h.chain h.last) [
    | inl (nothing, empty, blocked) ↦ cc
    | inr t ↦
        let same_item : t.item ≡ v = cc (sym t.dequeue_eq ∙ e) in
        let same_queue : record c.queue { tail = t.node } ≡ q = cc (sym t.dequeue_eq ∙ e) in
        rw (← same_item, ← same_queue) (Takes-IsFifo c h t)
  ]

  Step-IsFifo : {c d : Run A} → Step c d → IsFifo c → IsFifo d
  Step-IsFifo {c = c} (swaps v) h = swapped-IsFifo v c h
  Step-IsFifo {c = c} (links n p e) h = linked-IsFifo n p c e h
  Step-IsFifo {c = c} (takes v q e) h = took-IsFifo v q c e h

  new_run-IsFifo : IsFifo new_run
  unfolding new_queue
  new_run-IsFifo = record {
    nodes = [];
    chain = refl;
    in_order = refl;
    all_in = λ n p e. cc;
    allocated = omega arith;
    last = refl;
  }

  Reach-IsFifo : {c : Run A} → Reach c → IsFifo c
  Reach-IsFifo start = new_run-IsFifo
  Reach-IsFifo (later r t) = Step-IsFifo t (Reach-IsFifo r)

  -- Whatever the interleaving, the consumer gets the items in the order of the exchanges, each once,
  -- and `dequeue` never reads an item that is not there.
  pub dequeue_in_order :
      {c : Run A}
      → Reach c
      → (dequeue c.queue ≢ none) × ((rest : List A) × (c.queued ≡ c.taken ++ rest))
  dequeue_in_order {c} r =
      let h = Reach-IsFifo r in
      (
        elim (dequeue_cases c.queue c.linking h.nodes h.chain h.last) [
          | inl (nothing, empty, blocked) ↦ λ e. cc
          | inr t ↦ λ e. (let d = t.dequeue_eq in cc)
        ],
        (items h.nodes, h.in_order),
      )

  -- A producer that is still to store its link stores it into a node that the consumer has not
  -- deleted, and whose link is not set: no store goes to freed memory or overwrites another.
  pub link_is_live :
      {c : Run A} (n p : ℕ)
      → Reach c
      → c.linking n ≡ some p
      → (c.queue.tail ≤ p) × (c.queue.next p ≡ none)
  link_is_live {c} n p r e =
      let h = Reach-IsFifo r in
      let l =
        Chain-le-linking c.queue c.linking c.queue.tail n p h.nodes h.chain (h.all_in n p e) e in
      (l.0, l.1)

  -- A queue that is empty, while no producer is within `enqueue`, has given out all its items.
  pub empty_lem :
      {c : Run A}
      → Reach c
      → ((n : ℕ) → c.linking n ≡ none)
      → is_empty c.queue ≡ true
      → c.taken ≡ c.queued
  empty_lem {c} r quiet empty =
      let h = Reach-IsFifo r in
      elim (dequeue_cases c.queue c.linking h.nodes h.chain h.last) [
        | inl (nothing, e, blocked) ↦ sym (
            h.in_order
            ∙ ap (λ ns. c.taken ++ items ns) (nil_of_Blocked c.linking h.nodes quiet blocked)
            ∙ append-nil c.taken)
        | inr t ↦ cc (t.not_empty)
      ]
