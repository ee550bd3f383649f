-- ===== src/Connection/Senders/Order.antt =====
-- The order in which the messages of `send` reach `sendInLoop`.
use mathlib.Core.Path.{ap₂}
use netpoll_cpp.Base.{
  Bool, Bool-cases, List, [], ap, append-nil, append_assoc, arith, false, if◌then◌else◌, inl, inr,
  length, length-append, nil_of_length, refl, set_at, sym, true, ℕ, ◌++◌, ◌+◌, ◌==◌, ◌∙◌, ◌∷◌, ◌≡◌,
  ◌≤◌,
}
use netpoll_cpp.Connection.Senders.{
  Reach, Senders, Step, counts, counts_down, counts_own, give, later, of_thread, plus_send_num,
  queues, runs, sends_now, start,
}

of_thread-append :
    (t : ℕ) (xs ys : List (ℕ × ℕ)) → of_thread t (xs ++ ys) ≡ of_thread t xs ++ of_thread t ys
unfolding of_thread
of_thread-append t [] ys = refl
of_thread-append t (x ∷ xs) ys = ground (arith, of_thread-append t xs ys)

of_thread-append_one :
    (t u m : ℕ) (xs : List (ℕ × ℕ))
    → of_thread t (xs ++ ((u, m) ∷ []))
      ≡ (if u == t then of_thread t xs ++ (m ∷ []) else of_thread t xs)
unfolding of_thread
of_thread-append_one t u m [] = ground arith
of_thread-append_one t u m (x ∷ xs) = ground (arith, of_thread-append_one t u m xs)

-- One more message of a thread.
one_more :
    (t u m : ℕ) (given : ℕ → List ℕ) (xs : List ℕ)
    → xs ≡ given t
    → (if u == t then xs ++ (m ∷ []) else xs) ≡ set_at u (given u ++ (m ∷ [])) given t
one_more t u m given xs h = elim (Bool-cases (u == t)) [
  | inl same ↦ let e : t ≡ u = ground arith in rw same (ap (λ ys. ys ++ (m ∷ [])) (h ∙ ap given e))
  | inr other ↦ rw other h
]

-- A message that is put at the end.
put_last :
    (test : Bool) (xs ys zs : List ℕ) (m : ℕ)
    → xs ++ ys ++ (if test then zs ++ (m ∷ []) else zs)
      ≡ (if test then (xs ++ ys ++ zs) ++ (m ∷ []) else xs ++ ys ++ zs)
put_last true xs ys zs m = sym (append_assoc (xs ++ ys) zs (m ∷ []))
put_last false xs ys zs m = refl

-- A message that goes from the head of one list to the end of the other before it.
handed_on :
    (test : Bool) (xs ys zs : List ℕ) (m : ℕ)
    → (if test then xs ++ (m ∷ []) else xs) ++ ys ++ zs ≡ xs ++ (if test then m ∷ ys else ys) ++ zs
handed_on true xs ys zs m = ap (λ l. l ++ zs) (append_assoc xs (m ∷ []) ys)
handed_on false xs ys zs m = refl

fewer :
    (test : Bool) (before after : List ℕ) (m : ℕ)
    → length (before ++ (if test then m ∷ after else after)) ≤ 1
    → length (before ++ after) ≤ 1
fewer true before after m h =
    omega (arith, h, length-append before after, length-append before (m ∷ after))
fewer false before after m h = h

-- A message that leaves the middle of the last list for the end of the one before it.
moved_on :
    (test : Bool) (xs ys before after : List ℕ) (m : ℕ)
    → length (before ++ (if test then m ∷ after else after)) ≤ 1
    → xs ++ (if test then ys ++ (m ∷ []) else ys) ++ (before ++ after)
      ≡ xs ++ ys ++ (before ++ (if test then m ∷ after else after))
moved_on true xs ys [] after m h =
    ap (λ l. l ++ after) (sym (append_assoc xs ys (m ∷ [])))
    ∙ append_assoc (xs ++ ys) (m ∷ []) after
moved_on true xs ys (b ∷ before) after m h =
    absurd (omega (arith, h, length-append before (m ∷ after)))
moved_on false xs ys before after m h = refl

-- `m_sendNum` counts the messages between `send` and the end of their functors; each thread is within
-- one `send` at most; and a thread's messages are sent, queued and counted in the order of its calls.
pub record IsOrdered (s : Senders) : Type 0 where
  pub counts_all : s.send_num ≡ length s.counted + length s.queued + (if s.sending then 1 else 0)
  pub one_each : (t : ℕ) → length (of_thread t s.counted) ≤ 1
  pub in_order :
      (t : ℕ) → of_thread t s.sent ++ of_thread t s.queued ++ of_thread t s.counted ≡ s.given t

sends_now-IsOrdered :
    (s : Senders) (m : ℕ)
    → IsOrdered s
    → s.send_num ≡ 0
    → IsOrdered (record (give 0 m s) { sent = s.sent ++ ((0, m) ∷ []) })
unfolding of_thread
sends_now-IsOrdered s m h z = record {
  counts_all = h.counts_all;
  one_each = h.one_each;
  in_order = λ t.
      let c : s.counted ≡ [] = nil_of_length s.counted (omega (arith, h.counts_all, z)) in
      let q : s.queued ≡ [] = nil_of_length s.queued (omega (arith, h.counts_all, z)) in
      let only : (l : List ℕ) → l ++ of_thread t s.queued ++ of_thread t s.counted ≡ l = λ l.
        ap₂ (λ x y. l ++ of_thread t x ++ of_thread t y) q c
        ∙ append-nil (l ++ [])
        ∙ append-nil l in
      only (of_thread t (s.sent ++ ((0, m) ∷ [])))
      ∙ of_thread-append_one t 0 m s.sent
      ∙ one_more t 0 m s.given (of_thread t s.sent)
          (sym (only (of_thread t s.sent)) ∙ h.in_order t);
}

plus-IsOrdered :
    (s : Senders) (u m : ℕ)
    → IsOrdered s
    → of_thread u s.counted ≡ []
    → IsOrdered (plus_send_num u m s)
plus-IsOrdered s u m h e = record {
  counts_all = ground (arith, h.counts_all, length-append s.counted ((u, m) ∷ []));
  one_each = λ t. rw (of_thread-append_one t u m s.counted) (elim (Bool-cases (u == t)) [
    | inl same ↦ let e' : t ≡ u = ground arith in rw (same, e', e) (omega arith)
    | inr other ↦ rw other (h.one_each t)
  ]);
  in_order = λ t.
      ap (λ l. of_thread t s.sent ++ of_thread t s.queued ++ l)
        (of_thread-append_one t u m s.counted)
      ∙ put_last (u == t) (of_thread t s.sent) (of_thread t s.queued) (of_thread t s.counted) m
      ∙ one_more t u m s.given (of_thread t s.sent ++ of_thread t s.queued ++ of_thread t s.counted)
          (h.in_order t);
}

runs-IsOrdered :
    (s : Senders) (u m : ℕ) (rest : List (ℕ × ℕ))
    → IsOrdered s
    → s.sending ≡ false
    → s.queued ≡ (u, m) ∷ rest
    → IsOrdered (record s { queued = rest; sending = true; sent = s.sent ++ ((u, m) ∷ []) })
unfolding of_thread
runs-IsOrdered s u m rest h off e = record {
  counts_all = ground (arith, h.counts_all, off, ap length e);
  one_each = h.one_each;
  in_order = λ t.
      ap (λ l. l ++ of_thread t rest ++ of_thread t s.counted) (of_thread-append_one t u m s.sent)
      ∙ handed_on (u == t) (of_thread t s.sent) (of_thread t rest) (of_thread t s.counted) m
      ∙ ap (λ q. of_thread t s.sent ++ of_thread t q ++ of_thread t s.counted) (sym e)
      ∙ h.in_order t;
}

queues-IsOrdered :
    (s : Senders) (before after : List (ℕ × ℕ)) (u m : ℕ)
    → IsOrdered s
    → s.counted ≡ before ++ ((u, m) ∷ after)
    → IsOrdered (record s { counted = before ++ after; queued = s.queued ++ ((u, m) ∷ []) })
unfolding of_thread
queues-IsOrdered s before after u m h e =
    let split : (t : ℕ)
        → of_thread t s.counted
          ≡ of_thread t before ++ (if u == t then m ∷ of_thread t after else of_thread t after) =
      λ t. ap (of_thread t) e ∙ of_thread-append t before ((u, m) ∷ after) in
    record {
      counts_all = ground (
        arith,
        h.counts_all,
        ap length e,
        length-append before after,
        length-append before ((u, m) ∷ after),
        length-append s.queued ((u, m) ∷ []),
      );
      one_each = λ t. rw (of_thread-append t before after) (
          fewer (u == t) (of_thread t before) (of_thread t after) m
            (rw (split t) at (h.one_each t)));
      in_order = λ t.
          ap₂ (λ x y. of_thread t s.sent ++ x ++ y) (of_thread-append_one t u m s.queued)
            (of_thread-append t before after)
          ∙ moved_on (u == t) (of_thread t s.sent) (of_thread t s.queued) (of_thread t before)
              (of_thread t after) m (rw (split t) at (h.one_each t))
          ∙ ap (λ l. of_thread t s.sent ++ of_thread t s.queued ++ l) (sym (split t))
          ∙ h.in_order t;
    }

Step-IsOrdered : {s u : Senders} → Step s u → IsOrdered s → IsOrdered u
Step-IsOrdered {s = s} (sends_now m z) h = sends_now-IsOrdered s m h z
Step-IsOrdered {s = s} (counts_own m n e) h = plus-IsOrdered s 0 m h e
Step-IsOrdered {s = s} (counts t m n e) h = plus-IsOrdered s t m h e
Step-IsOrdered {s = s} (queues before after t m e) h = queues-IsOrdered s before after t m h e
Step-IsOrdered {s = s} (runs t m rest off e) h = runs-IsOrdered s t m rest h off e
Step-IsOrdered {s = s} (counts_down n on e) h = record {
  counts_all = ground (arith, h.counts_all, on, e);
  one_each = h.one_each;
  in_order = h.in_order;
}

Reach-IsOrdered : {s : Senders} → Reach s → IsOrdered s
unfolding of_thread
Reach-IsOrdered start = record {
  counts_all = refl;
  one_each = λ t. omega arith;
  in_order = λ t. refl;
}
Reach-IsOrdered (later r t) = Step-IsOrdered t (Reach-IsOrdered r)

-- Whatever the threads do, the messages of each are sent in the order in which it gave them.
pub sent_in_order :
    {s : Senders} (t : ℕ) → Reach s → (rest : List ℕ) × (of_thread t s.sent ++ rest ≡ s.given t)
sent_in_order {s} t r =
    let o = (Reach-IsOrdered r).in_order t in
    (
      of_thread t s.queued ++ of_thread t s.counted,
      sym (append_assoc (of_thread t s.sent) (of_thread t s.queued) (of_thread t s.counted)) ∙ o,
    )
