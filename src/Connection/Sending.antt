-- ===== src/Connection/Sending.antt =====
-- `sendInLoop` and `sendFile`: no byte is lost, doubled or put out of order.
use mathlib.Core.Path.{ap₂}
use netpoll_cpp.Base.{
  Bool, Bool-cases, List, [], ap, append-nil, append_assoc, arith, drop, false, inl, inr, length,
  length-drop, ltb, not, refl, some, sym, take, take-append-drop, true, ℕ, ◌&&◌, ◌++◌, ◌+◌, ◌<◌,
  ◌^◌, ◌∙◌, ◌∷◌, ◌≡◌, ◌≢◌, ◌≤◌,
}
use netpoll_cpp.Buffer.{readable_bytes}
use netpoll_cpp.Channel.{is_writing}
use netpoll_cpp.Channel.Dispatch.{enable_writing_lem}
use netpoll_cpp.Connection.{
  Answer, Connection, Node, Notice, connected, fatal, high_water, is_connected, no_nodes, notify,
  queue_rest, send_connected, send_in_loop, take_written, watch_writing, would_block, wrote,
}
use netpoll_cpp.Connection.Nodes.{AllValid, Pushed, pending, push_last-Pushed}

-- What the kernel took and what waits, in this order.
abbrev pub stream : Connection → List ℕ
stream c = c.sent ++ pending c.nodes

-- While something waits, the loop watches for room in the socket, and only then.
abbrev pub Watches : Connection → Type 0
Watches c = is_writing c.channel ≡ not (no_nodes c.nodes)

-- The kernel took no more than it was offered, and did not fail.
abbrev pub Accepts : Answer → ℕ → Type 0
Accepts (wrote n) m = n ≤ m
Accepts would_block m = Unit {0}
Accepts fatal m = ⊥

-- What a call leaves that adds the bytes `xs` to the stream.
pub record Sent (xs : List ℕ) (c d : Connection) : Type 0 where
  pub bytes : stream d ≡ stream c ++ xs
  pub valid : AllValid d.nodes
  pub watches : Watches d

pub no_nodes_of_ne : (ns : List Node) → ns ≢ [] → no_nodes ns ≡ false
no_nodes_of_ne [] h = absurd (h refl)
no_nodes_of_ne (n ∷ ns) h = refl

-- What callbacks and watching leave alone.
pub notify_lem :
    (over : Bool) (n : Notice) (c : Connection)
    → ((notify over n c).sent ≡ c.sent)
      × ((notify over n c).nodes ≡ c.nodes)
      × ((notify over n c).channel ≡ c.channel)
      × ((notify over n c).status ≡ c.status)
notify_lem true n c = (refl, refl, refl, refl)
notify_lem false n c = (refl, refl, refl, refl)

pub watch_writing_lem :
    (c : Connection)
    → ((watch_writing c).sent ≡ c.sent)
      × ((watch_writing c).nodes ≡ c.nodes)
      × (is_writing (watch_writing c).channel ≡ true)
unfolding watch_writing
watch_writing_lem c = elim (Bool-cases (is_writing c.channel)) [
  | inl on ↦ rw on (refl, refl, on)
  | inr off ↦ rw off (refl, refl, (enable_writing_lem c.channel).0)
]

module _ (c : Connection) (xs : List ℕ) (ms : List Node) (over : Bool) (n : ℕ) where
  queued : Connection
  queued = notify over (high_water n) (watch_writing (record c { nodes = ms }))

  queued_fields : (queued.sent ≡ c.sent) × (queued.nodes ≡ ms) × (is_writing queued.channel ≡ true)
  unfolding queued
  queued_fields =
      let w = watch_writing_lem (record c { nodes = ms }) in
      let d = notify_lem over (high_water n) (watch_writing (record c { nodes = ms })) in
      (d.0 ∙ w.0, d.1 ∙ w.1, ap is_writing d.2 ∙ w.2)

  queued-Sent : Pushed xs c.nodes ms → Sent xs c queued
  queued-Sent p = record {
    bytes =
        ap₂ (λ s l. s ++ pending l) queued_fields.0 queued_fields.1
        ∙ ap (λ l. c.sent ++ l) p.bytes
        ∙ sym (append_assoc c.sent (pending c.nodes) xs);
    valid = rw queued_fields.1 p.valid;
    watches =
        queued_fields.2
        ∙ sym (ap not (no_nodes_of_ne ms p.some_node))
        ∙ ap (λ l. not (no_nodes l)) (sym queued_fields.1);
  }

queue_rest-Sent :
    (xs : List ℕ) (c : Connection)
    → AllValid c.nodes
    → Watches c
    → length (pending c.nodes) + length xs < 2 ^ 58
    → (d : Connection) × (queue_rest xs c ≡ some d) × Sent xs c d
unfolding queue_rest queued
queue_rest-Sent [] c v w h =
    (c, refl, record { bytes = sym (append-nil (stream c)); valid = v; watches = w })
queue_rest-Sent (x ∷ xs) c v w h =
    let (r, e, p) = push_last-Pushed (x ∷ xs) c.nodes v h in
    let over = c.high_water_set && ltb c.high_water_len (readable_bytes r.1) in
    (
      queued c (x ∷ xs) r.0 over (readable_bytes r.1),
      rw (e, queue_rest),
      queued-Sent c (x ∷ xs) r.0 over (readable_bytes r.1) p,
    )

pub nodes_of_none : (ns : List Node) → no_nodes ns ≡ true → ns ≡ []
nodes_of_none [] h = refl
nodes_of_none (n ∷ ns) h = cc

-- Nothing waits: the kernel takes the first `n` bytes, and the others are queued.
stream-take_written :
    (n : ℕ) (xs : List ℕ) (c : Connection)
    → c.nodes ≡ []
    → stream (take_written n xs c) ++ drop n xs ≡ stream c ++ xs
unfolding take_written
stream-take_written n xs c e =
    ap (λ l. ((c.sent ++ take n xs) ++ pending l) ++ drop n xs) e
    ∙ ap (λ l. l ++ drop n xs) (append-nil (c.sent ++ take n xs))
    ∙ append_assoc c.sent (take n xs) (drop n xs)
    ∙ ap (λ l. c.sent ++ l) (take-append-drop n xs)
    ∙ ap (λ l. l ++ xs) (sym (append-nil c.sent) ∙ ap (λ l. c.sent ++ pending l) (sym e))

send_direct :
    (xs : List ℕ) (n : ℕ) (c : Connection)
    → c.nodes ≡ []
    → AllValid c.nodes
    → Watches c
    → n ≤ length xs
    → length (pending c.nodes) + length xs < 2 ^ 58
    → (d : Connection) × (queue_rest (drop n xs) (take_written n xs c) ≡ some d) × Sent xs c d
unfolding take_written
send_direct xs n c e v w k h =
    let (d, q, r) =
      queue_rest-Sent (drop n xs) (take_written n xs c) v w (omega (arith, length-drop n xs)) in
    (
      d,
      q,
      record {
        bytes = r.bytes ∙ stream-take_written n xs c e;
        valid = r.valid;
        watches = r.watches;
      },
    )

send_connected-Sent :
    (xs : List ℕ) (a : Answer) (c : Connection)
    → AllValid c.nodes
    → Watches c
    → Accepts a (length xs)
    → length (pending c.nodes) + length xs < 2 ^ 58
    → (d : Connection) × (send_connected xs a c ≡ some d) × Sent xs c d
unfolding send_connected
send_connected-Sent xs fatal c v w k h = absurd k
send_connected-Sent xs would_block c v w k h =
    let (d, q, r) = queue_rest-Sent xs c v w h in
    elim (Bool-cases (not (is_writing c.channel) && no_nodes c.nodes)) [
      | inl direct ↦ rw direct (d, q, r)
      | inr queue ↦ rw queue (d, q, r)
    ]
send_connected-Sent xs (wrote n) c v w k h =
    elim (Bool-cases (not (is_writing c.channel) && no_nodes c.nodes)) [
      | inl direct ↦ rw direct (send_direct xs n c (nodes_of_none c.nodes (ground arith)) v w k h)
      | inr queue ↦ rw queue (queue_rest-Sent xs c v w h)
    ]

-- `sendInLoop` on a connected connection returns, and the bytes follow all those that were sent or
-- waited before, if the kernel does not fail.
pub send_in_loop-Sent :
    (xs : List ℕ) (a : Answer) (c : Connection)
    → c.status ≡ connected
    → AllValid c.nodes
    → Watches c
    → Accepts a (length xs)
    → length (pending c.nodes) + length xs < 2 ^ 58
    → (d : Connection) × (send_in_loop xs a c ≡ some d) × Sent xs c d
unfolding send_in_loop
send_in_loop-Sent xs a c s v w k h =
    let on : is_connected c.status ≡ true = ap is_connected s in
    rw on (send_connected-Sent xs a c v w k h)

-- A connection that is not connected drops what it is given to send, and changes nothing.
pub send_in_loop_refused :
    (xs : List ℕ) (a : Answer) (c : Connection)
    → c.status ≢ connected
    → send_in_loop xs a c ≡ some c
unfolding send_in_loop
send_in_loop_refused xs a c ne = ground arith
