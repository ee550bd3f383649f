-- ===== src/Connection/Watching.antt =====
-- Where the write list and the watched mask part: a file that the socket has no room for is not
-- waited for, and where they do not: `shutdown`, and `sendFile` that makes progress.
use netpoll_cpp.Base.{
  Bool-cases, List, [], ap, append-nil, append_assoc, arith, false, if◌then◌else◌, inl, inr, length,
  ltb, not, refl, sym, true, ℕ, ◌&&◌, ◌++◌, ◌+◌, ◌<◌, ◌==◌, ◌∙◌, ◌∷◌, ◌≡◌, ◌≤◌,
}
use netpoll_cpp.Buffer.Storage.{slice}
use netpoll_cpp.Channel.{is_writing}
use netpoll_cpp.Connection.{
  Answer, Connection, File, Node, connected, file, handle_write, is_connected, no_nodes, send_file,
  send_file_in_loop, shut_write, watch_writing, would_block, wrote,
}
use netpoll_cpp.Connection.Lifecycle.{shutdown}
use netpoll_cpp.Connection.Nodes.{AllValid, NodeIsValid, pending, pending-append}
use netpoll_cpp.Connection.Sending.{Sent, Watches, nodes_of_none, watch_writing_lem}
use netpoll_cpp.Connection.Writing.{sent_on, sent_on-stream}

-- What the program does after `sendFile`, in the thread of the loop.
pub data Later : Type 0 where
  room_event : Answer → Later
  another_file : File → Answer → Later

later : Later → Connection → Connection
unfolding handle_write send_file
later (room_event a) c = handle_write a c
later (another_file f a) c = send_file f a c

pub run_later : List Later → Connection → Connection
unfolding later
run_later [] c = c
run_later (l ∷ ls) c = run_later ls (later l c)

-- Something waits, and writing is not watched.
record Stalled (c : Connection) : Type 0 where
  waits : no_nodes c.nodes ≡ false
  off : is_writing c.channel ≡ false

-- A file that finds the list not empty goes to its end, and the kernel is not asked.
send_file_behind :
    (f : File) (a : Answer) (ns : List Node) (c : Connection)
    → c.nodes ≡ ns
    → no_nodes ns ≡ false
    → send_file f a c ≡ record c { nodes = ns ++ (file f ∷ []) }
unfolding send_file
send_file_behind f a [] c e h = cc
send_file_behind f a (n ∷ ns) c e h = rw e refl

no_nodes-append : (ns : List Node) (n : Node) → no_nodes (ns ++ (n ∷ [])) ≡ false
no_nodes-append [] n = refl
no_nodes-append (m ∷ ns) n = refl

later-Stalled :
    (l : Later) (c : Connection) → Stalled c → Stalled (later l c) × ((later l c).sent ≡ c.sent)
unfolding later handle_write
later-Stalled (room_event a) c s = rw s.off (s, refl)
later-Stalled (another_file f a) c s =
    rw (send_file_behind f a c.nodes c refl s.waits)
      (record { waits = no_nodes-append c.nodes (file f); off = s.off }, refl)

run_later-Stalled : (ls : List Later) (c : Connection) → Stalled c → (run_later ls c).sent ≡ c.sent
unfolding run_later
run_later-Stalled [] c s = refl
run_later-Stalled (l ∷ ls) c s =
    let (t, e) = later-Stalled l c s in run_later-Stalled ls (later l c) t ∙ e

-- `sendFile` on a connection with nothing to write, at a moment when the socket has no room: the
-- file waits and nothing watches for room, so that no later write event and no further file sends a
-- byte of it.
pub send_file_stalls :
    (f : File) (ls : List Later) (c : Connection)
    → c.nodes ≡ []
    → is_writing c.channel ≡ false
    → ((send_file f would_block c).nodes ≡ file f ∷ [])
      × ((run_later ls (send_file f would_block c)).sent ≡ c.sent)
unfolding send_file send_file_in_loop
send_file_stalls f ls c e off = rw e (
  refl,
  run_later-Stalled ls (record c { nodes = file f ∷ [] }) (record { waits = refl; off = off }),
)

alone-Sent :
    (f : File) (n : ℕ) (c : Connection)
    → c.nodes ≡ []
    → f.offset + f.to_send ≤ length f.content
    → n ≤ f.to_send
    → Sent (slice f.content f.offset f.to_send) c (watch_writing (sent_on n f [] c))
alone-Sent f n c e fv le =
    let w = watch_writing_lem (sent_on n f [] c) in
    record {
      bytes =
          sent_on-stream n f [] c le
          ∙ ap (λ l. c.sent ++ l) (append-nil (slice f.content f.offset f.to_send))
          ∙ ap (λ l. l ++ slice f.content f.offset f.to_send)
              (sym (append-nil c.sent) ∙ ap (λ l. c.sent ++ pending l) (sym e));
      valid = rw w.1 (omega arith, tt);
      watches = w.2 ∙ ap (λ l. not (no_nodes l)) (sym w.1);
    }

AllValid-append :
    (ns : List Node) (n : Node) → AllValid ns → NodeIsValid n → AllValid (ns ++ (n ∷ []))
AllValid-append [] n v w = (w, tt)
AllValid-append (m ∷ ns) n v w = (v.0, AllValid-append ns n v.1 w)

behind-Sent :
    (f : File) (c : Connection)
    → f.offset + f.to_send ≤ length f.content
    → AllValid c.nodes
    → Watches c
    → no_nodes c.nodes ≡ false
    → Sent (slice f.content f.offset f.to_send) c (record c { nodes = c.nodes ++ (file f ∷ []) })
behind-Sent f c fv v w some_node = record {
  bytes =
      ap (λ l. c.sent ++ l)
        (pending-append c.nodes (file f ∷ [])
          ∙ ap (λ l. pending c.nodes ++ l) (append-nil (slice f.content f.offset f.to_send)))
      ∙ sym (append_assoc c.sent (pending c.nodes) (slice f.content f.offset f.to_send));
  valid = AllValid-append c.nodes (file f) v fv;
  watches = w ∙ ap not (some_node ∙ sym (no_nodes-append c.nodes (file f)));
}

pub send_file_alone :
    (f : File) (n : ℕ) (c : Connection)
    → c.nodes ≡ []
    → (ltb n f.to_send && n == 0) ≡ false
    → send_file f (wrote n) c ≡ watch_writing (sent_on n f [] c)
unfolding send_file send_file_in_loop
send_file_alone f n c e goes = rw (e, goes) refl

-- `sendFile` where writing is watched just while something waits: the bytes of the file follow all
-- those that were sent or waited before, if the kernel takes a part of a file that finds nothing
-- waiting.
pub send_file-Sent :
    (f : File) (n : ℕ) (c : Connection)
    → f.offset + f.to_send ≤ length f.content
    → 0 < n
    → n ≤ f.to_send
    → AllValid c.nodes
    → Watches c
    → Sent (slice f.content f.offset f.to_send) c (send_file f (wrote n) c)
send_file-Sent f n c fv pos le v w = elim (Bool-cases (no_nodes c.nodes)) [
  | inl alone ↦
      let e = nodes_of_none c.nodes alone in
      rw (send_file_alone f n c e (ground arith)) (alone-Sent f n c e fv le)
  | inr behind ↦
      rw (send_file_behind f (wrote n) c.nodes c refl behind) (behind-Sent f c fv v w behind)
]

-- `shutdown` of a connected connection, where writing is watched just while something waits: the
-- writing side is closed at once if nothing waits, and otherwise nothing is reported yet.
pub shutdown_lem :
    (c : Connection)
    → c.status ≡ connected
    → Watches c
    → (shutdown c).notices ≡ c.notices ++ (if no_nodes c.nodes then shut_write ∷ [] else [])
unfolding shutdown
shutdown_lem c s w =
    let on : is_connected c.status ≡ true = ap is_connected s in
    elim (Bool-cases (no_nodes c.nodes)) [
      | inl done ↦ rw (on, w, done) refl
      | inr more ↦ rw (on, w, more) (sym (append-nil c.notices))
    ]
