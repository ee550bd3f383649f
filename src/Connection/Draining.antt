-- ===== src/Connection/Draining.antt =====
-- `handleWrite`, called as often as the socket has room: the write list becomes empty.
use netpoll_cpp.Base.{
  Bool-cases, List, [], ap, append-nil, arith, false, if◌then◌else◌, inl, inr, length, length-drop,
  ltb, not, refl, suc, sym, true, zero, ℕ, ◌&&◌, ◌++◌, ◌+◌, ◌-◌, ◌==◌, ◌∙◌, ◌∷◌, ◌≡◌, ◌≢◌,
}
use netpoll_cpp.Buffer.{MessageBuffer, contents, readable_bytes, retrieve}
use netpoll_cpp.Buffer.Bounds.{IsValid, length-contents}
use netpoll_cpp.Buffer.Storage.{length-slice}
use netpoll_cpp.Buffer.Take.{retrieve-Left}
use netpoll_cpp.Channel.{disable_writing, is_writing}
use netpoll_cpp.Connection.{
  Answer, Connection, File, Node, file, finish_front, handle_write, is_disconnecting, msg, no_nodes,
  notify, send_file_in_loop, send_next, shut_write, take_written, unwatch_writing, write_complete,
  write_front, write_nodes, wrote,
}
use netpoll_cpp.Connection.Nodes.{AllValid, node_bytes, pending}
use netpoll_cpp.Connection.Sending.{Watches, no_nodes_of_ne, notify_lem, stream, watch_writing_lem}
use netpoll_cpp.Connection.WriteEvent.{handle_write-Kept, offered_first}
use netpoll_cpp.Connection.Writing.{Kept, offered, sent_on}

-- The kernel takes all that it is offered, `n` times.
pub drain : ℕ → Connection → Connection
unfolding handle_write
drain zero c = c
drain (suc n) c = drain n (handle_write (wrote (offered_first c.nodes)) c)

-- The node in front is finished, and writing is watched.
record Spent (n : Node) (ns : List Node) (c : Connection) : Type 0 where
  nodes : c.nodes ≡ n ∷ ns
  spent : length (node_bytes n) ≡ 0
  on : is_writing c.channel ≡ true

file_sent :
    (f : File) (ns : List Node) (c : Connection)
    → (n : Node) × Spent n ns (send_file_in_loop f ns (wrote f.to_send) c)
unfolding send_file_in_loop
file_sent f ns c =
    let w = watch_writing_lem (sent_on f.to_send f ns c) in
    let whole : (ltb f.to_send f.to_send && f.to_send == 0) ≡ false = ground arith in
    let g : File = record f { offset = f.offset + f.to_send; to_send = f.to_send - f.to_send } in
    (
      file g,
      rw whole (record {
        nodes = w.1;
        spent = length-slice g.content g.offset g.to_send ∙ omega arith;
        on = w.2;
      }),
    )

buffer_written :
    (b : MessageBuffer) (ns : List Node) (c : Connection)
    → IsValid b
    → is_writing c.channel ≡ true
    → (n : Node) × Spent n ns (write_front b ns (wrote (length (contents b))) c)
unfolding write_front take_written
buffer_written b ns c v on =
    let l = retrieve-Left (length (contents b)) v in
    (
      msg (retrieve (length (contents b)) b),
      record {
        nodes = refl;
        spent =
            ap (λ (s : List ℕ). length s) l.bytes
            ∙ length-drop (length (contents b)) (contents b)
            ∙ omega arith;
        on = on;
      },
    )

node_sent :
    (m : Node) (ns : List Node) (c : Connection)
    → AllValid (m ∷ ns)
    → is_writing c.channel ≡ true
    → (n : Node) × Spent n ns (send_next (m ∷ ns) (wrote (length (node_bytes m))) c)
unfolding send_next
node_sent (msg b) ns c v on = buffer_written b ns c v.0.0 on
node_sent (file f) ns c v on = rw (length-slice f.content f.offset f.to_send) (file_sent f ns c)

-- What `handleWrite` does with a finished node.
write_nodes_spent :
    (n : Node) (ns : List Node) (a : Answer) (c : Connection)
    → length (node_bytes n) ≡ 0
    → write_nodes (n ∷ ns) a c ≡ finish_front ns a c
unfolding write_nodes
write_nodes_spent (msg b) ns a c z =
    let e : (readable_bytes b == 0) ≡ true = ground (arith, length-contents b) in rw e refl
write_nodes_spent (file f) ns a c z =
    let e : (f.to_send == 0) ≡ true = ground (arith, length-slice f.content f.offset f.to_send) in
    rw e refl

handle_write_nodes :
    (a : Answer) (c : Connection)
    → is_writing c.channel ≡ true
    → handle_write a c ≡ write_nodes c.nodes a c
unfolding handle_write
handle_write_nodes a c on = rw on refl

handle_write-Spent :
    (n : Node) (ns : List Node) (c : Connection)
    → Spent n ns c
    → handle_write (wrote (offered_first c.nodes)) c ≡ finish_front ns (wrote (offered ns)) c
unfolding handle_write
handle_write-Spent n ns c s =
    let first : offered_first (n ∷ ns) ≡ offered ns = rw s.spent refl in
    ap (λ m. handle_write (wrote m) c) (ap offered_first s.nodes ∙ first)
    ∙ handle_write_nodes (wrote (offered ns)) c s.on
    ∙ ap (λ l. write_nodes l (wrote (offered ns)) c) s.nodes
    ∙ write_nodes_spent n ns (wrote (offered ns)) c s.spent

finished : (a : Answer) (c : Connection) → (finish_front [] a c).nodes ≡ []
unfolding finish_front unwatch_writing
finished a c =
    let d : Connection = record c { nodes = []; channel = disable_writing c.channel } in
    (notify_lem (is_disconnecting c.status) shut_write
      (notify c.write_complete_set write_complete d)).1
    ∙ (notify_lem c.write_complete_set write_complete d).1

drain-Spent :
    (n : Node) (ns : List Node) (c : Connection)
    → AllValid ns
    → Spent n ns c
    → (drain (suc (length ns)) c).nodes ≡ []
unfolding drain finish_front
drain-Spent n [] c v s = ap (λ d. d.nodes) (handle_write-Spent n [] c s) ∙ finished (wrote 0) c
drain-Spent n (m ∷ ns) c v s =
    let (k, t) = node_sent m ns (record c { nodes = m ∷ ns }) v s.on in
    ap (λ d. (drain (suc (length ns)) d).nodes) (handle_write-Spent n (m ∷ ns) c s)
    ∙ drain-Spent k ns
        (send_next (m ∷ ns) (wrote (length (node_bytes m))) (record c { nodes = m ∷ ns })) v.1 t

-- A node that is not finished is written first.
write_nodes_more :
    (n : Node) (ns : List Node) (a : Answer) (c : Connection)
    → length (node_bytes n) ≢ 0
    → write_nodes (n ∷ ns) a c ≡ send_next (n ∷ ns) a c
unfolding write_nodes send_next
write_nodes_more (msg b) ns a c z =
    let e : (readable_bytes b == 0) ≡ false = ground (arith, length-contents b) in rw e refl
write_nodes_more (file f) ns a c z =
    let e : (f.to_send == 0) ≡ false = ground (arith, length-slice f.content f.offset f.to_send) in
    rw e refl

drain_front :
    (n : Node) (ns : List Node) (c : Connection)
    → AllValid (n ∷ ns)
    → c.nodes ≡ n ∷ ns
    → is_writing c.channel ≡ true
    → length (node_bytes n) ≢ 0
    → (drain (suc (suc (length ns))) c).nodes ≡ []
unfolding drain
drain_front n ns c v e on more =
    let a = length (node_bytes n) in
    let k : (a == 0) ≡ false = ground arith in
    let first : offered_first (n ∷ ns) ≡ a = rw k refl in
    let (m, t) = node_sent n ns c v on in
    ap (λ d. (drain (suc (length ns)) d).nodes)
      (ap (λ o. handle_write (wrote o) c) (ap offered_first e ∙ first)
        ∙ handle_write_nodes (wrote a) c on
        ∙ ap (λ l. write_nodes l (wrote a) c) e
        ∙ write_nodes_more n ns (wrote a) c more)
    ∙ drain-Spent m ns (send_next (n ∷ ns) (wrote a) c) v.1 t

drain-Kept : (k : ℕ) (c : Connection) → AllValid c.nodes → Watches c → Kept c (drain k c)
unfolding drain handle_write
drain-Kept zero c v w = record { bytes = refl; valid = v; watches = w }
drain-Kept (suc k) c v w = elim (Bool-cases (no_nodes c.nodes)) [
  | inl done ↦
      let off : is_writing c.channel ≡ false = w ∙ ap not done in
      let same : handle_write (wrote (offered_first c.nodes)) c ≡ c = rw off refl in
      rw same (drain-Kept k c v w)
  | inr more ↦
      let d = handle_write (wrote (offered_first c.nodes)) c in
      let r =
        handle_write-Kept (wrote (offered_first c.nodes)) c v
          (λ p. let e : no_nodes c.nodes ≡ true = ap no_nodes p in cc) (w ∙ ap not more)
          (omega arith) in
      let q = drain-Kept k d r.valid r.watches in
      record { bytes = q.bytes ∙ r.bytes; valid = q.valid; watches = q.watches }
]

-- How often it takes: once for each node, and once more if the node in front is not finished.
abbrev pub rounds : List Node → ℕ
rounds [] = 0
rounds (n ∷ ns) = if length (node_bytes n) == 0 then suc (length ns) else suc (suc (length ns))

drain-rounds :
    (ns : List Node) (c : Connection)
    → c.nodes ≡ ns
    → AllValid ns
    → ns ≢ []
    → is_writing c.channel ≡ true
    → (drain (rounds ns) c).nodes ≡ []
drain-rounds [] c e v ne on = absurd (ne refl)
drain-rounds (n ∷ ns) c e v ne on = elim (Bool-cases (length (node_bytes n) == 0)) [
  | inl done ↦
      rw done (drain-Spent n ns c v.1 (record { nodes = e; spent = ground arith; on = on }))
  | inr more ↦ rw more (drain_front n ns c v e on (ground arith))
]

-- Something waits, and writing is watched: if the kernel takes all that it is offered at each write
-- event, then after `rounds` events nothing waits any more, and all the bytes were sent, in order.
pub drain_lem :
    (c : Connection)
    → AllValid c.nodes
    → Watches c
    → c.nodes ≢ []
    → ((drain (rounds c.nodes) c).nodes ≡ []) × ((drain (rounds c.nodes) c).sent ≡ stream c)
drain_lem c v w ne =
    let on : is_writing c.channel ≡ true = w ∙ ap not (no_nodes_of_ne c.nodes ne) in
    let empty = drain-rounds c.nodes c refl v ne on in
    let k = drain-Kept (rounds c.nodes) c v w in
    (
      empty,
      sym (append-nil (drain (rounds c.nodes) c).sent)
          ∙ ap (λ l. (drain (rounds c.nodes) c).sent ++ pending l) (sym empty)
          ∙ k.bytes,
    )
