-- ===== src/Connection/Writing.antt =====
-- `handleWrite`: what waits goes out in order, and the end of the writing side comes last.

use mathlib.Core.Path.{ap₂}
use netpoll_cpp.Base.{
  Bool-cases, List, [], ap, append-nil, append_regroup, arith, inl, inr, length, ltb, not, refl,
  sym, take, take-append-drop, true, ℕ, ◌&&◌, ◌++◌, ◌+◌, ◌-◌, ◌==◌, ◌∙◌, ◌∷◌, ◌≡◌, ◌≤◌,
}
use netpoll_cpp.Buffer.{MessageBuffer, contents, retrieve}
use netpoll_cpp.Buffer.Storage.{length-slice, slice, slice-add}
use netpoll_cpp.Buffer.Take.{retrieve-Left}
use netpoll_cpp.Channel.{disable_writing, is_writing}
use netpoll_cpp.Channel.Dispatch.{enable_writing_lem}
use netpoll_cpp.Connection.{
  Answer, Connection, File, Node, fatal, file, finish_front, is_disconnecting, msg, no_nodes,
  notify, send_file_in_loop, send_next, shut_write, take_written, unwatch_writing, watch_writing,
  would_block, write_complete, write_front, wrote,
}
use netpoll_cpp.Connection.Nodes.{AllValid, node_bytes, pending}
use netpoll_cpp.Connection.Sending.{Accepts, Watches, notify_lem, stream, watch_writing_lem}

-- How many bytes the kernel is offered: those of the front of the list.
abbrev pub offered : List Node → ℕ
offered [] = 0
offered (n ∷ ns) = length (node_bytes n)

-- What a call leaves that moves bytes along and adds none.
pub record Kept (c d : Connection) : Type 0 where
  pub bytes : stream d ≡ stream c
  pub valid : AllValid d.nodes
  pub watches : Watches d

-- A call that changes nothing.
unchanged-Kept :
    (n : Node) (ns : List Node) (c : Connection)
    → c.nodes ≡ n ∷ ns
    → AllValid (n ∷ ns)
    → is_writing c.channel ≡ true
    → Kept c c
unchanged-Kept n ns c e v on = record {
  bytes = refl;
  valid = rw e v;
  watches = on ∙ ap (λ l. not (no_nodes l)) (sym e);
}

pub write_front-Kept :
    (b : MessageBuffer) (rest : List Node) (a : Answer) (c : Connection)
    → AllValid (msg b ∷ rest)
    → c.nodes ≡ msg b ∷ rest
    → is_writing c.channel ≡ true
    → Accepts a (length (contents b))
    → Kept c (write_front b rest a c)
unfolding write_front take_written
write_front-Kept b rest (wrote n) c v e on k =
    let l = retrieve-Left n v.0.0 in
    record {
      bytes =
          append_regroup c.sent (take n (contents b)) (contents (retrieve n b)) (pending rest)
          ∙ ap (λ s. c.sent ++ (s ++ pending rest))
              (ap (λ s. take n (contents b) ++ s) l.bytes ∙ take-append-drop n (contents b))
          ∙ ap (λ ns. c.sent ++ pending ns) (sym e);
      valid = ((l.valid, omega (arith, l.size_eq, v.0.1)), v.1);
      watches = on;
    }
write_front-Kept b rest would_block c v e on k = unchanged-Kept (msg b) rest c e v on
write_front-Kept b rest fatal c v e on k = absurd k

-- The file in front, once the kernel has taken `n` bytes of it.
abbrev pub sent_on : ℕ → File → List Node → Connection → Connection
sent_on n f rest c = record c {
  nodes = file (record f { offset = f.offset + n; to_send = f.to_send - n }) ∷ rest;
  sent = c.sent ++ slice f.content f.offset n;
}

pub sent_on-stream :
    (n : ℕ) (f : File) (rest : List Node) (c : Connection)
    → n ≤ f.to_send
    → stream (watch_writing (sent_on n f rest c)) ≡ c.sent ++ (node_bytes (file f) ++ pending rest)
sent_on-stream n f rest c k =
    let w = watch_writing_lem (sent_on n f rest c) in
    ap₂ (λ s l. s ++ pending l) w.0 w.1
    ∙ append_regroup c.sent (slice f.content f.offset n)
        (slice f.content (f.offset + n) (f.to_send - n)) (pending rest)
    ∙ ap (λ l. c.sent ++ (l ++ pending rest))
        (sym (slice-add f.content f.offset n (f.to_send - n))
          ∙ ap (slice f.content f.offset) (omega arith))

pub send_file-Kept :
    (f : File) (rest : List Node) (a : Answer) (c : Connection)
    → AllValid (file f ∷ rest)
    → c.nodes ≡ file f ∷ rest
    → is_writing c.channel ≡ true
    → Accepts a f.to_send
    → Kept c (send_file_in_loop f rest a c)
unfolding send_file_in_loop
send_file-Kept f rest (wrote n) c v e on k = elim (Bool-cases (ltb n f.to_send && n == 0)) [
  | inl nothing ↦ rw nothing (unchanged-Kept (file f) rest c e v on)
  | inr some_bytes ↦
      let w = watch_writing_lem (sent_on n f rest c) in
      rw some_bytes (record {
        bytes = sent_on-stream n f rest c k ∙ ap (λ ns. c.sent ++ pending ns) (sym e);
        valid = rw w.1 (omega arith, v.1);
        watches = w.2 ∙ ap (λ ns. not (no_nodes ns)) (sym w.1);
      })
]
send_file-Kept f rest would_block c v e on k = unchanged-Kept (file f) rest c e v on
send_file-Kept f rest fatal c v e on k = absurd k

send_next-Kept :
    (n : Node) (ns : List Node) (a : Answer) (c : Connection)
    → AllValid (n ∷ ns)
    → c.nodes ≡ n ∷ ns
    → is_writing c.channel ≡ true
    → Accepts a (length (node_bytes n))
    → Kept c (send_next (n ∷ ns) a c)
unfolding send_next
send_next-Kept (msg b) rest a c v e on k = write_front-Kept b rest a c v e on k
send_next-Kept (file f) rest a c v e on k =
    send_file-Kept f rest a c v e on (rw (length-slice f.content f.offset f.to_send) at k)

-- The list is empty: writing is not watched any more, and the callbacks follow.
finish_last-Kept :
    (n : Node) (a : Answer) (c : Connection)
    → c.nodes ≡ n ∷ []
    → node_bytes n ≡ []
    → Kept c (finish_front [] a c)
unfolding finish_front unwatch_writing
finish_last-Kept n a c e z =
    let d : Connection = record c { nodes = []; channel = disable_writing c.channel } in
    let x = notify_lem c.write_complete_set write_complete d in
    let y =
      notify_lem (is_disconnecting c.status) shut_write
        (notify c.write_complete_set write_complete d) in
    record {
      bytes =
          ap₂ (λ s l. s ++ pending l) (y.0 ∙ x.0) (y.1 ∙ x.1)
          ∙ ap (λ l. c.sent ++ l) (sym (ap pending e ∙ append-nil (node_bytes n) ∙ z));
      valid = rw (y.1, x.1) tt;
      watches =
          ap is_writing (y.2 ∙ x.2)
          ∙ (enable_writing_lem c.channel).1
          ∙ ap (λ ns. not (no_nodes ns)) (sym (y.1 ∙ x.1));
    }

pub finish_front-Kept :
    (n : Node) (ns : List Node) (a : Answer) (c : Connection)
    → AllValid ns
    → c.nodes ≡ n ∷ ns
    → node_bytes n ≡ []
    → is_writing c.channel ≡ true
    → Accepts a (offered ns)
    → Kept c (finish_front ns a c)
unfolding finish_front
finish_front-Kept n [] a c v e z on k = finish_last-Kept n a c e z
finish_front-Kept n (m ∷ ns) a c v e z on k =
    let r = send_next-Kept m ns a (record c { nodes = m ∷ ns }) v refl on k in
    record {
      bytes =
          r.bytes
          ∙ ap (λ l. c.sent ++ (l ++ pending (m ∷ ns))) (sym z)
          ∙ ap (λ l. c.sent ++ pending l) (sym e);
      valid = r.valid;
      watches = r.watches;
    }
