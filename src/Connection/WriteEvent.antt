-- ===== src/Connection/WriteEvent.antt =====
-- `handleWrite`, whole: the node in front is written, or the next one if the front is finished.
use netpoll_cpp.Base.{
  Bool-cases, List, [], arith, if◌then◌else◌, inl, inr, length, refl, sym, true, ℕ, ◌==◌, ◌∷◌, ◌≡◌,
  ◌≢◌,
}
use netpoll_cpp.Buffer.{contents, readable_bytes}
use netpoll_cpp.Buffer.Bounds.{length-contents}
use netpoll_cpp.Buffer.Storage.{length-slice, slice}
use netpoll_cpp.Channel.{is_writing}
use netpoll_cpp.Connection.{Answer, Connection, Node, file, handle_write, msg, write_nodes}
use netpoll_cpp.Connection.Nodes.{AllValid, node_bytes}
use netpoll_cpp.Connection.Sending.{Accepts}
use netpoll_cpp.Connection.Writing.{
  Kept, finish_front-Kept, offered, send_file-Kept, write_front-Kept,
}

-- How many bytes the kernel is offered: the front of the list, or what comes behind a finished node.
abbrev pub offered_first : List Node → ℕ
offered_first [] = 0
offered_first (n ∷ ns) = if length (node_bytes n) == 0 then offered ns else length (node_bytes n)

nil_of_length : (xs : List ℕ) → length xs ≡ 0 → xs ≡ []
nil_of_length [] h = refl
nil_of_length (x ∷ xs) h = absurd (omega arith)

write_nodes-Kept :
    (ns : List Node) (a : Answer) (c : Connection)
    → AllValid ns
    → c.nodes ≡ ns
    → is_writing c.channel ≡ true
    → ns ≢ []
    → Accepts a (offered_first ns)
    → Kept c (write_nodes ns a c)
unfolding write_nodes
write_nodes-Kept [] a c v e on ne k = absurd (ne refl)
write_nodes-Kept (msg b ∷ rest) a c v e on ne k =
    let size = length-contents b in
    elim (Bool-cases (readable_bytes b == 0)) [
      | inl done ↦ rw done (
          finish_front-Kept (msg b) rest a c v.1 e (nil_of_length (contents b) (ground arith)) on
            (rw (size, done) at k))
      | inr more ↦ rw more (write_front-Kept b rest a c v e on (rw (size, more, sym size) at k))
    ]
write_nodes-Kept (file f ∷ rest) a c v e on ne k =
    let size = length-slice f.content f.offset f.to_send in
    elim (Bool-cases (f.to_send == 0)) [
      | inl done ↦ rw done (
          finish_front-Kept (file f) rest a c v.1 e
            (nil_of_length (slice f.content f.offset f.to_send) (ground arith)) on
            (rw (size, done) at k))
      | inr more ↦ rw more (send_file-Kept f rest a c v e on (rw (size, more) at k))
    ]

-- `handleWrite`, where the loop watches for room and the kernel does not fail: the bytes that were
-- sent and those that wait stay the same stream, and writing is watched just while something waits.
pub handle_write-Kept :
    (a : Answer) (c : Connection)
    → AllValid c.nodes
    → c.nodes ≢ []
    → is_writing c.channel ≡ true
    → Accepts a (offered_first c.nodes)
    → Kept c (handle_write a c)
unfolding handle_write
handle_write-Kept a c v ne on k = rw on (write_nodes-Kept c.nodes a c v refl on ne k)
