-- ===== src/Connection.antt =====
-- A TCP connection: netpoll/net/inner/tcp_connection_impl.h and tcp_connection_impl.cc, as built on
-- Linux, in the thread of its loop. Each call takes the kernel's answer to its one `write` or
-- `sendfile`; the bytes that the kernel took stand in `sent`, the callbacks made in `notices`.
-- Idle timeouts are left out; `sendStream` is in Connection.Stream.
pub mod Nodes
pub mod Sending
pub mod Writing
pub mod WriteEvent
pub mod Watching
pub mod Lifecycle
pub mod Reports
pub mod Reachable
pub mod Hearing
pub mod Again
pub mod Draining
pub mod Senders
pub mod Stream
mod Tests
use netpoll_cpp.Base.{
  Bool, List, Option, [], drop, false, if◌then◌else◌, ltb, not, some, take, true, ℕ, ◌&&◌, ◌++◌,
  ◌+◌, ◌-◌, ◌==◌, ◌>>=◌, ◌∷◌,
}
use netpoll_cpp.Buffer.{
  MessageBuffer, contents, new_message_buffer, push_back, readable_bytes, retrieve,
}
use netpoll_cpp.Buffer.Storage.{slice}
use netpoll_cpp.Channel.{Channel, disable_writing, enable_writing, is_writing}

pub data Status : Type 0 where
  disconnected connecting connected disconnecting : Status

-- A file to be sent: its bytes, `m_offset` and `fileBytesToSend_`.
pub record File : Type 0 where
  pub content : List ℕ
  pub offset : ℕ
  pub to_send : ℕ

-- `BufferNode`.
pub data Node : Type 0 where
  msg : MessageBuffer → Node
  file : File → Node

-- The callbacks made, `closeWrite`, and the channel's `remove`.
pub data Notice : Type 0 where
  connection closed received write_complete shut_write removed : Notice
  high_water : ℕ → Notice

pub record Connection : Type 0 where
  pub status : Status
  pub channel : Channel
  pub nodes : List Node
  pub read_buffer : MessageBuffer
  pub bytes_sent : ℕ
  pub bytes_received : ℕ
  pub high_water_set : Bool
  pub high_water_len : ℕ
  pub recv_set : Bool
  pub connection_set : Bool
  pub close_set : Bool
  pub write_complete_set : Bool
  pub sent : List ℕ
  pub notices : List Notice

-- The kernel's answer to `write` or `sendfile`: a number of bytes, EAGAIN, or another error.
pub data Answer : Type 0 where
  wrote : ℕ → Answer
  would_block fatal : Answer

abbrev pub is_connected : Status → Bool
is_connected connected = true
is_connected _ = false

abbrev pub is_disconnecting : Status → Bool
is_disconnecting disconnecting = true
is_disconnecting _ = false

-- A callback that is set is made.
abbrev pub notify : Bool → Notice → Connection → Connection
notify is_set n c = if is_set then record c { notices = c.notices ++ (n ∷ []) } else c

pub watch_writing : Connection → Connection
watch_writing c =
    if is_writing c.channel then c else record c { channel = enable_writing c.channel }

pub unwatch_writing : Connection → Connection
unwatch_writing c = record c { channel = disable_writing c.channel }

-- `writeInLoop`, where the kernel takes `n` bytes.
pub take_written : ℕ → List ℕ → Connection → Connection
take_written n bytes c = record c { sent = c.sent ++ take n bytes; bytes_sent = c.bytes_sent + n }

-- `MessageBuffer` of the default length.
abbrev pub default_length : ℕ
default_length = 2048

-- The bytes go behind those of the last node, or into a new one, if that is a file or there is none.
pub push_last : List ℕ → List Node → Option (List Node × MessageBuffer)
push_last xs [] = do b ← push_back xs (new_message_buffer default_length); some (msg b ∷ [], b)
push_last xs (msg b ∷ []) = do d ← push_back xs b; some (msg d ∷ [], d)
push_last xs (file f ∷ []) = do
  b ← push_back xs (new_message_buffer default_length)
  some (file f ∷ msg b ∷ [], b)
push_last xs (n ∷ m ∷ ns) = do r ← push_last xs (m ∷ ns); some (n ∷ r.0, r.1)

-- `sendInLoop`, case 2: what the kernel did not take waits in the list.
pub queue_rest : List ℕ → Connection → Option Connection
unfolding push_last watch_writing
queue_rest [] c = some c
queue_rest (x ∷ xs) c = do
  r ← push_last (x ∷ xs) c.nodes
  some (
      notify (c.high_water_set && ltb c.high_water_len (readable_bytes r.1))
        (high_water (readable_bytes r.1)) (watch_writing (record c { nodes = r.0 })))

abbrev pub no_nodes : List Node → Bool
no_nodes [] = true
no_nodes (n ∷ ns) = false

-- `sendInLoop`, on a connected connection.
pub send_connected : List ℕ → Answer → Connection → Option Connection
unfolding queue_rest take_written
send_connected bytes answer c =
    if not (is_writing c.channel) && no_nodes c.nodes
    then elim answer [
      | wrote n ↦ queue_rest (drop n bytes) (take_written n bytes c)
      | would_block ↦ queue_rest bytes c
      | fatal ↦ some c
    ]
    else queue_rest bytes c

pub send_in_loop : List ℕ → Answer → Connection → Option Connection
unfolding send_connected
send_in_loop bytes answer c =
    if is_connected c.status then send_connected bytes answer c else some c

-- `sendFileInLoop` for the file in front of the list, by `sendfile`.
pub send_file_in_loop : File → List Node → Answer → Connection → Connection
unfolding watch_writing unwatch_writing
send_file_in_loop f rest answer c = elim answer [
  | wrote n ↦
      if ltb n f.to_send && n == 0
      then c
      else watch_writing (record c {
        nodes = file (record f { offset = f.offset + n; to_send = f.to_send - n }) ∷ rest;
        sent = c.sent ++ slice f.content f.offset n;
      })
  | would_block ↦ c
  | fatal ↦ if is_writing c.channel then unwatch_writing c else c
]

-- The bytes of the buffer in front are offered to the kernel.
pub write_front : MessageBuffer → List Node → Answer → Connection → Connection
unfolding take_written
write_front b rest answer c = elim answer [
  | wrote n ↦ record (take_written n (contents b) c) { nodes = msg (retrieve n b) ∷ rest }
  | would_block ↦ c
  | fatal ↦ c
]

-- `sendNext`, with the list that it finds.
pub send_next : List Node → Answer → Connection → Connection
unfolding write_front send_file_in_loop
send_next [] answer c = c
send_next (msg b ∷ rest) answer c = write_front b rest answer c
send_next (file f ∷ rest) answer c = send_file_in_loop f rest answer c

-- The node in front is finished.
pub finish_front : List Node → Answer → Connection → Connection
unfolding unwatch_writing send_next
finish_front [] answer c =
    let d =
      notify c.write_complete_set write_complete (unwatch_writing (record c { nodes = [] })) in
    notify (is_disconnecting c.status) shut_write d
finish_front (n ∷ rest) answer c = send_next (n ∷ rest) answer (record c { nodes = n ∷ rest })

pub write_nodes : List Node → Answer → Connection → Connection
unfolding finish_front write_front send_file_in_loop
write_nodes [] answer c = c
write_nodes (file f ∷ rest) answer c =
    if f.to_send == 0 then finish_front rest answer c else send_file_in_loop f rest answer c
write_nodes (msg b ∷ rest) answer c =
    if readable_bytes b == 0 then finish_front rest answer c else write_front b rest answer c

pub handle_write : Answer → Connection → Connection
unfolding write_nodes
handle_write answer c = if is_writing c.channel then write_nodes c.nodes answer c else c

-- `sendFile`: the file goes to the end of the list, and is begun if it is alone there.
pub send_file : File → Answer → Connection → Connection
unfolding send_file_in_loop
send_file f answer c = elim c.nodes [
  | [] ↦ send_file_in_loop f [] answer (record c { nodes = file f ∷ [] })
  | n ∷ ns ↦ record c { nodes = n ∷ ns ++ (file f ∷ []) }
]
