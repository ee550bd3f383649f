-- ===== src/Buffer.antt =====
-- The message buffer of netpoll/util/message_buffer.h and message_buffer.cc: a byte queue in one
-- vector, with spare room on both sides of what is readable. A `mutable` method returns the new
-- buffer. `none` is a call whose nested calls outrun the fuel.
pub mod Storage
pub mod Bounds
pub mod Fitted
pub mod Room
pub mod Push
pub mod Take
pub mod Front
pub mod Queue
pub mod Words
pub mod Ints
pub mod Fd
pub mod Scan
mod Tests
use netpoll_cpp.Base.{
  List, Option, [], add_size, if◌then◌else◌, leb, length, ltb, mul_size, none, some, sub_size, suc,
  zero, ℕ, ◌>>=◌,
}
use Storage.{copy, memcpy, resize, slice}

-- `kBufferOffset`: the room kept free in front.
abbrev pub buffer_offset : ℕ
buffer_offset = 8

pub record MessageBuffer : Type 0 where
  pub head : ℕ
  pub tail : ℕ
  pub init_cap : ℕ
  pub buffer : List ℕ

-- The constructor: `len` bytes behind the offset.
pub new_message_buffer : ℕ → MessageBuffer
new_message_buffer len = record {
  head = buffer_offset;
  tail = buffer_offset;
  init_cap = len;
  buffer = resize (add_size len buffer_offset) [];
}

abbrev pub readable_bytes : MessageBuffer → ℕ
readable_bytes b = sub_size b.tail b.head

abbrev pub writable_bytes : MessageBuffer → ℕ
writable_bytes b = sub_size (length b.buffer) b.tail

-- The readable bytes, from `peek()` to `beginWrite()`.
abbrev pub contents : MessageBuffer → List ℕ
contents b = slice b.buffer b.head (readable_bytes b)

pub swap : MessageBuffer → MessageBuffer → MessageBuffer × MessageBuffer
swap b c = (c, b)

-- What `pushBack` does once there is room.
pub push_fitted : List ℕ → MessageBuffer → MessageBuffer
push_fitted bytes b = record b {
  buffer = memcpy b.buffer b.tail bytes;
  tail = add_size b.tail (length bytes);
}

-- `ensureWritableBytes`, second case: the readable bytes move down to the offset.
pub compact : MessageBuffer → MessageBuffer
compact b = record b {
  buffer = copy b.buffer b.head (readable_bytes b) buffer_offset;
  tail = add_size buffer_offset (readable_bytes b);
  head = buffer_offset;
}

-- The size of the new vector: twice the old one, or what is needed.
pub grown_len : ℕ → MessageBuffer → ℕ
grown_len len b =
    let needed = add_size (add_size buffer_offset (readable_bytes b)) len in
    let doubled = mul_size (length b.buffer) 2 in if ltb needed doubled then doubled else needed

-- `ensureWritableBytes` and `pushBack(const MessageBuffer &)` call each other; `fuel` bounds how
-- deep.
pub ensure_fuel : ℕ → ℕ → MessageBuffer → Option MessageBuffer
ensure_fuel zero len b = none
ensure_fuel (suc fuel) len b =
    let grown = ensure_fuel fuel (readable_bytes b) (new_message_buffer (grown_len len b)) >>= λ c.
    some (swap b (push_fitted (contents b) c)).0 in
    if leb len (writable_bytes b)
    then some b
    else if leb (add_size len buffer_offset) (add_size b.head (writable_bytes b))
    then some (compact b)
    else grown

pub ensure_writable_bytes : ℕ → MessageBuffer → Option MessageBuffer
unfolding ensure_fuel
ensure_writable_bytes len b = ensure_fuel 2 len b

-- `pushBack(const StringView &)`.
pub push_back : List ℕ → MessageBuffer → Option MessageBuffer
push_back bytes b = do c ← ensure_writable_bytes (length bytes) b; some (push_fitted bytes c)

-- `pushBack(const MessageBuffer &)`, for an argument that is another buffer.
pub push_back_buffer : MessageBuffer → MessageBuffer → Option MessageBuffer
push_back_buffer other b = do
  c ← ensure_writable_bytes (readable_bytes other) b
  some (push_fitted (contents other) c)

pub retrieve_all : MessageBuffer → MessageBuffer
retrieve_all b = record b {
  buffer =
      if ltb (mul_size b.init_cap 2) (length b.buffer)
      then resize b.init_cap b.buffer
      else b.buffer;
  tail = buffer_offset;
  head = buffer_offset;
}

pub retrieve : ℕ → MessageBuffer → MessageBuffer
retrieve len b =
    if leb (readable_bytes b) len then retrieve_all b else record b { head = add_size b.head len }

-- `read(len)`: the string and the buffer without it.
pub read : ℕ → MessageBuffer → List ℕ × MessageBuffer
read len b =
    let n = if ltb (readable_bytes b) len then readable_bytes b else len in
    (slice b.buffer b.head n, retrieve n b)

pub read_all : MessageBuffer → List ℕ × MessageBuffer
unfolding read
read_all b = read (readable_bytes b) b

-- `hasWritten`, after a direct write behind the tail.
pub has_written : ℕ → MessageBuffer → MessageBuffer
has_written len b = record b { tail = add_size b.tail len }

pub unwrite : ℕ → MessageBuffer → MessageBuffer
unwrite offset b = record b { tail = sub_size b.tail offset }

-- `pushFront`, first case: into the room in front.
pub prepend_in_room : List ℕ → MessageBuffer → MessageBuffer
prepend_in_room bytes b = record b {
  buffer = memcpy b.buffer (sub_size b.head (length bytes)) bytes;
  head = sub_size b.head (length bytes);
}

-- Second case: the readable bytes move up, to a range that does not overlap theirs.
pub prepend_apart : List ℕ → MessageBuffer → MessageBuffer
prepend_apart bytes b = record b {
  buffer =
      memcpy (copy b.buffer b.head (readable_bytes b) (add_size b.head (length bytes))) b.head
        bytes;
  tail = add_size b.tail (length bytes);
}

-- `std::copy` is not defined for a destination that lies in the range that is copied: `none`.
pub prepend_shifting : List ℕ → MessageBuffer → Option MessageBuffer
unfolding prepend_apart
prepend_shifting bytes b =
    if leb (readable_bytes b) (length bytes) then some (prepend_apart bytes b) else none

-- Third case: a new buffer, filled by two calls of `pushBack`.
pub prepend_len : List ℕ → MessageBuffer → ℕ
prepend_len bytes b =
    let needed = add_size (length bytes) (readable_bytes b) in
    if ltb needed b.init_cap then b.init_cap else needed

pub prepend_anew : List ℕ → MessageBuffer → Option MessageBuffer
prepend_anew bytes b = do
  c ← push_back bytes (new_message_buffer (prepend_len bytes b))
  d ← push_back_buffer b c
  some (swap b d).0

pub push_front : List ℕ → MessageBuffer → Option MessageBuffer
push_front bytes b =
    if leb (length bytes) b.head
    then some (prepend_in_room bytes b)
    else if leb (length bytes) (writable_bytes b)
    then prepend_shifting bytes b
    else prepend_anew bytes b
