-- ===== src/Buffer/Take.antt =====
-- `retrieve`, `retrieveAll`, `read`, `readAll`, `hasWritten` and `unwrite` against the list of
-- readable bytes, and where the shrinking in `retrieveAll` goes wrong.
use mathlib.Core.Path.{ap₂}
use netpoll_cpp.Base.{
  Bool-cases, List, [], add_size, ap, arith, drop, drop_all, inl, inr, leb, leb→le, leb→lt, length,
  ltb, ltb→le, ltb→lt, refl, some, sub_size, sym, take, take_all, ℕ, ◌++◌, ◌+◌, ◌-◌, ◌<◌, ◌^◌, ◌∙◌,
  ◌≡◌, ◌≤◌,
}
use netpoll_cpp.Buffer.{
  MessageBuffer, buffer_offset, contents, ensure_fuel, ensure_writable_bytes, has_written,
  new_message_buffer, read, read_all, readable_bytes, retrieve, retrieve_all, unwrite,
  writable_bytes,
}
use netpoll_cpp.Buffer.Bounds.{IsValid, length-contents}
use netpoll_cpp.Buffer.Storage.{drop-slice, length-resize, resize, slice, slice-add, take-slice}

-- On a valid buffer `retrieveAll` never shrinks the vector: it only moves the two positions.
pub retrieve_all_lem :
    {b : MessageBuffer}
    → IsValid b
    → retrieve_all b ≡ record b { head = buffer_offset; tail = buffer_offset }
unfolding retrieve_all
retrieve_all_lem v = ground arith

pub retrieve_all-IsValid : {b : MessageBuffer} → IsValid b → IsValid (retrieve_all b)
retrieve_all-IsValid v = rw (retrieve_all_lem v) (omega arith)

pub contents-retrieve_all : (b : MessageBuffer) → contents (retrieve_all b) ≡ []
unfolding retrieve_all
contents-retrieve_all b = refl

-- `retrieve(n)` keeps the invariant and the vector's size, and removes the first `n` readable
-- bytes, or all of them where there are fewer.
pub retrieve_lem :
    {b : MessageBuffer} (n : ℕ)
    → IsValid b
    → IsValid (retrieve n b)
      × (contents (retrieve n b) ≡ drop n (contents b))
      × (length (retrieve n b).buffer ≡ length b.buffer)
unfolding retrieve
retrieve_lem {b} n v = elim (Bool-cases (leb (readable_bytes b) n)) [
  | inl all ↦ rw all (
    retrieve_all-IsValid v,
    contents-retrieve_all b
        ∙ sym (drop_all n (contents b) (omega (arith, length-contents b, leb→le _ _ all))),
    ap (λ (c : MessageBuffer). length c.buffer) (retrieve_all_lem v),
  )
  | inr part ↦ rw part (omega (arith, leb→lt _ _ part), partly (leb→lt _ _ part), refl)
]
  where
    partly :
        n < readable_bytes b
        → slice b.buffer (add_size b.head n) (sub_size b.tail (add_size b.head n))
          ≡ drop n (contents b)
    partly h =
        ap₂ (slice b.buffer) (omega arith) (omega arith)
        ∙ sym (drop-slice b.buffer b.head (readable_bytes b) n (omega arith))

-- What a call that takes bytes away leaves: the bytes `q`, in a vector of the same size.
pub record Left (b : MessageBuffer) (q : List ℕ) (c : MessageBuffer) : Type 0 where
  pub valid : IsValid c
  pub bytes : contents c ≡ q
  pub size_eq : length c.buffer ≡ length b.buffer

pub retrieve-Left :
    {b : MessageBuffer} (n : ℕ) → IsValid b → Left b (drop n (contents b)) (retrieve n b)
retrieve-Left n v = let r = retrieve_lem n v in record { valid = r.0; bytes = r.1; size_eq = r.2 }

-- `read(n)` returns the first `n` readable bytes, or all where there are fewer, and leaves the
-- others.
pub read_lem :
    {b : MessageBuffer} (n : ℕ)
    → IsValid b
    → ((read n b).0 ≡ take n (contents b)) × Left b (drop n (contents b)) (read n b).1
unfolding read
read_lem {b} n v = elim (Bool-cases (ltb (readable_bytes b) n)) [
  | inl over ↦
      let few : length (contents b) ≤ n = omega (arith, length-contents b, ltb→lt _ _ over) in
      let all : drop (readable_bytes b) (contents b) ≡ drop n (contents b) =
        drop_all (readable_bytes b) (contents b) (omega (arith, length-contents b))
        ∙ sym (drop_all n (contents b) few) in
      rw over (sym (take_all n (contents b) few), rw all at (retrieve-Left (readable_bytes b) v))
  | inr fits ↦
      rw fits
        (sym (take-slice b.buffer b.head (readable_bytes b) n (ltb→le _ _ fits)), retrieve-Left n v)
]

-- `readAll()` returns every readable byte and leaves none.
pub read_all_lem :
    {b : MessageBuffer} → IsValid b → ((read_all b).0 ≡ contents b) × Left b [] (read_all b).1
unfolding read_all
read_all_lem {b} v =
    let whole : length (contents b) ≤ readable_bytes b = omega (arith, length-contents b) in
    let r = read_lem (readable_bytes b) v in
    (
      r.0 ∙ take_all (readable_bytes b) (contents b) whole,
      rw (drop_all (readable_bytes b) (contents b) whole) at r.1,
    )

-- `hasWritten(n)`, within the writable room, appends the bytes that stand there.
pub has_written_lem :
    {b : MessageBuffer} (n : ℕ)
    → IsValid b
    → n ≤ writable_bytes b
    → IsValid (has_written n b)
      × (contents (has_written n b) ≡ contents b ++ slice b.buffer b.tail n)
unfolding has_written
has_written_lem {b} n v h = (
  omega arith,
  ap (slice b.buffer b.head) total
      ∙ slice-add b.buffer b.head (readable_bytes b) n
      ∙ ap (λ k. contents b ++ slice b.buffer k n) (omega arith),
)
  where
    total : sub_size (add_size b.tail n) b.head ≡ readable_bytes b + n
    total = omega arith

-- `unwrite(n)`, of no more than is readable, removes the last `n` bytes.
pub unwrite_lem :
    {b : MessageBuffer} (n : ℕ)
    → IsValid b
    → n ≤ readable_bytes b
    → IsValid (unwrite n b) × (contents (unwrite n b) ≡ take (readable_bytes b - n) (contents b))
unfolding unwrite
unwrite_lem {b} n v h = (
  omega arith,
  ap (slice b.buffer b.head) (omega arith)
      ∙ sym (take-slice b.buffer b.head (readable_bytes b) (readable_bytes b - n) (omega arith)),
)

-- A buffer made for fewer than 8 bytes is shrunk by `retrieveAll` below its own offset: both
-- positions then lie behind the vector's end, and the writable room wraps round to nearly 2^64, so
-- that the next `ensureWritableBytes` changes nothing and its caller writes outside the vector.
pub retrieve_all_shrinks_too_far :
    (len n : ℕ)
    → len < buffer_offset
    → n < 2 ^ 63
    → let c = retrieve_all (new_message_buffer len) in
      (length c.buffer < c.tail)
      × (writable_bytes c + (buffer_offset - len) ≡ 2 ^ 64)
      × (ensure_writable_bytes n c ≡ some c)
unfolding retrieve_all new_message_buffer ensure_writable_bytes ensure_fuel
retrieve_all_shrinks_too_far len n h k = ground (
  arith,
  length-resize (add_size len buffer_offset) [],
  length-resize len (resize (add_size len buffer_offset) []),
)
