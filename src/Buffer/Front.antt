-- ===== src/Buffer/Front.antt =====
-- `pushFront`: the three ways in which it puts bytes before what is readable.
use mathlib.Core.Path.{ap₂}
use netpoll_cpp.Base.{
  Bool-cases, List, add_size, ap, arith, inl, inr, leb, leb→le, leb→lt, length, le→leb, refl, some,
  sub_size, true, ℕ, ◌++◌, ◌+◌, ◌<◌, ◌>>=◌, ◌^◌, ◌∙◌, ◌≡◌, ◌≤◌, ◌⊎◌,
}
use netpoll_cpp.Buffer.{
  MessageBuffer, buffer_offset, contents, new_message_buffer, prepend_anew, prepend_apart,
  prepend_in_room, prepend_len, prepend_shifting, push_front, readable_bytes, swap, writable_bytes,
}
use netpoll_cpp.Buffer.Bounds.{
  IsValid, contents-new_message_buffer, length-contents, length-new_message_buffer,
  new_message_buffer-IsValid, readable_lem,
}
use netpoll_cpp.Buffer.Push.{push_back_buffer_lem, push_back_lem}
use netpoll_cpp.Buffer.Storage.{
  copy, length-copy, length-memcpy, memcpy, slice, slice-add, slice-copy, slice-memcpy,
  slice-memcpy_after,
}

module _ {b : MessageBuffer} (xs : List ℕ) (v : IsValid b) where
  prepend_in_room_lem :
      length xs ≤ b.head
      → IsValid (prepend_in_room xs b) × (contents (prepend_in_room xs b) ≡ xs ++ contents b)
  unfolding prepend_in_room
  prepend_in_room_lem h = (
    omega (arith, length-memcpy b.buffer (sub_size b.head (length xs)) xs),
    ap (slice (memcpy b.buffer start xs) start) total
        ∙ slice-add (memcpy b.buffer start xs) start (length xs) (readable_bytes b)
        ∙ ap₂ ◌++◌ (slice-memcpy b.buffer start xs (omega arith)) (
            ap (λ k. slice (memcpy b.buffer start xs) k (readable_bytes b)) end
            ∙ slice-memcpy_after b.buffer start xs b.head (readable_bytes b) (omega arith)),
  )
    where
      start : ℕ
      start = sub_size b.head (length xs)

      total : sub_size b.tail start ≡ length xs + readable_bytes b
      total = omega arith

      end : start + length xs ≡ b.head
      end = omega arith

  prepend_apart_lem :
      length xs ≤ writable_bytes b
      → readable_bytes b ≤ length xs
      → IsValid (prepend_apart xs b) × (contents (prepend_apart xs b) ≡ xs ++ contents b)
  unfolding prepend_apart
  prepend_apart_lem h apart = (
    omega (arith, length-memcpy moved b.head xs, length-moved),
    ap (slice (memcpy moved b.head xs) b.head) total
        ∙ slice-add (memcpy moved b.head xs) b.head (length xs) (readable_bytes b)
        ∙ ap₂ ◌++◌ (slice-memcpy moved b.head xs (omega (arith, length-moved))) (
            slice-memcpy_after moved b.head xs (b.head + length xs) (readable_bytes b) (omega arith)
            ∙ ap (λ k. slice moved k (readable_bytes b)) (omega arith)
            ∙ slice-copy b.buffer b.head (readable_bytes b) to (omega arith) (omega arith)),
  )
    where
      to : ℕ
      to = add_size b.head (length xs)

      moved : List ℕ
      moved = copy b.buffer b.head (readable_bytes b) to

      length-moved : length moved ≡ length b.buffer
      length-moved = length-copy b.buffer b.head (readable_bytes b) to

      total : sub_size (add_size b.tail (length xs)) b.head ≡ length xs + readable_bytes b
      total = omega arith

  prepend_len_bounds :
      length b.buffer + length xs < 2 ^ 59
      → (buffer_offset ≤ prepend_len xs b) × (prepend_len xs b ≤ length b.buffer + length xs)
  unfolding prepend_len
  prepend_len_bounds fits = ground (arith, readable_lem v)

  prepend_anew_lem :
      length b.buffer + length xs < 2 ^ 59
      → (c : MessageBuffer) × (prepend_anew xs b ≡ some c)
        × IsValid c
        × (contents c ≡ xs ++ contents b)
  unfolding prepend_anew swap
  prepend_anew_lem fits =
      let (c, e, p) = push_back_lem xs fresh (omega (arith, size, bounds)) in
      let (d, f, q) =
        push_back_buffer_lem b p.valid
          (omega (arith, p.size_le, size, bounds, readable_lem v, v.within)) in
      (
        d,
        rw (e, ◌>>=◌, f, ◌>>=◌),
        q.valid,
        q.bytes
            ∙ ap (λ r. r ++ contents b)
                (p.bytes ∙ ap (λ r. r ++ xs) (contents-new_message_buffer (prepend_len xs b))),
      )
    where
      bounds : (buffer_offset ≤ prepend_len xs b) × (prepend_len xs b ≤ length b.buffer + length xs)
      bounds = prepend_len_bounds fits

      fresh : IsValid (new_message_buffer (prepend_len xs b))
      fresh = new_message_buffer-IsValid (prepend_len xs b) bounds.0 (omega (arith, bounds))

      size :
          (length (new_message_buffer (prepend_len xs b)).buffer ≡ prepend_len xs b + buffer_offset)
          × (readable_bytes (new_message_buffer (prepend_len xs b)) ≤ 0)
      size = (
        length-new_message_buffer (prepend_len xs b) (omega (arith, bounds)),
        omega (
          arith,
          length-contents (new_message_buffer (prepend_len xs b)),
          ap (λ (l : List ℕ). length l) (contents-new_message_buffer (prepend_len xs b)),
        ),
      )

-- `pushFront` returns on a valid buffer, keeps the invariant and puts the string before what is
-- readable, if the string fits before the head, or does not fit behind the tail, or is at least as
-- long as what is readable.
pub push_front_lem :
    {b : MessageBuffer} (xs : List ℕ)
    → IsValid b
    → length b.buffer + length xs < 2 ^ 59
    → (length xs ≤ b.head) ⊎ ((writable_bytes b < length xs) ⊎ (readable_bytes b ≤ length xs))
    → (c : MessageBuffer) × (push_front xs b ≡ some c) × IsValid c × (contents c ≡ xs ++ contents b)
unfolding push_front prepend_shifting
push_front_lem {b} xs v fits easy = elim (Bool-cases (leb (length xs) b.head)) [
  | inl front ↦ rw front (
    prepend_in_room xs b,
    refl,
    (prepend_in_room_lem xs v (leb→le _ _ front)).0,
    (prepend_in_room_lem xs v (leb→le _ _ front)).1,
  )
  | inr tight ↦ elim (Bool-cases (leb (length xs) (writable_bytes b))) [
    | inl behind ↦
        let r =
          prepend_apart_lem xs v (leb→le _ _ behind)
            (omega (arith, leb→lt _ _ tight, leb→le _ _ behind)) in
        let shorter : leb (readable_bytes b) (length xs) ≡ true =
          le→leb _ _ (omega (arith, easy, leb→lt _ _ tight, leb→le _ _ behind)) in
        rw (tight, behind, prepend_shifting, shorter) (prepend_apart xs b, refl, r.0, r.1)
    | inr full ↦ rw (tight, full) (prepend_anew_lem xs v fits)
  ]
]
