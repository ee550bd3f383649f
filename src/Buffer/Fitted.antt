-- ===== src/Buffer/Fitted.antt =====
-- The two moves of bytes inside a message buffer that fits: appending behind the tail and moving
-- down to the offset.

use netpoll_cpp.Base.{
  List, add_size, ap, arith, length, sub_size, ℕ, ◌++◌, ◌+◌, ◌-◌, ◌<◌, ◌∙◌, ◌≡◌, ◌≤◌,
}
use netpoll_cpp.Buffer.{
  MessageBuffer, buffer_offset, compact, contents, push_fitted, readable_bytes, writable_bytes,
}
use netpoll_cpp.Buffer.Bounds.{IsValid}
use netpoll_cpp.Buffer.Storage.{
  copy, length-copy, length-memcpy, memcpy, slice, slice-add, slice-copy, slice-memcpy,
  slice-memcpy_before,
}

pub push_fitted-IsValid :
    {b : MessageBuffer} (xs : List ℕ)
    → IsValid b
    → length xs ≤ writable_bytes b
    → IsValid (push_fitted xs b)
unfolding push_fitted
push_fitted-IsValid {b} xs v h = omega (arith, length-memcpy b.buffer b.tail xs)

pub contents-push_fitted :
    {b : MessageBuffer} (xs : List ℕ)
    → IsValid b
    → length xs ≤ writable_bytes b
    → contents (push_fitted xs b) ≡ contents b ++ xs
unfolding push_fitted
contents-push_fitted {b} xs v h =
    rw (total, slice-add (memcpy b.buffer b.tail xs) b.head (readable_bytes b) (length xs), end)
      (rw (
        slice-memcpy_before b.buffer b.tail xs b.head (readable_bytes b) (omega arith),
        slice-memcpy b.buffer b.tail xs (omega arith),
      ))
  where
    total : sub_size (add_size b.tail (length xs)) b.head ≡ readable_bytes b + length xs
    total = omega arith

    end : b.head + readable_bytes b ≡ b.tail
    end = omega arith

pub push_fitted_sizes :
    {b : MessageBuffer} (xs : List ℕ)
    → IsValid b
    → length xs ≤ writable_bytes b
    → (length (push_fitted xs b).buffer ≡ length b.buffer)
      × (writable_bytes (push_fitted xs b) + length xs ≡ writable_bytes b)
unfolding push_fitted
push_fitted_sizes {b} xs v h =
    (length-memcpy b.buffer b.tail xs, omega (arith, length-memcpy b.buffer b.tail xs))

module _ {b : MessageBuffer} (v : IsValid b) where
  pub compact-IsValid : buffer_offset < b.head → IsValid (compact b)
  unfolding compact
  compact-IsValid h = omega (arith, length-copy b.buffer b.head (readable_bytes b) buffer_offset)

  pub contents-compact : buffer_offset < b.head → contents (compact b) ≡ contents b
  unfolding compact
  contents-compact h =
      ap (slice (copy b.buffer b.head (readable_bytes b) buffer_offset) buffer_offset) (omega arith)
      ∙ slice-copy b.buffer b.head (readable_bytes b) buffer_offset (omega arith) (omega arith)

  pub compact_sizes :
      buffer_offset < b.head
      → (length (compact b).buffer ≡ length b.buffer)
        × (writable_bytes (compact b) ≡ b.head + writable_bytes b - buffer_offset)
  unfolding compact
  compact_sizes h = (
    length-copy b.buffer b.head (readable_bytes b) buffer_offset,
    omega (arith, length-copy b.buffer b.head (readable_bytes b) buffer_offset),
  )
