-- ===== src/Buffer/Bounds.antt =====
-- The invariant of a message buffer, and how far its vector can grow.
use netpoll_cpp.Base.{[], add_size, arith, length, refl, ℕ, ◌+◌, ◌<◌, ◌^◌, ◌∙◌, ◌≡◌, ◌≤◌}
use netpoll_cpp.Buffer.{
  MessageBuffer, buffer_offset, contents, new_message_buffer, readable_bytes, writable_bytes,
}
use netpoll_cpp.Buffer.Storage.{length-resize, length-slice}

-- The vector is as long as the constructor made it, and shorter than `max_size()`.
pub record IsValid (b : MessageBuffer) : Type 0 where
  pub offset : buffer_offset ≤ b.init_cap
  pub sized : length b.buffer ≡ b.init_cap + buffer_offset
  pub ordered : b.head ≤ b.tail
  pub within : b.tail ≤ length b.buffer
  pub small : length b.buffer < 2 ^ 63

pub readable_lem : {b : MessageBuffer} → IsValid b → readable_bytes b + b.head ≡ b.tail
readable_lem v = omega arith

pub writable_lem : {b : MessageBuffer} → IsValid b → writable_bytes b + b.tail ≡ length b.buffer
writable_lem v = omega arith

pub length-contents : (b : MessageBuffer) → length (contents b) ≡ readable_bytes b
length-contents b = length-slice b.buffer b.head (readable_bytes b)

pub new_message_buffer-IsValid :
    (len : ℕ) → buffer_offset ≤ len → len < 2 ^ 62 → IsValid (new_message_buffer len)
unfolding new_message_buffer
new_message_buffer-IsValid len h k = record {
  offset = h;
  sized = length-resize (add_size len buffer_offset) _ ∙ omega arith;
  ordered = omega arith;
  within = omega (arith, length-resize (add_size len buffer_offset));
  small = omega (arith, length-resize (add_size len buffer_offset));
}

pub length-new_message_buffer :
    (len : ℕ) → len < 2 ^ 62 → length (new_message_buffer len).buffer ≡ len + buffer_offset
unfolding new_message_buffer
length-new_message_buffer len h = length-resize (add_size len buffer_offset) _ ∙ omega arith

pub contents-new_message_buffer : (len : ℕ) → contents (new_message_buffer len) ≡ []
unfolding new_message_buffer
contents-new_message_buffer len = refl
