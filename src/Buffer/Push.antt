-- ===== src/Buffer/Push.antt =====
-- The two `pushBack`: they return, keep the invariant and append exactly the bytes given.
-- What an appending call leaves.
use netpoll_cpp.Base.{
  List, ap, arith, length, max, some, ℕ, ◌*◌, ◌++◌, ◌+◌, ◌<◌, ◌^◌, ◌∙◌, ◌≡◌, ◌≤◌,
}
use netpoll_cpp.Buffer.{
  MessageBuffer, contents, push_back, push_back_buffer, push_fitted, readable_bytes,
}
use netpoll_cpp.Buffer.Bounds.{IsValid, length-contents}
use netpoll_cpp.Buffer.Fitted.{contents-push_fitted, push_fitted-IsValid, push_fitted_sizes}
use netpoll_cpp.Buffer.Room.{Room, ensure_writable_bytes_lem}

pub record Appended (b : MessageBuffer) (xs : List ℕ) (c : MessageBuffer) : Type 0 where
  pub valid : IsValid c
  pub bytes : contents c ≡ contents b ++ xs
  pub size_le : length c.buffer ≤ max (length b.buffer) (2 * (readable_bytes b + length xs) + 24)

Room-Appended :
    {b c : MessageBuffer} (xs : List ℕ) → Room b (length xs) c → Appended b xs (push_fitted xs c)
Room-Appended xs r = record {
  valid = push_fitted-IsValid xs r.valid r.room;
  bytes = contents-push_fitted xs r.valid r.room ∙ ap (λ s. s ++ xs) r.same;
  size_le = omega (arith, push_fitted_sizes xs r.valid r.room, r.size_le);
}

-- `pushBack` of a string on a valid buffer returns, keeps the invariant and appends the string to
-- what is readable; the vector stays, or is at most 24 bytes over twice what it then holds.
pub push_back_lem :
    {b : MessageBuffer} (xs : List ℕ)
    → IsValid b
    → length b.buffer + length xs < 2 ^ 61
    → (c : MessageBuffer) × (push_back xs b ≡ some c) × Appended b xs c
unfolding push_back
push_back_lem {b} xs v fits =
    let (c, e, r) = ensure_writable_bytes_lem (length xs) v fits in
    (push_fitted xs c, rw (e, push_back), Room-Appended xs r)

-- `pushBack` of another buffer appends what is readable there.
pub push_back_buffer_lem :
    {b : MessageBuffer} (other : MessageBuffer)
    → IsValid b
    → length b.buffer + readable_bytes other < 2 ^ 61
    → (c : MessageBuffer) × (push_back_buffer other b ≡ some c) × Appended b (contents other) c
unfolding push_back_buffer
push_back_buffer_lem {b} other v fits =
    let (c, e, r) = ensure_writable_bytes_lem (readable_bytes other) v fits in
    (
      push_fitted (contents other) c,
      rw (e, push_back_buffer),
      Room-Appended (contents other) (rw (length-contents other) r),
    )
