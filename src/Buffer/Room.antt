-- ===== src/Buffer/Room.antt =====
-- `ensureWritableBytes`: it returns, keeps the invariant and what is readable, makes the room asked
-- for, and lets the vector grow to a little over twice what it must hold.
-- A new buffer has room for what it was made for, so that `pushBack` on it goes no deeper.

use netpoll_cpp.Base.{
  Bool-cases, [], add_size, ap, arith, false, inl, inr, leb, leb→le, leb→lt, length, max, refl,
  some, suc, true, ℕ, ◌*◌, ◌++◌, ◌+◌, ◌-◌, ◌<◌, ◌^◌, ◌∙◌, ◌≡◌, ◌≤◌,
}
use netpoll_cpp.Buffer.{
  MessageBuffer, buffer_offset, compact, contents, ensure_fuel, ensure_writable_bytes, grown_len,
  new_message_buffer, push_fitted, readable_bytes, swap, writable_bytes,
}
use netpoll_cpp.Buffer.Bounds.{
  IsValid, length-contents, new_message_buffer-IsValid, readable_lem, writable_lem,
}
use netpoll_cpp.Buffer.Fitted.{
  compact-IsValid, compact_sizes, contents-compact, contents-push_fitted, push_fitted-IsValid,
  push_fitted_sizes,
}
use netpoll_cpp.Buffer.Storage.{length-resize}

ensure_fuel_fresh :
    (fuel len n : ℕ)
    → n ≤ len
    → len < 2 ^ 62
    → ensure_fuel (suc fuel) n (new_message_buffer len) ≡ some (new_message_buffer len)
unfolding ensure_fuel new_message_buffer
ensure_fuel_fresh fuel len n h k = ground (arith, length-resize (add_size len buffer_offset) [])

-- What a call of `ensureWritableBytes` leaves.
pub record Room (b : MessageBuffer) (len : ℕ) (c : MessageBuffer) : Type 0 where
  pub valid : IsValid c
  pub same : contents c ≡ contents b
  pub room : len ≤ writable_bytes c
  pub size_le : length c.buffer ≤ max (length b.buffer) (2 * (readable_bytes b + len) + 24)

-- The bytes that a growing buffer takes over, in the new vector.
module _ {b : MessageBuffer} (v : IsValid b) (len : ℕ) (fits : length b.buffer + len < 2 ^ 61) where
  grown : MessageBuffer
  grown = new_message_buffer (grown_len len b)

  grown_len_bounds :
      (readable_bytes b + len + buffer_offset ≤ grown_len len b)
      × (grown_len len b ≤ max (2 * length b.buffer) (readable_bytes b + len + buffer_offset))
  unfolding grown_len
  grown_len_bounds = ground (arith, readable_lem v)

  grown-IsValid : IsValid grown
  unfolding grown
  grown-IsValid =
      new_message_buffer-IsValid (grown_len len b) (omega (arith, grown_len_bounds))
        (omega (arith, grown_len_bounds, readable_lem v, v.within))

  grown_room : writable_bytes grown ≡ grown_len len b
  unfolding grown new_message_buffer
  grown_room = omega (
    arith,
    length-resize (add_size (grown_len len b) buffer_offset) [],
    grown_len_bounds,
    readable_lem v,
    v.within,
  )

  length-grown : length grown.buffer ≡ grown_len len b + buffer_offset
  unfolding grown new_message_buffer
  length-grown =
      length-resize (add_size (grown_len len b) buffer_offset) []
      ∙ omega (arith, grown_len_bounds, readable_lem v, v.within)

  contents-grown : contents grown ≡ []
  unfolding grown new_message_buffer
  contents-grown = refl

  ensure_fuel_grow :
      (fuel : ℕ)
      → leb len (writable_bytes b) ≡ false
      → leb (add_size len buffer_offset) (add_size b.head (writable_bytes b)) ≡ false
      → ensure_fuel (suc (suc fuel)) len b ≡ some (push_fitted (contents b) grown)
  unfolding ensure_fuel swap grown
  ensure_fuel_grow fuel p q = rw (p, q, deeper)
    where
      deeper : ensure_fuel (suc fuel) (readable_bytes b) grown ≡ some grown
      deeper =
          ensure_fuel_fresh fuel (grown_len len b) (readable_bytes b)
            (omega (arith, grown_len_bounds))
            (omega (arith, grown_len_bounds, readable_lem v, v.within))

  grown-Room :
      leb (add_size len buffer_offset) (add_size b.head (writable_bytes b)) ≡ false
      → Room b len (push_fitted (contents b) grown)
  grown-Room p = record {
    valid = push_fitted-IsValid (contents b) grown-IsValid fit;
    same =
        contents-push_fitted (contents b) grown-IsValid fit
        ∙ ap (λ r. r ++ contents b) contents-grown;
    room = omega (
      arith,
      push_fitted_sizes (contents b) grown-IsValid fit,
      length-contents b,
      grown_room,
      grown_len_bounds,
    );
    size_le = omega (
      arith,
      push_fitted_sizes (contents b) grown-IsValid fit,
      length-grown,
      grown_len_bounds,
      crowded,
    );
  }
    where
      fit : length (contents b) ≤ writable_bytes grown
      fit = omega (arith, length-contents b, grown_room, grown_len_bounds)

      crowded : length b.buffer < readable_bytes b + len + buffer_offset
      crowded = omega (
        arith,
        leb→lt (add_size len buffer_offset) (add_size b.head (writable_bytes b)) p,
        readable_lem v,
        writable_lem v,
      )

ensure_fuel_enough :
    (b : MessageBuffer) (len fuel : ℕ)
    → leb len (writable_bytes b) ≡ true
    → ensure_fuel (suc fuel) len b ≡ some b
unfolding ensure_fuel
ensure_fuel_enough b len fuel p = rw p

ensure_fuel-compact :
    (b : MessageBuffer) (len fuel : ℕ)
    → leb len (writable_bytes b) ≡ false
    → leb (add_size len buffer_offset) (add_size b.head (writable_bytes b)) ≡ true
    → ensure_fuel (suc fuel) len b ≡ some (compact b)
unfolding ensure_fuel
ensure_fuel-compact b len fuel p q = rw (p, q)

enough-Room : {b : MessageBuffer} {len : ℕ} → IsValid b → len ≤ writable_bytes b → Room b len b
enough-Room v h = record { valid = v; same = refl; room = h; size_le = omega arith }

compact-Room :
    {b : MessageBuffer} (v : IsValid b) (len : ℕ)
    → length b.buffer + len < 2 ^ 61
    → leb len (writable_bytes b) ≡ false
    → leb (add_size len buffer_offset) (add_size b.head (writable_bytes b)) ≡ true
    → Room b len (compact b)
compact-Room {b} v len fits p q = record {
  valid = compact-IsValid v ahead;
  same = contents-compact v ahead;
  room = omega (arith, moved, writable_lem v, readable_lem v, v.within, movable);
  size_le = omega (arith, moved);
}
  where
    movable : len + buffer_offset ≤ b.head + writable_bytes b
    movable = omega (arith, leb→le _ _ q, writable_lem v, v.small, v.ordered, v.within)

    ahead : buffer_offset < b.head
    ahead = omega (arith, leb→lt _ _ p, movable)

    moved :
        (length (compact b).buffer ≡ length b.buffer)
        × (writable_bytes (compact b) ≡ b.head + writable_bytes b - buffer_offset)
    moved = compact_sizes v ahead

-- `ensureWritableBytes` returns on a valid buffer, keeps what is readable and makes room.
pub ensure_writable_bytes_lem :
    {b : MessageBuffer} (len : ℕ)
    → IsValid b
    → length b.buffer + len < 2 ^ 61
    → (c : MessageBuffer) × (ensure_writable_bytes len b ≡ some c) × Room b len c
unfolding ensure_writable_bytes
ensure_writable_bytes_lem {b} len v fits = elim (Bool-cases (leb len (writable_bytes b))) [
  | inl enough ↦ (b, ensure_fuel_enough b len 1 enough, enough-Room v (leb→le _ _ enough))
  | inr more ↦
      elim (Bool-cases (leb (add_size len buffer_offset) (add_size b.head (writable_bytes b)))) [
        | inl movable ↦ (
          compact b,
          ensure_fuel-compact b len 1 more movable,
          compact-Room v len fits more movable,
        )
        | inr full ↦ (
          push_fitted (contents b) (grown v len fits),
          ensure_fuel_grow v len fits 0 more full,
          grown-Room v len fits full,
        )
      ]
]
