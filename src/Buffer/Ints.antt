-- ===== src/Buffer/Ints.antt =====
-- Integers on the wire: `pushBackInt16`, `32` and `64`, `pushFrontInt…`, `peekInt…` and `readInt…`.
-- `w` is the width in bytes and `little` the host's byte order.

use netpoll_cpp.Base.{
  Bool, List, Option, [], ap, append-nil, arith, drop, drop-append, get_or, inl, length,
  length-append, some, sym, take, take-append, ℕ, ◌++◌, ◌+◌, ◌<◌, ◌^◌, ◌∙◌, ◌∷◌, ◌≡◌, ◌≤◌,
}
use netpoll_cpp.Buffer.{MessageBuffer, contents, push_back, push_front, readable_bytes, retrieve}
use netpoll_cpp.Buffer.Bounds.{IsValid, length-contents}
use netpoll_cpp.Buffer.Front.{push_front_lem}
use netpoll_cpp.Buffer.Push.{Appended, push_back_lem}
use netpoll_cpp.Buffer.Storage.{slice, take-slice}
use netpoll_cpp.Buffer.Take.{Left, retrieve-Left}
use netpoll_cpp.Buffer.Words.{
  be_bytes, host_bytes, host_bytes-hton, host_value, hton, hton-host_value, length-be_bytes,
}

unfoldable pub push_back_int : Bool → ℕ → ℕ → MessageBuffer → Option MessageBuffer
unfolding host_bytes hton push_back
push_back_int little w n b = push_back (host_bytes little w (hton little w n)) b

-- `pushBackInt8` and `pushFrontInt8` convert nothing.
unfoldable pub push_back_int8 : ℕ → MessageBuffer → Option MessageBuffer
unfolding push_back
push_back_int8 n b = push_back (n ∷ []) b

unfoldable pub push_front_int : Bool → ℕ → ℕ → MessageBuffer → Option MessageBuffer
unfolding host_bytes hton push_front
push_front_int little w n b = push_front (host_bytes little w (hton little w n)) b

unfoldable pub push_front_int8 : ℕ → MessageBuffer → Option MessageBuffer
unfolding push_front
push_front_int8 n b = push_front (n ∷ []) b

unfoldable pub peek_int : Bool → ℕ → MessageBuffer → ℕ
unfolding hton host_value
peek_int little w b = hton little w (host_value little (slice b.buffer b.head w))

unfoldable pub peek_int8 : MessageBuffer → ℕ
peek_int8 b = get_or b.buffer b.head 0

unfoldable pub read_int : Bool → ℕ → MessageBuffer → ℕ × MessageBuffer
unfolding peek_int retrieve
read_int little w b = (peek_int little w b, retrieve w b)

unfoldable pub read_int8 : MessageBuffer → ℕ × MessageBuffer
unfolding peek_int8 retrieve
read_int8 b = (peek_int8 b, retrieve 1 b)

-- A word at the front of what is readable is read back on every host, and only it is removed.
pub read_int_lem :
    (little : Bool) (w n : ℕ) (rest : List ℕ) {b : MessageBuffer}
    → IsValid b
    → n < 256 ^ w
    → contents b ≡ be_bytes w n ++ rest
    → ((read_int little w b).0 ≡ n) × Left b rest (read_int little w b).1
unfolding read_int peek_int
read_int_lem little w n rest {b} v h e = (
  ap (λ s. hton little w (host_value little s)) front ∙ hton-host_value little w n h,
  rw rest_eq at (retrieve-Left w v),
)
  where
    within : w ≤ readable_bytes b
    within = omega (
      arith,
      length-contents b,
      ap (λ (l : List ℕ). length l) e,
      length-append (be_bytes w n) rest,
      length-be_bytes w n,
    )

    front : slice b.buffer b.head w ≡ be_bytes w n
    front =
        sym (take-slice b.buffer b.head (readable_bytes b) w within)
        ∙ ap (take w) e
        ∙ ap (λ k. take k (be_bytes w n ++ rest)) (sym (length-be_bytes w n))
        ∙ take-append (be_bytes w n) rest

    rest_eq : drop w (contents b) ≡ rest
    rest_eq =
        ap (drop w) e
        ∙ ap (λ k. drop k (be_bytes w n ++ rest)) (sym (length-be_bytes w n))
        ∙ drop-append (be_bytes w n) rest

-- `pushBackInt…` appends the word in network order, whatever the host.
pub push_back_int_lem :
    (little : Bool) (w n : ℕ) {b : MessageBuffer}
    → IsValid b
    → length b.buffer + w < 2 ^ 61
    → (c : MessageBuffer) × (push_back_int little w n b ≡ some c) × Appended b (be_bytes w n) c
unfolding push_back_int
push_back_int_lem little w n {b} v h =
    rw (host_bytes-hton little w n)
      (push_back_lem (be_bytes w n) v (omega (arith, length-be_bytes w n)))

-- An integer that `pushFrontInt…` puts before a buffer with room is what `readInt…` takes off it
-- again, on hosts of any byte order, and the bytes behind it are the old ones.
pub read_int-push_front_int :
    (writer reader : Bool) (w n : ℕ) {b : MessageBuffer}
    → IsValid b
    → n < 256 ^ w
    → w ≤ b.head
    → length b.buffer < 2 ^ 58
    → (c : MessageBuffer) × (push_front_int writer w n b ≡ some c)
      × ((read_int reader w c).0 ≡ n)
      × (contents (read_int reader w c).1 ≡ contents b)
unfolding push_front_int
read_int-push_front_int writer reader w n {b} v h room small =
    let (c, e, cv, bytes) =
      push_front_lem (be_bytes w n) v (omega (arith, length-be_bytes w n, v.ordered, v.within))
        (inl (omega (arith, length-be_bytes w n))) in
    let r = read_int_lem reader w n (contents b) cv h bytes in
    (c, rw (host_bytes-hton writer w n) e, r.0, r.1.bytes)

-- An integer that `pushBackInt…` appends behind other bytes is what `readInt…` gives once those are
-- taken, on hosts of any byte order, and nothing is left.
pub read_int-push_back_int :
    (writer reader : Bool) (w n : ℕ) {b : MessageBuffer}
    → IsValid b
    → n < 256 ^ w
    → length b.buffer + w < 2 ^ 61
    → (c : MessageBuffer) × (push_back_int writer w n b ≡ some c)
      × (let d = retrieve (readable_bytes b) c in
          ((read_int reader w d).0 ≡ n) × (contents (read_int reader w d).1 ≡ []))
read_int-push_back_int writer reader w n {b} v h fits =
    let (c, e, a) = push_back_int_lem writer w n v fits in
    let l = retrieve-Left (readable_bytes b) a.valid in
    let r = read_int_lem reader w n [] l.valid h (l.bytes ∙ behind c a.bytes) in
    (c, e, (r.0, r.1.bytes))
  where
    behind :
        (c : MessageBuffer)
        → contents c ≡ contents b ++ be_bytes w n
        → drop (readable_bytes b) (contents c) ≡ be_bytes w n ++ []
    behind c p =
        ap (drop (readable_bytes b)) p
        ∙ ap (λ k. drop k (contents b ++ be_bytes w n)) (sym (length-contents b))
        ∙ drop-append (contents b) (be_bytes w n)
        ∙ sym (append-nil (be_bytes w n))
