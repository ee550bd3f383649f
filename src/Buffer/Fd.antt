-- ===== src/Buffer/Fd.antt =====
-- `readFd`: one `readv` into the room behind the tail and, where that is short, into 8192 bytes on
-- the stack, which are then appended.
use netpoll_cpp.Base.{
  Bool-cases, List, Option, [], add_size, ap, append_assoc, arith, drop, if◌then◌else◌, inl, inr,
  leb, leb→le, leb→lt, length, length-drop, length-take, le→leb, ltb, lt→leb, some, sub_size, take,
  take-append-drop, take_all, ℕ, ◌%◌, ◌++◌, ◌+◌, ◌-◌, ◌<◌, ◌>>=◌, ◌^◌, ◌∙◌, ◌∷◌, ◌≡◌, ◌≤◌,
}
use netpoll_cpp.Buffer.{MessageBuffer, contents, push_back, push_fitted, writable_bytes}
use netpoll_cpp.Buffer.Bounds.{IsValid, writable_lem}
use netpoll_cpp.Buffer.Fitted.{contents-push_fitted, push_fitted-IsValid, push_fitted_sizes}
use netpoll_cpp.Buffer.Push.{push_back_lem}
use netpoll_cpp.Buffer.Storage.{memcpy}

-- What `readv` answers: `errno`, or the bytes that came. It is a function of the lengths given.
pub data Readv : Type 0 where
  failed : ℕ → Readv
  got : List ℕ → Readv

abbrev pub ext_len : ℕ
ext_len = 8192

-- `static_cast<int>(writable)`, stored in a `size_t`.
abbrev pub iov_len : ℕ → ℕ
iov_len n = if ltb (n % 2 ^ 32) (2 ^ 31) then n % 2 ^ 32 else n % 2 ^ 32 + 2 ^ 64 - 2 ^ 32

abbrev pub iov_lens : MessageBuffer → List ℕ
iov_lens b =
    if ltb (writable_bytes b) ext_len
    then iov_len (writable_bytes b) ∷ ext_len ∷ []
    else iov_len (writable_bytes b) ∷ []

-- What `readFd` does with the bytes: those that fit stand behind the tail, the others in `ext`.
receive : List ℕ → MessageBuffer → Option MessageBuffer
receive bytes b =
    let direct = take (iov_len (writable_bytes b)) bytes in
    let ext = drop (iov_len (writable_bytes b)) bytes in
    let n = length bytes in
    let stored = memcpy b.buffer b.tail direct in
    if leb n (writable_bytes b)
    then some (record b { buffer = stored; tail = add_size b.tail n })
    else push_back (take (sub_size n (writable_bytes b)) ext)
        (record b { buffer = stored; tail = length b.buffer })

-- The answer is what `readv` answered; `retErrno` is in it.
unfoldable pub read_fd : (List ℕ → Readv) → MessageBuffer → Option (Readv × MessageBuffer)
unfolding receive push_back
read_fd readv b = elim (readv (iov_lens b)) [
  | failed e ↦ some (failed e, b)
  | got bytes ↦ receive bytes b >>= λ c. some (got bytes, c)
]

module _ {b : MessageBuffer} (v : IsValid b) (small : length b.buffer < 2 ^ 31) where
  iov_len_lem : iov_len (writable_bytes b) ≡ writable_bytes b
  iov_len_lem = ground (arith, writable_lem v)

  receive_direct :
      (bytes : List ℕ)
      → length bytes ≤ writable_bytes b
      → receive bytes b ≡ some (push_fitted bytes b)
  unfolding receive push_fitted
  receive_direct bytes fits =
      let whole : take (iov_len (writable_bytes b)) bytes ≡ bytes =
        take_all (iov_len (writable_bytes b)) bytes (omega (arith, iov_len_lem)) in
      rw (le→leb (length bytes) (writable_bytes b) fits, whole)

  module _ (bytes : List ℕ) (over : writable_bytes b < length bytes) where
    direct : List ℕ
    direct = take (writable_bytes b) bytes

    ext : List ℕ
    ext = drop (writable_bytes b) bytes

    length-direct : length direct ≡ writable_bytes b
    unfolding direct
    length-direct = omega (arith, length-take (writable_bytes b) bytes)

    length-ext : length ext ≡ length bytes - writable_bytes b
    unfolding ext
    length-ext = length-drop (writable_bytes b) bytes

    direct-append-ext : direct ++ ext ≡ bytes
    unfolding direct ext
    direct-append-ext = take-append-drop (writable_bytes b) bytes

    full_tail : length b.buffer ≡ add_size b.tail (length direct)
    full_tail = omega (arith, length-direct, writable_lem v)

    receive_over : length bytes < 2 ^ 62 → receive bytes b ≡ push_back ext (push_fitted direct b)
    unfolding receive push_fitted direct ext
    receive_over few =
        rw
          (
            lt→leb (length bytes) (writable_bytes b) over,
            iov_len_lem,
            take_all (sub_size (length bytes) (writable_bytes b)) ext (omega (arith, length-ext)),
          )
          (ap (λ k. push_back ext (record b { buffer = memcpy b.buffer b.tail direct; tail = k }))
            full_tail)

receive_lem :
    {b : MessageBuffer} (bytes : List ℕ)
    → IsValid b
    → length b.buffer < 2 ^ 31
    → length bytes ≤ writable_bytes b + ext_len
    → (c : MessageBuffer) × (receive bytes b ≡ some c)
      × IsValid c
      × (contents c ≡ contents b ++ bytes)
receive_lem {b} bytes v small few = elim (Bool-cases (leb (length bytes) (writable_bytes b))) [
  | inl fits ↦
      let h : length bytes ≤ writable_bytes b = leb→le _ _ fits in
      (
        push_fitted bytes b,
        receive_direct v small bytes h,
        push_fitted-IsValid bytes v h,
        contents-push_fitted bytes v h,
      )
  | inr more ↦
      let over : writable_bytes b < length bytes = leb→lt _ _ more in
      let d = direct v small bytes over in
      let x = ext v small bytes over in
      let room : length d ≤ writable_bytes b = omega (arith, length-direct v small bytes over) in
      let fv = push_fitted-IsValid d v room in
      let (c, e, a) = push_back_lem x fv (
        omega (arith, push_fitted_sizes d v room, length-ext v small bytes over, writable_lem v)) in
      (
        c,
        receive_over v small bytes over (omega (arith, writable_lem v)) ∙ e,
        a.valid,
        a.bytes
            ∙ ap (λ r. r ++ x) (contents-push_fitted d v room)
            ∙ append_assoc (contents b) d x
            ∙ ap (λ r. contents b ++ r) (direct-append-ext v small bytes over),
      )
]

-- If `readv` brings bytes, and no more than it was offered, `readFd` on a valid buffer of less than
-- 2^31 bytes returns them, and appends all of them, those on the stack too.
pub read_fd_lem :
    {b : MessageBuffer} (readv : List ℕ → Readv) (bytes : List ℕ)
    → IsValid b
    → length b.buffer < 2 ^ 31
    → readv (iov_lens b) ≡ got bytes
    → length bytes ≤ writable_bytes b + ext_len
    → (c : MessageBuffer) × (read_fd readv b ≡ some (got bytes, c))
      × IsValid c
      × (contents c ≡ contents b ++ bytes)
unfolding read_fd
read_fd_lem readv bytes v small e few =
    let (c, r, cv, cb) = receive_lem bytes v small few in (c, rw (e, read_fd, r, ◌>>=◌), cv, cb)
