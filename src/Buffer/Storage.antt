-- ===== src/Buffer/Storage.antt =====
-- The byte storage below a message buffer (netpoll/util/message_buffer.h, `m_buffer`): reading a
-- range of a `std::vector<char>`, `memcpy` into it, `std::copy` within it and `resize`.
use mathlib.Core.Path.{ap₂}
use netpoll_cpp.Base.{
  List, [], ap, arith, drop, get_or, get_or-set_ne, get_or-set_self, length, length-set, refl, set,
  suc, sym, take, zero, ℕ, ◌++◌, ◌+◌, ◌-◌, ◌<◌, ◌∙◌, ◌∷◌, ◌≡◌, ◌≤◌, ◌⊎◌,
}

-- The `n` bytes from index `i` on, as `std::string{ptr, n}` reads them.
abbrev pub slice : List ℕ → ℕ → ℕ → List ℕ
slice buf i zero = []
slice buf i (suc n) = get_or buf i 0 ∷ slice buf (suc i) n

-- `memcpy(&buf[i], bytes)`: the bytes go to the indices from `i` on.
unfoldable pub memcpy : List ℕ → ℕ → List ℕ → List ℕ
memcpy buf i [] = buf
memcpy buf i (x ∷ xs) = memcpy (set buf i x) (suc i) xs

-- `std::copy(buf + i, buf + i + n, buf + d)`: byte by byte, from the first to the last.
unfoldable pub copy : List ℕ → ℕ → ℕ → ℕ → List ℕ
copy buf i zero d = buf
copy buf i (suc n) d = copy (set buf d (get_or buf i 0)) (suc i) n (suc d)

-- `std::vector<char>::resize(n)`: new bytes are 0.
unfoldable pub resize : ℕ → List ℕ → List ℕ
resize zero xs = []
resize (suc n) [] = 0 ∷ resize n []
resize (suc n) (x ∷ xs) = x ∷ resize n xs

pub length-slice : (buf : List ℕ) (i n : ℕ) → length (slice buf i n) ≡ n
length-slice buf i zero = refl
length-slice buf i (suc n) = ap suc (length-slice buf (suc i) n)

pub length-resize : (n : ℕ) (xs : List ℕ) → length (resize n xs) ≡ n
unfolding resize
length-resize zero xs = refl
length-resize (suc n) [] = ap suc (length-resize n [])
length-resize (suc n) (x ∷ xs) = ap suc (length-resize n xs)

pub length-memcpy : (buf : List ℕ) (i : ℕ) (xs : List ℕ) → length (memcpy buf i xs) ≡ length buf
unfolding memcpy
length-memcpy buf i [] = refl
length-memcpy buf i (x ∷ xs) = length-memcpy (set buf i x) (suc i) xs ∙ length-set buf i x

pub length-copy : (buf : List ℕ) (i n d : ℕ) → length (copy buf i n d) ≡ length buf
unfolding copy
length-copy buf i zero d = refl
length-copy buf i (suc n) d =
    length-copy (set buf d (get_or buf i 0)) (suc i) n (suc d) ∙ length-set buf d (get_or buf i 0)

-- A slice is two slices in a row.
pub slice-add :
    (buf : List ℕ) (i n m : ℕ) → slice buf i (n + m) ≡ slice buf i n ++ slice buf (i + n) m
slice-add buf i zero m = ap₂ (slice buf) (omega arith) (omega arith)
slice-add buf i (suc n) m =
    ap (slice buf i) (shift n m)
    ∙ ap (λ r. get_or buf i 0 ∷ r)
        (slice-add buf (suc i) n m ∙ ap (λ k. slice buf (suc i) n ++ slice buf k m) (omega arith))
  where
    shift : (n m : ℕ) → suc n + m ≡ suc (n + m)
    shift n m = omega arith

pub take-slice : (buf : List ℕ) (i n k : ℕ) → k ≤ n → take k (slice buf i n) ≡ slice buf i k
take-slice buf i n zero h = refl
take-slice buf i zero (suc k) h = absurd (omega arith)
take-slice buf i (suc n) (suc k) h =
    ap (λ r. get_or buf i 0 ∷ r) (take-slice buf (suc i) n k (omega arith))

pub drop-slice :
    (buf : List ℕ) (i n k : ℕ) → k ≤ n → drop k (slice buf i n) ≡ slice buf (i + k) (n - k)
drop-slice buf i n zero h = ap₂ (slice buf) (omega arith) (omega arith)
drop-slice buf i zero (suc k) h = absurd (omega arith)
drop-slice buf i (suc n) (suc k) h =
    drop-slice buf (suc i) n k (omega arith) ∙ ap₂ (slice buf) (omega arith) (omega arith)

-- Storages that agree on a range have the same slice there.
slice-congr :
    (b c : List ℕ) (i n : ℕ)
    → ((j : ℕ) → i ≤ j → j < i + n → get_or b j 0 ≡ get_or c j 0)
    → slice b i n ≡ slice c i n
slice-congr b c i zero h = refl
slice-congr b c i (suc n) h =
    ap₂ ◌∷◌ (h i (omega arith) (omega arith))
      (slice-congr b c (suc i) n λ j l u. h j (omega arith) (omega arith))

get_or-memcpy_before :
    (buf : List ℕ) (i : ℕ) (xs : List ℕ) (j : ℕ)
    → j < i
    → get_or (memcpy buf i xs) j 0 ≡ get_or buf j 0
unfolding memcpy
get_or-memcpy_before buf i [] j h = refl
get_or-memcpy_before buf i (x ∷ xs) j h =
    get_or-memcpy_before (set buf i x) (suc i) xs j (omega arith)
    ∙ get_or-set_ne buf i j x 0 (omega arith)

pub get_or-memcpy_after :
    (buf : List ℕ) (i : ℕ) (xs : List ℕ) (j : ℕ)
    → i + length xs ≤ j
    → get_or (memcpy buf i xs) j 0 ≡ get_or buf j 0
unfolding memcpy
get_or-memcpy_after buf i [] j h = refl
get_or-memcpy_after buf i (x ∷ xs) j h =
    get_or-memcpy_after (set buf i x) (suc i) xs j (omega arith)
    ∙ get_or-set_ne buf i j x 0 (omega arith)

-- What `memcpy` wrote is read back, and it writes nowhere else.
pub slice-memcpy :
    (buf : List ℕ) (i : ℕ) (xs : List ℕ)
    → i + length xs ≤ length buf
    → slice (memcpy buf i xs) i (length xs) ≡ xs
unfolding memcpy
slice-memcpy buf i [] h = refl
slice-memcpy buf i (x ∷ xs) h =
    ap₂ ◌∷◌
      (get_or-memcpy_before (set buf i x) (suc i) xs i (omega arith)
        ∙ get_or-set_self buf i x 0 (omega arith))
      (slice-memcpy (set buf i x) (suc i) xs (omega (arith, length-set buf i x)))

pub slice-memcpy_before :
    (buf : List ℕ) (i : ℕ) (xs : List ℕ) (f n : ℕ)
    → f + n ≤ i
    → slice (memcpy buf i xs) f n ≡ slice buf f n
slice-memcpy_before buf i xs f n h =
    slice-congr (memcpy buf i xs) buf f n λ j l u. get_or-memcpy_before buf i xs j (omega arith)

pub slice-memcpy_after :
    (buf : List ℕ) (i : ℕ) (xs : List ℕ) (f n : ℕ)
    → i + length xs ≤ f
    → slice (memcpy buf i xs) f n ≡ slice buf f n
slice-memcpy_after buf i xs f n h =
    slice-congr (memcpy buf i xs) buf f n λ j l u. get_or-memcpy_after buf i xs j (omega arith)

pub get_or-copy_before :
    (buf : List ℕ) (i n d j : ℕ) → j < d → get_or (copy buf i n d) j 0 ≡ get_or buf j 0
unfolding copy
get_or-copy_before buf i zero d j h = refl
get_or-copy_before buf i (suc n) d j h =
    get_or-copy_before (set buf d (get_or buf i 0)) (suc i) n (suc d) j (omega arith)
    ∙ get_or-set_ne buf d j (get_or buf i 0) 0 (omega arith)

-- `std::copy` is exact downwards, and upwards where the ranges do not overlap.
pub slice-copy :
    (buf : List ℕ) (i n d : ℕ)
    → (d < i) ⊎ (i + n ≤ d)
    → d + n ≤ length buf
    → slice (copy buf i n d) d n ≡ slice buf i n
unfolding copy
slice-copy buf i zero d apart fits = refl
slice-copy buf i (suc n) d apart fits =
    ap₂ ◌∷◌
      (get_or-copy_before once (suc i) n (suc d) d (omega arith)
        ∙ get_or-set_self buf d x 0 (omega arith))
      (slice-copy once (suc i) n (suc d) (omega arith) (omega (arith, length-set buf d x))
        ∙ slice-congr once buf (suc i) n λ j l u. get_or-set_ne buf d j x 0 (omega arith))
  where
    x : ℕ
    x = get_or buf i 0

    once : List ℕ
    once = set buf d x

-- A byte of a slice.
pub get_or-slice :
    (buf : List ℕ) (i n j : ℕ) → j < n → get_or (slice buf i n) j 0 ≡ get_or buf (i + j) 0
get_or-slice buf i zero j h = absurd (omega arith)
get_or-slice buf i (suc n) zero h = ap (λ k. get_or buf k 0) (omega arith)
get_or-slice buf i (suc n) (suc j) h =
    get_or-slice buf (suc i) n j (omega arith) ∙ ap (λ k. get_or buf k 0) (omega arith)

-- Copied upwards over itself, a range repeats: each byte is the one `d - i` before it.
pub get_or-copy_up :
    (buf : List ℕ) (i n d j : ℕ)
    → i < d
    → j < n
    → d + n ≤ length buf
    → get_or (copy buf i n d) (d + j) 0 ≡ get_or (copy buf i n d) (i + j) 0
unfolding copy
get_or-copy_up buf i zero d j h k fits = absurd (omega arith)
get_or-copy_up buf i (suc n) d zero h k fits =
    ap (λ m. get_or (copy once (suc i) n (suc d)) m 0) {x = d + 0} {y = d} (omega arith)
    ∙ get_or-copy_before once (suc i) n (suc d) d (omega arith)
    ∙ get_or-set_self buf d (get_or buf i 0) 0 (omega arith)
    ∙ sym (get_or-set_ne buf d i (get_or buf i 0) 0 (omega arith))
    ∙ sym (get_or-copy_before once (suc i) n (suc d) i (omega arith))
    ∙ ap (λ m. get_or (copy once (suc i) n (suc d)) m 0) {x = i} {y = i + 0} (omega arith)
  where
    once : List ℕ
    once = set buf d (get_or buf i 0)
get_or-copy_up buf i (suc n) d (suc j) h k fits =
    ap (λ m. get_or (copy once (suc i) n (suc d)) m 0) {x = d + suc j} {y = suc d + j} (omega arith)
    ∙ get_or-copy_up once (suc i) n (suc d) j (omega arith) (omega arith)
        (omega (arith, length-set buf d (get_or buf i 0)))
    ∙ ap (λ m. get_or (copy once (suc i) n (suc d)) m 0) {x = suc i + j} {y = i + suc j}
        (omega arith)
  where
    once : List ℕ
    once = set buf d (get_or buf i 0)
