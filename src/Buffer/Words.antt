-- ===== src/Buffer/Words.antt =====
-- Words in the host's memory and in network order: `hton64` of netpoll/util/funcs.h, and `htons`,
-- `htonl` and their inverses, which convert in the same way.
use mathlib.Core.Path.{ap₂}
use native.Mathlib.Nat.{pow-suc}
use mathlib.Core.List.{reverse, reverse-reverse, reverse-cons}
use netpoll_cpp.Base.{
  Bool, List, [], ap, arith, false, if◌then◌else◌, length, length-append, refl, suc, sym, true,
  zero, ℕ, ◌%◌, ◌*◌, ◌++◌, ◌+◌, ◌/◌, ◌<◌, ◌^◌, ◌∙◌, ◌∷◌, ◌≡◌,
}

-- The `w` bytes of a word, the lowest first.
pub le_bytes : ℕ → ℕ → List ℕ
le_bytes zero n = []
le_bytes (suc w) n = (n % 256) ∷ le_bytes w (n / 256)

pub le_value : List ℕ → ℕ
le_value [] = 0
le_value (x ∷ xs) = x + 256 * le_value xs

-- How a host lays a word out in memory; `little` is the test on `sig`.
unfoldable pub host_bytes : Bool → ℕ → ℕ → List ℕ
unfolding le_bytes
host_bytes little w n = if little then le_bytes w n else reverse (le_bytes w n)

unfoldable pub host_value : Bool → List ℕ → ℕ
unfolding le_value
host_value little xs = if little then le_value xs else le_value (reverse xs)

-- `hton64` at 8 bytes: on a little-endian host the word with its bytes reversed.
unfoldable pub hton : Bool → ℕ → ℕ → ℕ
unfolding host_value host_bytes
hton little w n = if little then host_value little (reverse (host_bytes little w n)) else n

-- Network order: the highest byte first.
unfoldable pub be_bytes : ℕ → ℕ → List ℕ
unfolding le_bytes
be_bytes w n = reverse (le_bytes w n)

abbrev AllBytes : List ℕ → Type 0
AllBytes [] = Unit {0}
AllBytes (x ∷ xs) = (x < 256) × AllBytes xs

AllBytes-append : (xs ys : List ℕ) → AllBytes xs → AllBytes ys → AllBytes (xs ++ ys)
AllBytes-append [] ys h k = k
AllBytes-append (x ∷ xs) ys h k = (h.0, AllBytes-append xs ys h.1 k)

AllBytes-reverse : (xs : List ℕ) → AllBytes xs → AllBytes (reverse xs)
AllBytes-reverse [] h = tt
AllBytes-reverse (x ∷ xs) h =
    rw (reverse-cons x xs)
      (AllBytes-append (reverse xs) (x ∷ []) (AllBytes-reverse xs h.1) (h.0, tt))

le_bytes-AllBytes : (w n : ℕ) → AllBytes (le_bytes w n)
unfolding le_bytes
le_bytes-AllBytes zero n = tt
le_bytes-AllBytes (suc w) n = (omega arith, le_bytes-AllBytes w (n / 256))

length-le_bytes : (w n : ℕ) → length (le_bytes w n) ≡ w
unfolding le_bytes
length-le_bytes zero n = refl
length-le_bytes (suc w) n = ap suc (length-le_bytes w (n / 256))

length-reverse : (xs : List ℕ) → length (reverse xs) ≡ length xs
length-reverse [] = refl
length-reverse (x ∷ xs) =
    rw (reverse-cons x xs, length-append (reverse xs) (x ∷ [])) (omega (arith, length-reverse xs))

pub length-be_bytes : (w n : ℕ) → length (be_bytes w n) ≡ w
unfolding be_bytes
length-be_bytes w n = length-reverse (le_bytes w n) ∙ length-le_bytes w n

-- The two conversions between a word and its bytes are inverse.
le_value-le_bytes : (w n : ℕ) → n < 256 ^ w → le_value (le_bytes w n) ≡ n
unfolding le_bytes le_value
le_value-le_bytes zero n h = omega arith
le_value-le_bytes (suc w) n h =
    omega (arith, le_value-le_bytes w (n / 256) (omega (arith, pow-suc 256 w)))

le_bytes-le_value : (xs : List ℕ) → AllBytes xs → le_bytes (length xs) (le_value xs) ≡ xs
unfolding le_bytes le_value
le_bytes-le_value [] h = refl
le_bytes-le_value (x ∷ xs) h =
    ap₂ ◌∷◌ (omega arith) (ap (le_bytes (length xs)) (omega arith) ∙ le_bytes-le_value xs h.1)

-- On every host a converted word stands in memory in network order.
pub host_bytes-hton :
    (little : Bool) (w n : ℕ) → host_bytes little w (hton little w n) ≡ be_bytes w n
unfolding hton host_bytes host_value be_bytes
host_bytes-hton false w n = refl
host_bytes-hton true w n =
    ap (λ k. le_bytes k (le_value (reverse (le_bytes w n)))) (sym (length-be_bytes w n))
    ∙ le_bytes-le_value (reverse (le_bytes w n))
        (AllBytes-reverse (le_bytes w n) (le_bytes-AllBytes w n))

-- On every host, what is read in network order and converted is the word.
pub hton-host_value :
    (little : Bool) (w n : ℕ) → n < 256 ^ w → hton little w (host_value little (be_bytes w n)) ≡ n
unfolding hton host_bytes host_value be_bytes
hton-host_value false w n h = rw (reverse-reverse (le_bytes w n)) (le_value-le_bytes w n h)
hton-host_value true w n h =
    ap (λ l. le_value (reverse l)) (host_bytes-hton true w n)
    ∙ ap le_value (reverse-reverse (le_bytes w n))
    ∙ le_value-le_bytes w n h

-- The conversion is its own inverse.
pub hton-hton : (little : Bool) (w n : ℕ) → n < 256 ^ w → hton little w (hton little w n) ≡ n
unfolding hton host_bytes host_value be_bytes
hton-hton false w n h = refl
hton-hton true w n h = hton-host_value true w n h

pub hton-zero : (little : Bool) → hton little 4 0 ≡ 0
unfolding hton host_bytes host_value le_bytes le_value
hton-zero false = refl
hton-zero true = refl
