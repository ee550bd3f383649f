-- ===== src/Funcs.antt =====
-- `splitString` (netpoll/util/funcs.h), on lists of characters. `hton64` is in Buffer.Words.
pub mod Finding
pub mod Splitting
mod Tests
use netpoll_cpp.Base.{
  Bool, List, Option, [], drop, false, if◌then◌else◌, length, ltb, none, some, suc, take, true,
  zero, ℕ, ◌&&◌, ◌+◌, ◌-◌, ◌==◌, ◌>>=◌, ◌||◌, ◌∷◌,
}

unfoldable pub starts_with : (d s : List ℕ) → Bool
starts_with [] s = true
starts_with (c ∷ d) [] = false
starts_with (c ∷ d) (x ∷ s) = (c == x) && starts_with d s

-- `std::string::find` from 0: where the first occurrence is, or `npos`, which is `none`.
unfoldable pub find : (d s : List ℕ) → Option ℕ
unfolding starts_with
find d [] = if starts_with d [] then some 0 else none
find d (x ∷ s) =
    let further = find d s in
    if starts_with d (x ∷ s) then some 0 else further >>= (λ k. some (suc k))

unfoldable pub find_from : (d s : List ℕ) → (last : ℕ) → Option ℕ
unfolding find
find_from d s last = find d (drop last s) >>= (λ k. some (k + last))

abbrev pub substr : List ℕ → ℕ → ℕ → List ℕ
substr s pos n = take n (drop pos s)

abbrev pub put_if : Bool → List ℕ → List (List ℕ) → List (List ℕ)
put_if true p v = p ∷ v
put_if false p v = v

-- The loop: what it appends to `v` with `last`, and behind it what is appended at the end. `none`
-- when the fuel does not suffice.
unfoldable pub split_loop :
    ℕ → (d s : List ℕ) → (accept_empty : Bool) → (last : ℕ) → Option (List (List ℕ))
unfolding find_from
split_loop zero d s accept_empty last = none
split_loop (suc n) d s accept_empty last = elim (find_from d s last) [
  | none ↦ some (put_if (ltb last (length s) || accept_empty) (drop last s) [])
  | some next ↦
      split_loop n d s accept_empty (next + length d)
      >>= (λ v. some (put_if (ltb last next || accept_empty) (substr s last (next - last)) v))
]

unfoldable pub split_string : (s d : List ℕ) → (accept_empty : Bool) → Option (List (List ℕ))
unfolding split_loop
split_string s [] accept_empty = some []
split_string s (c ∷ d) accept_empty = split_loop (suc (length s)) (c ∷ d) s accept_empty 0
