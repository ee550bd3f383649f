-- ===== src/Funcs/Finding.antt =====
-- What `find` gives.
use mathlib.Core.Path.{ap₂}
use netpoll_cpp.Base.{
  Bool, Bool-cases, List, Option-cases, [], ap, arith, drop, false, inl, inr, length, length-append,
  none, refl, some, suc, sym, take, true, zero, ℕ, ◌++◌, ◌+◌, ◌∷◌, ◌≡◌, ◌≤◌, ◌⊎◌,
}
use netpoll_cpp.Funcs.{find, starts_with}

pub find-none_of_nil : (c : ℕ) (d : List ℕ) → find (c ∷ d) [] ≡ none
unfolding find starts_with
find-none_of_nil c d = refl

starts_with-take : (d s : List ℕ) (k : ℕ) → starts_with d (take k s) ≡ true → starts_with d s ≡ true
unfolding starts_with
starts_with-take [] s k h = refl
starts_with-take (c ∷ d) [] zero h = h
starts_with-take (c ∷ d) [] (suc k) h = h
starts_with-take (c ∷ d) (x ∷ s) zero h = cc
starts_with-take (c ∷ d) (x ∷ s) (suc k) h = ground (arith, h, starts_with-take d s k)

starts_with_eq : (d s : List ℕ) → starts_with d s ≡ true → s ≡ d ++ drop (length d) s
unfolding starts_with
starts_with_eq [] s h = refl
starts_with_eq (c ∷ d) [] h = cc
starts_with_eq (c ∷ d) (x ∷ s) h =
    let e : c ≡ x = ground (arith, h) in ap₂ ◌∷◌ (sym e) (starts_with_eq d s (ground (arith, h)))

find-none_cons :
    (d : List ℕ) (x : ℕ) (s : List ℕ)
    → starts_with d (x ∷ s) ≡ false
    → find d s ≡ none
    → find d (x ∷ s) ≡ none
unfolding find
find-none_cons d x s h e = ground (arith, h, e)

false_of : {a b : Bool} → (a ≡ true → b ≡ true) → b ≡ false → a ≡ false
false_of {a} {b} f h = ground (arith, f, h)

-- Where an occurrence in a list that is not empty is.
find_cons :
    (d : List ℕ) (x : ℕ) (s : List ℕ) (k : ℕ)
    → find d (x ∷ s) ≡ some k
    → ((starts_with d (x ∷ s) ≡ true) × (k ≡ 0))
      ⊎ ((j : ℕ) × (starts_with d (x ∷ s) ≡ false) × (find d s ≡ some j) × (k ≡ suc j))
unfolding find
find_cons d x s k h = elim (Bool-cases (starts_with d (x ∷ s))) [
  | inl here ↦ inl (here, ground (arith, h, here))
  | inr other ↦ elim (Option-cases (find d s)) [
    | inl nothing ↦ absurd (ground (arith, h, other, nothing))
    | inr (j, e) ↦ inr (j, other, e, ground (arith, h, other, e))
  ]
]

-- Behind the place that `find` gives stands what was searched for.
pub find_eq :
    (c : ℕ) (d s : List ℕ) (k : ℕ)
    → find (c ∷ d) s ≡ some k
    → s ≡ take k s ++ ((c ∷ d) ++ drop (k + length (c ∷ d)) s)
find_eq c d [] k h = absurd (cc (h, find-none_of_nil c d))
find_eq c d (x ∷ s) k h = elim (find_cons (c ∷ d) x s k h) [
  | inl (here, first) ↦
      let z : 0 + length (c ∷ d) ≡ length (c ∷ d) = omega arith in
      rw first (rw z (starts_with_eq (c ∷ d) (x ∷ s) here))
  | inr (j, other, e, behind) ↦
      let z : suc j + length (c ∷ d) ≡ suc (j + length (c ∷ d)) = omega arith in
      rw behind (rw z (ap (λ l. x ∷ l) (find_eq c d s j e)))
]

-- In front of it there is no occurrence.
pub find-take :
    (c : ℕ) (d s : List ℕ) (k : ℕ) → find (c ∷ d) s ≡ some k → find (c ∷ d) (take k s) ≡ none
find-take c d [] k h = absurd (cc (h, find-none_of_nil c d))
find-take c d (x ∷ s) k h = elim (find_cons (c ∷ d) x s k h) [
  | inl (here, first) ↦ rw first (find-none_of_nil c d)
  | inr (j, other, e, behind) ↦ rw behind (
      find-none_cons (c ∷ d) x (take j s)
        (false_of (starts_with-take (c ∷ d) (x ∷ s) (suc j)) other) (find-take c d s j e))
]

pub find_within :
    (c : ℕ) (d s : List ℕ) (k : ℕ) → find (c ∷ d) s ≡ some k → k + length (c ∷ d) ≤ length s
find_within c d [] k h = absurd (cc (h, find-none_of_nil c d))
find_within c d (x ∷ s) k h = elim (find_cons (c ∷ d) x s k h) [
  | inl (here, first) ↦ omega (
    arith,
    first,
    ap (λ l. length l) (starts_with_eq (c ∷ d) (x ∷ s) here),
    length-append (c ∷ d) (drop (length (c ∷ d)) (x ∷ s)),
  )
  | inr (j, other, e, behind) ↦ omega (arith, behind, find_within c d s j e)
]
