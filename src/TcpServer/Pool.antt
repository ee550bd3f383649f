-- ===== src/TcpServer/Pool.antt =====
-- The round robin of `getNextLoop`.
use native.Mathlib.Nat.{zero-mod, mod-eq_of_lt, mod_self, mod-lt, suc-mod}
use netpoll_cpp.Base.{
  Bool-cases, List, ap, arith, if◌then◌else◌, inl, inr, leb, length, ltb, refl, suc, sym, true,
  zero, ℕ, ◌%◌, ◌<◌, ◌∙◌, ◌∷◌, ◌≡◌,
}
use netpoll_cpp.Connector.{goes_on}
use netpoll_cpp.TcpServer.{EventLoopThreadPool, get_loop, get_next_loop, new_pool}

-- What a number of calls leaves.
unfoldable pub next_times : ℕ → EventLoopThreadPool → EventLoopThreadPool
next_times zero p = p
next_times (suc k) p = (get_next_loop (next_times k p)).1

-- The index that a call leaves.
next_index :
    (k n : ℕ) → (if leb (suc n) (suc (k % suc n)) then 0 else suc (k % suc n)) ≡ suc k % suc n
next_index k n =
    let small : k % suc n < suc n = mod-lt k (omega arith) in
    elim (Bool-cases (leb (suc n) (suc (k % suc n)))) [
      | inl wraps ↦
          let full : suc (k % suc n) ≡ suc n = ground (arith, wraps, small) in
          rw wraps (sym (suc-mod k (suc n) ∙ ap (λ j. j % suc n) full ∙ mod_self (suc n)))
      | inr goes_on ↦ rw goes_on (sym (suc-mod k (suc n) ∙ mod-eq_of_lt (ground (arith, goes_on))))
    ]

pub next_times_eq :
    (k : ℕ) (l : ℕ) (ls : List ℕ)
    → next_times k (new_pool (l ∷ ls)) ≡ record { loops = l ∷ ls; loop_index = k % length (l ∷ ls) }
unfolding next_times new_pool get_next_loop
next_times_eq zero l ls =
    ap (λ i. record { loops = l ∷ ls; loop_index = i }) (sym (zero-mod (length (l ∷ ls))))
next_times_eq (suc k) l ls =
    ap (λ p. (get_next_loop p).1) (next_times_eq k l ls)
    ∙ ap (λ i. record { loops = l ∷ ls; loop_index = i }) (next_index k (length ls))

-- The calls of a pool with loops give them in turn: call `k`, counted from 0, gives the loop of
-- number `k % n`.
pub get_next_loop-next_times :
    (k l : ℕ) (ls : List ℕ)
    → (get_next_loop (next_times k (new_pool (l ∷ ls)))).0
      ≡ get_loop (k % length (l ∷ ls)) (new_pool (l ∷ ls))
unfolding get_next_loop get_loop new_pool
get_next_loop-next_times k l ls =
    let inside : ltb (k % length (l ∷ ls)) (length (l ∷ ls)) ≡ true =
      ground (arith, mod-lt k {m = length (l ∷ ls)} (omega arith)) in
    ap (λ p. (get_next_loop p).0) (next_times_eq k l ls) ∙ rw inside refl
