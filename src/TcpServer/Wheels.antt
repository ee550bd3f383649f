-- ===== src/TcpServer/Wheels.antt =====
-- `start` of TcpServer (netpoll/net/tcp_server.cc): the timing wheels of the loops that
-- connections are given to.
use native.Mathlib.Nat.{add-mod_right, mod-add-mod, mod-lt}
use netpoll_cpp.Base.{
  Bool, List, Option, ap, arith, false, if◌then◌else◌, length, ltb, none, refl, set_at, some, suc,
  sym, true, zero, ℕ, ◌%◌, ◌+◌, ◌<◌, ◌∙◌, ◌∷◌, ◌≡◌,
}
use netpoll_cpp.TcpServer.{EventLoopThreadPool, TcpServer, get_loop, get_next_loop, new_pool}
use netpoll_cpp.TcpServer.Pool.{get_next_loop-next_times, next_times, next_times_eq}

-- `m_idleTimeout`, the keys of `m_timingWheelMap`, `m_started`, and whether the acceptor is there and
-- listens.
pub record Served : Type 0 where
  pub server : TcpServer
  pub idle_timeout : ℕ
  pub wheels : ℕ → Bool
  pub started : Bool
  pub acceptor : Bool
  pub listens : Bool

unfoldable pub new_served : TcpServer → (idle_timeout : ℕ) → Served
new_served s idle_timeout = record {
  server = s;
  idle_timeout = idle_timeout;
  wheels = λ l. false;
  started = false;
  acceptor = true;
  listens = false;
}

abbrev pub add_wheel : Option ℕ → (ℕ → Bool) → ℕ → Bool
add_wheel none wheels = wheels
add_wheel (some l) wheels = set_at l true wheels

-- The loop over the pool: the pool, and the loops with a wheel.
unfoldable pub make_wheels :
    (loop_num : ℕ) → EventLoopThreadPool → (ℕ → Bool) → EventLoopThreadPool × (ℕ → Bool)
unfolding get_next_loop
make_wheels zero p wheels = (p, wheels)
make_wheels (suc n) p wheels =
    make_wheels n (get_next_loop p).1 (add_wheel (get_next_loop p).0 wheels)

unfoldable pub init_wheels : Served → Served
unfolding make_wheels
init_wheels s = elim s.server.pool [
  | none ↦ record s { wheels = set_at s.server.loop true s.wheels }
  | some p ↦
      let r = make_wheels (length p.loops) p (set_at s.server.loop true s.wheels) in
      record s { server = record s.server { pool = some r.0 }; wheels = r.1 }
]

-- `start`, in the loop.
unfoldable pub start : Served → Served
unfolding init_wheels
start s =
    let t = if ltb 0 s.idle_timeout then init_wheels s else s in
    record t { started = true; listens = true }

-- Enough rounds give every loop of the pool a wheel.
make_wheels_pool :
    (n k l : ℕ) (ls : List ℕ) (wheels : ℕ → Bool)
    → (make_wheels n (next_times k (new_pool (l ∷ ls))) wheels).0
      ≡ next_times (n + k) (new_pool (l ∷ ls))
unfolding make_wheels next_times
make_wheels_pool zero k l ls wheels = let z : 0 + k ≡ k = omega arith in rw z refl
make_wheels_pool (suc n) k l ls wheels =
    make_wheels_pool n (suc k) l ls
      (add_wheel (get_next_loop (next_times k (new_pool (l ∷ ls)))).0 wheels)
    ∙ ap (λ j. next_times j (new_pool (l ∷ ls))) {x = n + suc k} {y = suc n + k} (omega arith)

abbrev has_wheel : Option ℕ → (ℕ → Bool) → Bool
has_wheel none wheels = false
has_wheel (some l) wheels = wheels l

make_wheels_kept :
    (n : ℕ) (p : EventLoopThreadPool) (wheels : ℕ → Bool) (w : ℕ)
    → wheels w ≡ true
    → (make_wheels n p wheels).1 w ≡ true
unfolding make_wheels
make_wheels_kept zero p wheels w h = h
make_wheels_kept (suc n) p wheels w h =
    make_wheels_kept n (get_next_loop p).1 (add_wheel (get_next_loop p).0 wheels) w
      (added (get_next_loop p).0)
  where
    added : (o : Option ℕ) → add_wheel o wheels w ≡ true
    added none = h
    added (some l) = ground (arith, h)

make_wheels_made :
    (n j k l : ℕ) (ls : List ℕ) (wheels : ℕ → Bool) (w : ℕ)
    → j < n
    → (get_next_loop (next_times (j + k) (new_pool (l ∷ ls)))).0 ≡ some w
    → (make_wheels n (next_times k (new_pool (l ∷ ls))) wheels).1 w ≡ true
unfolding make_wheels next_times
make_wheels_made zero j k l ls wheels w small e = absurd (omega (arith, small))
make_wheels_made (suc n) zero k l ls wheels w small e =
    make_wheels_kept n (get_next_loop p).1 (add_wheel (get_next_loop p).0 wheels) w
      (added (get_next_loop p).0 (rw z at e))
  where
    p : EventLoopThreadPool
    p = next_times k (new_pool (l ∷ ls))

    z : 0 + k ≡ k
    z = omega arith

    added : (o : Option ℕ) → o ≡ some w → add_wheel o wheels w ≡ true
    added none f = cc
    added (some v) f = let g : v ≡ w = cc in rw g (ground arith)
make_wheels_made (suc n) (suc j) k l ls wheels w small e =
    let z : suc j + k ≡ j + suc k = omega arith in
    make_wheels_made n j (suc k) l ls
      (add_wheel (get_next_loop (next_times k (new_pool (l ∷ ls)))).0 wheels) w
      (omega (arith, small)) (rw z at e)

-- The loop that `newConnection` takes after any number of other connections.
chosen_again : (m k n : ℕ) → (k + (suc n + m)) % suc n ≡ (k % suc n + m) % suc n
chosen_again m k n =
    let z : k + (suc n + m) ≡ (k + m) + suc n = omega arith in
    rw z (add-mod_right (k + m) (suc n) ∙ sym (mod-add-mod k (suc n) m))

-- `newConnection`, its test `assert(m_timingWheelMap[ioLoop])` for the connection of number `k` after
-- `start`: with an idle timeout every loop that a connection is given to has a wheel, whatever the
-- pool was used for before.
pub start_has_wheels :
    (m k l w : ℕ) (ls : List ℕ) (s : TcpServer) (idle_timeout : ℕ)
    → s.pool ≡ some (next_times m (new_pool (l ∷ ls)))
    → 0 < idle_timeout
    → (get_next_loop (next_times (k + (length (l ∷ ls) + m)) (new_pool (l ∷ ls)))).0 ≡ some w
    → let t = start (new_served s idle_timeout) in
      (t.server.pool ≡ some (next_times (length (l ∷ ls) + m) (new_pool (l ∷ ls))))
      × (t.wheels w ≡ true)
unfolding start init_wheels new_served
start_has_wheels m k l w ls s idle_timeout e h c =
    let on : ltb 0 idle_timeout ≡ true = ground (arith, h) in
    let made =
      make_wheels_made (length (l ∷ ls)) (k % length (l ∷ ls)) m l ls
        (set_at s.loop true (λ v. false)) w (mod-lt k (omega arith)) (same_loop ∙ c) in
    let pool_eq = make_wheels_pool (length (l ∷ ls)) m l ls (set_at s.loop true (λ v. false)) in
    let size : length (next_times m (new_pool (l ∷ ls))).loops ≡ length (l ∷ ls) =
      ap (λ p. length p.loops) (next_times_eq m l ls) in
    rw (on, start) (rw (e, init_wheels) (rw size (ap some pool_eq, made)))
  where
    same_loop :
        (get_next_loop (next_times (k % length (l ∷ ls) + m) (new_pool (l ∷ ls)))).0
        ≡ (get_next_loop (next_times (k + (length (l ∷ ls) + m)) (new_pool (l ∷ ls)))).0
    same_loop =
        get_next_loop-next_times (k % length (l ∷ ls) + m) l ls
        ∙ ap (λ j. get_loop j (new_pool (l ∷ ls))) (sym (chosen_again m k (length ls)))
        ∙ sym (get_next_loop-next_times (k + (length (l ∷ ls) + m)) l ls)
