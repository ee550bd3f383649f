-- ===== src/Connector/Interval.antt =====
-- `retry`: how long the connector waits.
use native.Mathlib.Nat.{pow-succ'}
use netpoll_cpp.Base.{
  List, [], ap, append-nil, append_assoc, arith, if◌then◌else◌, ltb, min, refl, sym, true, ℕ, ◌*◌,
  ◌++◌, ◌+◌, ◌^◌, ◌∙◌, ◌∷◌, ◌≡◌,
}
use netpoll_cpp.Connector.{
  Connector, Effect, closes, init_retry_delay, max_retry_delay, retry, run_after, schedule,
}

-- The wait before the attempt that follows `n` retries.
abbrev pub backoff : ℕ → ℕ
backoff n = min (init_retry_delay * 2 ^ n) max_retry_delay

pub run_retries : List ℕ → Connector → Connector
run_retries [] c = c
run_retries (fd ∷ fds) c = run_retries fds (retry fd c)

-- Each socket is closed, and the next attempt is due later and later.
abbrev pub due : ℕ → List ℕ → List Effect
due n [] = []
due n (fd ∷ fds) = closes fd ∷ run_after (backoff n) ∷ due (1 + n) fds

backoff_doubles :
    (n : ℕ)
    → (if ltb max_retry_delay (backoff n * 2) then max_retry_delay else backoff n * 2)
      ≡ backoff (1 + n)
backoff_doubles n = ground (arith, pow-succ' 2 n)

retry_lem :
    (fd : ℕ) (c : Connector)
    → c.started ≡ true
    → ((retry fd c).started ≡ true)
      × ((retry fd c).max_retry_interval ≡ c.max_retry_interval)
      × ((retry fd c).retry_interval ≡ (
          if ltb c.max_retry_interval (c.retry_interval * 2)
          then c.max_retry_interval
          else c.retry_interval * 2))
      × ((retry fd c).effects ≡ c.effects ++ (closes fd ∷ run_after c.retry_interval ∷ []))
unfolding retry schedule
retry_lem fd c on =
    rw on
      (refl, refl, refl, append_assoc c.effects (closes fd ∷ []) (run_after c.retry_interval ∷ []))

run_retries_from :
    (fds : List ℕ) (n : ℕ) (c : Connector)
    → c.started ≡ true
    → c.max_retry_interval ≡ max_retry_delay
    → c.retry_interval ≡ backoff n
    → (run_retries fds c).effects ≡ c.effects ++ due n fds
unfolding run_retries
run_retries_from [] n c on m i = sym (append-nil c.effects)
run_retries_from (fd ∷ fds) n c on m i =
    let (on', m', i', e') = retry_lem fd c on in
    run_retries_from fds (1 + n) (retry fd c) on' (m' ∙ m) (i' ∙ rw (m, i) (backoff_doubles n))
    ∙ ap (λ es. es ++ due (1 + n) fds) e'
    ∙ append_assoc c.effects (closes fd ∷ run_after c.retry_interval ∷ []) (due (1 + n) fds)
    ∙ ap (λ k. c.effects ++ (closes fd ∷ run_after k ∷ due (1 + n) fds)) i

-- The retries of a connector that is started wait for 500 ms, then twice as long each time, but
-- never longer than 30 s, and each closes its socket before.
pub run_retries_lem :
    (fds : List ℕ) (c : Connector)
    → c.started ≡ true
    → c.max_retry_interval ≡ max_retry_delay
    → c.retry_interval ≡ init_retry_delay
    → (run_retries fds c).effects ≡ c.effects ++ due 0 fds
run_retries_lem fds c on m i = run_retries_from fds 0 c on m i
