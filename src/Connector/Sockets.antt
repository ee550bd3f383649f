-- ===== src/Connector/Sockets.antt =====
-- The sockets that the connector makes, and its channel.
use netpoll_cpp.Base.{
  Bool, Bool-cases, List, [], arith, false, if◌then◌else◌, inl, inr, none, not, refl, some, true, ℕ,
  ◌++◌, ◌+◌, ◌==◌, ◌||◌, ◌∙◌, ◌∷◌, ◌≡◌,
}
use netpoll_cpp.Channel.{Channel}
use netpoll_cpp.Connector.{
  Connector, Effect, closes, connecting, disconnected, effect, handle_error, handle_write,
  hands_over, remove_and_reset_channel, removes, report_error, reports_error, retry, run_after,
  schedule, settle,
}

-- How often a socket was closed or handed over.
abbrev pub settlements : ℕ → List Effect → ℕ
settlements fd [] = 0
settlements fd (closes s ∷ es) = if s == fd then 1 + settlements fd es else settlements fd es
settlements fd (hands_over s ∷ es) = if s == fd then 1 + settlements fd es else settlements fd es
settlements fd (run_after n ∷ es) = settlements fd es
settlements fd (removes s ∷ es) = settlements fd es
settlements fd (reports_error ∷ es) = settlements fd es

settlements-append :
    (fd : ℕ) (es fs : List Effect)
    → settlements fd (es ++ fs) ≡ settlements fd es + settlements fd fs
settlements-append fd [] fs = omega arith
settlements-append fd (closes s ∷ es) fs = ground (arith, settlements-append fd es fs)
settlements-append fd (hands_over s ∷ es) fs = ground (arith, settlements-append fd es fs)
settlements-append fd (run_after n ∷ es) fs = settlements-append fd es fs
settlements-append fd (removes s ∷ es) fs = settlements-append fd es fs
settlements-append fd (reports_error ∷ es) fs = settlements-append fd es fs

settled_once :
    (fd : ℕ) → (settlements fd (closes fd ∷ []) ≡ 1) × (settlements fd (hands_over fd ∷ []) ≡ 1)
settled_once fd = (ground arith, ground arith)

pub closes-settles :
    (fd : ℕ) (es : List Effect) → settlements fd (es ++ (closes fd ∷ [])) ≡ 1 + settlements fd es
closes-settles fd es = omega (arith, settlements-append fd es (closes fd ∷ []), (settled_once fd).0)

hands_over-settles :
    (fd : ℕ) (es : List Effect)
    → settlements fd (es ++ (hands_over fd ∷ [])) ≡ 1 + settlements fd es
hands_over-settles fd es =
    omega (arith, settlements-append fd es (hands_over fd ∷ []), (settled_once fd).1)

schedule-settles :
    (fd : ℕ) (c : Connector) → settlements fd (schedule c).effects ≡ settlements fd c.effects
unfolding schedule
schedule-settles fd c = elim (Bool-cases c.started) [
  | inl on ↦
      rw on (omega (arith, settlements-append fd c.effects (run_after c.retry_interval ∷ [])))
  | inr off ↦ rw off refl
]

report_error-settles :
    (fd : ℕ) (c : Connector) → settlements fd (report_error c).effects ≡ settlements fd c.effects
report_error-settles fd c = elim (Bool-cases c.error_set) [
  | inl on ↦ rw on (omega (arith, settlements-append fd c.effects (reports_error ∷ [])))
  | inr off ↦ rw off refl
]

pub retry-settles :
    (fd : ℕ) (c : Connector) → settlements fd (retry fd c).effects ≡ 1 + settlements fd c.effects
unfolding retry
retry-settles fd c =
    schedule-settles fd (record (effect (closes fd) c) { status = disconnected })
    ∙ closes-settles fd c.effects

reported_either :
    (fd n : ℕ) (test : Bool) (c d : Connector)
    → settlements fd c.effects ≡ n
    → settlements fd d.effects ≡ n
    → settlements fd (report_error (if test then c else d)).effects ≡ n
reported_either fd n true c d p q = report_error-settles fd c ∙ p
reported_either fd n false c d p q = report_error-settles fd d ∙ q

settle-settles :
    (fd so_error : ℕ) (self_connect : Bool) (c : Connector)
    → settlements fd (settle fd so_error self_connect c).effects ≡ 1 + settlements fd c.effects
unfolding settle
settle-settles fd so_error self_connect c =
    elim (Bool-cases (not (so_error == 0) || self_connect)) [
      | inl bad ↦
          let d : Connector = record c { socket_handed = true } in
          rw bad (
            reported_either fd (1 + settlements fd c.effects) c.retries (retry fd c)
              (effect (closes fd) d) (retry-settles fd c) (closes-settles fd c.effects))
      | inr good ↦ elim (Bool-cases c.started) [
        | inl on ↦ rw (good, on) (hands_over-settles fd c.effects)
        | inr off ↦ rw (good, off) (closes-settles fd c.effects)
      ]
    ]

-- When the socket of a connector that is connecting becomes writable or fails, it is closed or
-- handed over exactly once.
pub handle_write-settles :
    (so_error : ℕ) (self_connect : Bool) (k : Channel) (c : Connector)
    → c.status ≡ connecting
    → c.channel ≡ some k
    → (settlements k.fd (handle_write so_error self_connect c).effects
        ≡ 1 + settlements k.fd c.effects)
      × (settlements k.fd (handle_error c).effects ≡ 1 + settlements k.fd c.effects)
unfolding handle_write handle_error remove_and_reset_channel
handle_write-settles so_error self_connect k c s e =
    let w : Connector = record (effect (removes k.fd) c) {
      status = connecting;
      channel = none;
      socket_handed = true;
    } in
    let f : Connector = record (effect (removes k.fd) c) {
      status = disconnected;
      channel = none;
      socket_handed = true;
    } in
    let same = settlements-append k.fd c.effects (removes k.fd ∷ []) in
    rw (s, e)
      (
        settle-settles k.fd so_error self_connect w ∙ omega (arith, same),
        reported_either k.fd (1 + settlements k.fd f.effects) f.retries (retry k.fd f)
              (effect (closes k.fd) f) (retry-settles k.fd f) (closes-settles k.fd f.effects)
            ∙ omega (arith, same),
      )
