-- ===== src/Connector/Destruction.antt =====
-- The destructor after a retry that was stopped, and a connector that does not retry.

use netpoll_cpp.Base.{
  Bool, Bool-cases, [], ap, arith, false, inl, inr, none, not, refl, some, true, ℕ, ◌++◌, ◌+◌, ◌==◌,
  ◌||◌, ◌∙◌, ◌∷◌, ◌≡◌, ◌≢◌,
}
use netpoll_cpp.Channel.{Channel}
use netpoll_cpp.Connector.{
  Connector, closes, comes_again, connect, connecting, destroy, effect, goes_on, handle_write,
  remove_and_reset_channel, removes, report_error, retry, schedule, settle, start_in_loop, stop,
}
use netpoll_cpp.Connector.Sockets.{closes-settles, retry-settles, settlements}

destroy_stopped :
    (fd fd' e : ℕ) (c : Connector)
    → c.channel ≡ none
    → c.socket ≡ some fd
    → c.socket_handed ≡ false
    → (destroy (start_in_loop fd' e (stop c))).effects ≡ c.effects ++ (closes fd ∷ [])
unfolding destroy start_in_loop stop remove_and_reset_channel
destroy_stopped fd fd' e c k s h = rw (k, s, h) refl

module _ (fd : ℕ) (c : Connector) where
  -- `m_fd` is the new socket, which is not handed over.
  begun : Connector
  begun = record c { socket_handed = false; socket = some fd }

  retried :
      c.started ≡ true
      → c.channel ≡ none
      → ((retry fd begun).channel ≡ none)
        × ((retry fd begun).socket ≡ some fd)
        × ((retry fd begun).socket_handed ≡ false)
  unfolding retry schedule begun
  retried on k = rw on (k, refl, refl)

  connect_again :
      (e : ℕ)
      → c.retries ≡ true
      → goes_on e ≡ false
      → comes_again e ≡ true
      → connect fd e c ≡ retry fd begun
  unfolding connect begun
  connect_again e r g a = rw (g, a, r) refl

-- A connection is refused and will be tried again, and the connector is stopped before: the timer
-- then does nothing, and the destructor closes the socket that `retry` has closed, whose descriptor
-- another socket may have by then.
pub destroy_closes_again :
    (fd fd' e e' : ℕ) (c : Connector)
    → c.started ≡ true
    → c.retries ≡ true
    → c.channel ≡ none
    → goes_on e ≡ false
    → comes_again e ≡ true
    → settlements fd (destroy (start_in_loop fd' e' (stop (connect fd e c)))).effects
      ≡ 2 + settlements fd c.effects
unfolding begun
destroy_closes_again fd fd' e e' c on r k g a =
    let (k', s', h') = retried fd c on k in
    ap (λ d. settlements fd (destroy (start_in_loop fd' e' (stop d))).effects)
      (connect_again fd c e r g a)
    ∙ ap (settlements fd) (destroy_stopped fd fd' e' (retry fd (begun fd c)) k' s' h')
    ∙ closes-settles fd (retry fd (begun fd c)).effects
    ∙ omega (arith, retry-settles fd (begun fd c))

report_error_lem :
    (c : Connector) → ((report_error c).status ≡ c.status) × ((report_error c).channel ≡ c.channel)
report_error_lem c = elim (Bool-cases c.error_set) [
  | inl on ↦ rw on (refl, refl)
  | inr off ↦ rw off (refl, refl)
]

-- A connector that does not retry and whose socket fails stays in the status `Connecting`, without a
-- channel.
pub handle_write_stays_connecting :
    (so_error : ℕ) (self_connect : Bool) (k : Channel) (c : Connector)
    → c.retries ≡ false
    → c.status ≡ connecting
    → c.channel ≡ some k
    → so_error ≢ 0
    → ((handle_write so_error self_connect c).status ≡ connecting)
      × ((handle_write so_error self_connect c).channel ≡ none)
unfolding handle_write settle remove_and_reset_channel
handle_write_stays_connecting so_error self_connect k c r s e ne =
    let bad : (not (so_error == 0) || self_connect) ≡ true = ground arith in
    let d : Connector = record (effect (closes k.fd) (effect (removes k.fd) c)) {
      status = connecting;
      retries = false;
      channel = none;
      socket_handed = true;
    } in
    rw (s, e, bad, r) (report_error_lem d)
