-- ===== src/Connector/Steps.antt =====
-- The connector has a channel just while it is connecting.

use netpoll_cpp.Base.{
  Bool, Bool-cases, Option, ap, false, if◌then◌else◌, inl, inr, none, not, refl, some, sym, true, ℕ,
  ◌==◌, ◌||◌, ◌∙◌, ◌≡◌,
}
use netpoll_cpp.Channel.{Channel}
use netpoll_cpp.Connector.{
  Connector, Status, closes, comes_again, connect, connected, connecting, connecting_on,
  disconnected, effect, goes_on, handle_error, handle_write, hands_over, new_connector,
  remove_and_reset_channel, removes, report_error, reports_error, restart, retry, schedule, settle,
  start, start_in_loop, stop,
}

abbrev is_connecting : Status → Bool
is_connecting connecting = true
is_connecting _ = false

abbrev is_some : Option Channel → Bool
is_some none = false
is_some (some k) = true

pub record IsReady (c : Connector) : Type 0 where
  pub tries : c.retries ≡ true
  pub matches : is_connecting c.status ≡ is_some c.channel

-- The calls of the user, the timers of `retry`, and the callbacks of the channel.
pub data Step (c : Connector) : Connector → Type 0 where
  starts : (fd e : ℕ) → Step c (start fd e c)
  retries_now : (fd e : ℕ) → Step c (start_in_loop fd e c)
  restarts : (fd e : ℕ) → Step c (restart fd e c)
  stops : Step c (stop c)
  is_writable : (so_error : ℕ) (self_connect : Bool) → Step c (handle_write so_error self_connect c)
  fails : Step c (handle_error c)

pub data Reach (b : Connector) : Connector → Type 0 where
  begins : Reach b b
  goes : {c d : Connector} → Reach b c → Step c d → Reach b d

-- Both branches of a test.
either-IsReady :
    (test : Bool) (c d : Connector)
    → (test ≡ true → IsReady c)
    → (test ≡ false → IsReady d)
    → IsReady (if test then c else d)
either-IsReady true c d p q = p refl
either-IsReady false c d p q = q refl

retry-IsReady :
    (fd : ℕ) (c : Connector) → c.channel ≡ none → c.retries ≡ true → IsReady (retry fd c)
unfolding retry schedule
retry-IsReady fd c k r = elim (Bool-cases c.started) [
  | inl on ↦ rw (on, k) (record { tries = r; matches = refl })
  | inr off ↦ rw (off, k) (record { tries = r; matches = refl })
]

reported-IsReady : (c : Connector) → IsReady c → IsReady (report_error c)
reported-IsReady c h =
    either-IsReady c.error_set (effect reports_error c) c
      (λ on. record { tries = h.tries; matches = h.matches }) (λ off. h)

no_channel : (k : Option Channel) → is_some k ≡ false → k ≡ none
no_channel none h = refl
no_channel (some k) h = cc

none_of_disconnected : (c : Connector) → c.status ≡ disconnected → IsReady c → c.channel ≡ none
none_of_disconnected c s h = no_channel c.channel (sym h.matches ∙ ap is_connecting s)

connect-IsReady :
    (fd e : ℕ) (c : Connector) → c.status ≡ disconnected → IsReady c → IsReady (connect fd e c)
unfolding connect connecting_on
connect-IsReady fd e c s h =
    let d : Connector = record c { socket_handed = false; socket = some fd } in
    let ready : IsReady d = record { tries = h.tries; matches = h.matches } in
    let bad : Connector = effect (closes fd) (record d { socket_handed = true }) in
    either-IsReady (goes_on e) (connecting_on fd d)
      (if comes_again e then (if d.retries then retry fd d else d) else report_error bad)
      (λ on. record { tries = h.tries; matches = refl })
      (λ off.
        either-IsReady (comes_again e) (if d.retries then retry fd d else d) (report_error bad)
          (λ again.
            either-IsReady d.retries (retry fd d) d
              (λ r. retry-IsReady fd d (none_of_disconnected c s h) h.tries) (λ r. ready))
          (λ last. reported-IsReady bad (record { tries = h.tries; matches = h.matches })))

start_in_loop-IsReady :
    (fd e : ℕ) (c : Connector)
    → c.status ≡ disconnected
    → IsReady c
    → IsReady (start_in_loop fd e c)
unfolding start_in_loop
start_in_loop-IsReady fd e c s h =
    either-IsReady c.started (connect fd e c) c (λ on. connect-IsReady fd e c s h) (λ off. h)

start-IsReady :
    (fd e : ℕ) (c : Connector) → c.status ≡ disconnected → IsReady c → IsReady (start fd e c)
unfolding start
start-IsReady fd e c s h =
    start_in_loop-IsReady fd e (record c { started = true }) s
      (record { tries = h.tries; matches = h.matches })

-- `removeAndResetChannel` takes the channel and nothing else.
removed_from :
    (o : Option Channel) (c : Connector)
    → c.channel ≡ o
    → ((remove_and_reset_channel c).1.status ≡ c.status)
      × ((remove_and_reset_channel c).1.channel ≡ none)
      × ((remove_and_reset_channel c).1.retries ≡ c.retries)
unfolding remove_and_reset_channel
removed_from none c e = rw e (refl, refl, refl)
removed_from (some k) c e = rw e (refl, refl, refl)

stop-IsReady : (c : Connector) → IsReady c → ((stop c).status ≡ disconnected) × IsReady (stop c)
unfolding stop
stop-IsReady c h =
    let (s, k, r) =
      removed_from c.channel (record c { started = false; status = disconnected }) refl in
    (s, record { tries = r ∙ h.tries; matches = ap is_connecting s ∙ sym (ap is_some k) })

settle-IsReady :
    (fd so_error : ℕ) (self_connect : Bool) (c : Connector)
    → c.channel ≡ none
    → c.retries ≡ true
    → IsReady (settle fd so_error self_connect c)
unfolding settle
settle-IsReady fd so_error self_connect c k r =
    let closed : Connector = effect (closes fd) (record c { socket_handed = true }) in
    let up : Connector = effect (hands_over fd) (record c { status = connected }) in
    let late : Connector =
      effect (closes fd) (record c { status = connected; socket_handed = true }) in
    let ready : IsReady up = record { tries = r; matches = sym (ap is_some k) } in
    either-IsReady (not (so_error == 0) || self_connect)
      (report_error (if c.retries then retry fd c else closed)) (if c.started then up else late)
      (λ bad.
        reported-IsReady (if c.retries then retry fd c else closed)
          (either-IsReady c.retries (retry fd c) closed (λ on. retry-IsReady fd c k r) (λ off. cc)))
      (λ good.
        either-IsReady c.started up late (λ on. ready)
          (λ off. record { tries = r; matches = sym (ap is_some k) }))

-- `handleWrite` and `handleError`, for the status and the channel that they find.
handle_write_on :
    (s : Status) (o : Option Channel) (so_error : ℕ) (self_connect : Bool) (c : Connector)
    → c.status ≡ s
    → c.channel ≡ o
    → IsReady c
    → IsReady (handle_write so_error self_connect c) × IsReady (handle_error c)
unfolding handle_write handle_error remove_and_reset_channel
handle_write_on disconnected o so_error self_connect c s k h =
    let m : is_connecting disconnected ≡ is_some c.channel = ap is_connecting (sym s) ∙ h.matches in
    rw s (record { tries = h.tries; matches = m }, record { tries = h.tries; matches = m })
handle_write_on connected o so_error self_connect c s k h =
    let m : is_connecting connected ≡ is_some c.channel = ap is_connecting (sym s) ∙ h.matches in
    rw s (record { tries = h.tries; matches = m }, record { tries = h.tries; matches = m })
handle_write_on connecting none so_error self_connect c s k h =
    let m : true ≡ false = ap is_connecting (sym s) ∙ h.matches ∙ ap is_some k in cc
handle_write_on connecting (some w) so_error self_connect c s k h =
    let d : Connector = record (effect (removes w.fd) c) { channel = none; socket_handed = true } in
    let e : Connector = record d { status = disconnected } in
    let f : Connector = record d { status = connecting } in
    rw (s, k)
      (
        settle-IsReady w.fd so_error self_connect f refl h.tries,
        reported-IsReady (if e.retries then retry w.fd e else effect (closes w.fd) e) (
            either-IsReady e.retries (retry w.fd e) (effect (closes w.fd) e)
              (λ on. retry-IsReady w.fd e refl h.tries)
              (λ off. record { tries = h.tries; matches = refl })),
      )

-- The assertion of `startInLoop` holds: the user and the timers start a connector only while it is
-- disconnected.
abbrev pub Asserted : {c d : Connector} → Step c d → Type 0
Asserted {c = c} (starts fd e) = c.status ≡ disconnected
Asserted {c = c} (retries_now fd e) = c.status ≡ disconnected
Asserted (restarts fd e) = Unit {0}
Asserted stops = Unit {0}
Asserted (is_writable so_error self_connect) = Unit {0}
Asserted fails = Unit {0}

abbrev pub AllAsserted : {b c : Connector} → Reach b c → Type 0
AllAsserted begins = Unit {0}
AllAsserted (goes r t) = Asserted t × AllAsserted r

Step-IsReady : {c d : Connector} (t : Step c d) → Asserted t → IsReady c → IsReady d
unfolding restart
Step-IsReady {c = c} (starts fd e) s h = start-IsReady fd e c s h
Step-IsReady {c = c} (retries_now fd e) s h = start_in_loop-IsReady fd e c s h
Step-IsReady {c = c} (restarts fd e) s h =
    let (off, r) = stop-IsReady c h in start-IsReady fd e (stop c) off r
Step-IsReady {c = c} stops s h = (stop-IsReady c h).1
Step-IsReady {c = c} (is_writable so_error self_connect) s h =
    (handle_write_on c.status c.channel so_error self_connect c refl refl h).0
Step-IsReady {c = c} fails s h = (handle_write_on c.status c.channel 0 false c refl refl h).1

-- Whatever happens to a new connector that retries, as long as the assertion of `startInLoop` holds
-- at each start, by the user or a timer: it has a channel just while it is connecting, so the
-- assertion of `connecting` holds, and a callback always finds the socket.
pub Reach-IsReady : {c : Connector} (r : Reach (new_connector true) c) → AllAsserted r → IsReady c
Reach-IsReady begins a = record { tries = refl; matches = refl }
Reach-IsReady (goes r t) a = Step-IsReady t a.0 (Reach-IsReady r a.1)
