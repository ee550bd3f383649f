-- ===== src/Connection/Hearing.antt =====
-- If files are sent only while a connection is up, each step keeps what has been heard in line with
-- its status.

use netpoll_cpp.Base.{
  Bool, Bool-cases, List, Option, [], ap, arith, false, inl, inr, length, none, not, refl, some,
  sym, true, ℕ, ◌+◌, ◌==◌, ◌>>=◌, ◌||◌, ◌∙◌, ◌∷◌, ◌≡◌,
}
use netpoll_cpp.Buffer.Fd.{Readv, failed, got, read_fd}
use netpoll_cpp.Channel.{Channel, disable_all, enable_reading, is_none_event, is_writing, tie}
use netpoll_cpp.Connection.{
  Answer, Connection, Status, closed, connected, connecting, connection, disconnected,
  disconnecting, handle_write, is_connected, notify, received, removed, send_file, send_in_loop,
  shut_write,
}
use netpoll_cpp.Connection.Lifecycle.{
  connect_destroyed, connect_established, eagain, econnreset, epipe, force_close, handle_close,
  handle_input, handle_read, shutdown,
}
use netpoll_cpp.Connection.Reachable.{
  AllInTime, Heard, InTime, Reach, Step, closes, destroys, establishes, forces, is_up, later, reads,
  reports_due, sends, sends_file, shuts, start, writes,
}
use netpoll_cpp.Connection.Reports.{
  Life, handle_write-life, life, notify-life, reports, reports-append, send_file-life,
  send_in_loop-life,
}
use netpoll_cpp.Connection.Sending.{notify_lem}
use netpoll_cpp.TimingWheel.Single.{due}

due_up : (s : Status) → is_up s ≡ true → reports_due s ≡ 1
due_up connecting up = cc
due_up connected up = refl
due_up disconnecting up = refl
due_up disconnected up = cc

connected_of : (s : Status) → is_connected s ≡ true → s ≡ connected
connected_of connecting on = cc
connected_of connected on = refl
connected_of disconnecting on = cc
connected_of disconnected on = cc

-- A step that reports nothing, of a connection that is up.
up-Heard : (c d : Connection) → life d ≡ life c → is_up c.status ≡ true → Heard c → Heard d
up-Heard c d e up h = record {
  is_set = ap (λ (l : Life). l.is_set) e ∙ h.is_set;
  heard = ap (λ (l : Life). l.heard) e ∙ h.heard ∙ ap (λ (l : Life). reports_due l.status) (sym e);
  quiet = λ down.
      let same : is_up d.status ≡ is_up c.status = ap (λ (l : Life). is_up l.status) e in cc;
}

-- One that reports nothing, and leaves the channel.
still-Heard : (c d : Connection) → life d ≡ life c → d.channel ≡ c.channel → Heard c → Heard d
still-Heard c d e k h = record {
  is_set = ap (λ (l : Life). l.is_set) e ∙ h.is_set;
  heard = ap (λ (l : Life). l.heard) e ∙ h.heard ∙ ap (λ (l : Life). reports_due l.status) (sym e);
  quiet = λ down. rw k (h.quiet (ap (λ (l : Life). is_up l.status) (sym e) ∙ down));
}

-- One that calls the connection callback, which is set, with a new status.
reported-Heard :
    (is_set : Bool) (c : Connection) (s : Status) (k : Channel)
    → is_set ≡ true
    → c.connection_set ≡ true
    → 1 + reports c.notices ≡ reports_due s
    → (is_up s ≡ false → is_none_event k.events ≡ true)
    → Heard (notify is_set connection (record c { status = s; channel = k }))
reported-Heard true c s k on is_set due quiet = record {
  is_set = is_set;
  heard = omega (arith, reports-append c.notices (connection ∷ []), due);
  quiet = quiet;
}
reported-Heard false c s k on is_set due quiet = cc

down-Heard :
    (is_set : Bool) (c : Connection)
    → is_set ≡ true
    → is_up c.status ≡ true
    → Heard c
    → Heard (
        notify is_set connection
          (record c { status = disconnected; channel = disable_all c.channel }))
unfolding disable_all is_none_event
down-Heard is_set c on up h =
    reported-Heard is_set c disconnected (disable_all c.channel) on h.is_set
      (omega (arith, h.heard, due_up c.status up)) (λ down. refl)

pub handle_close-Heard : (c : Connection) → is_up c.status ≡ true → Heard c → Heard (handle_close c)
unfolding handle_close
handle_close-Heard c up h =
    let d =
      notify c.connection_set connection
        (record c { status = disconnected; channel = disable_all c.channel }) in
    still-Heard d (notify c.close_set closed d) (notify-life c.close_set closed d refl)
      (notify_lem c.close_set closed d).2 (down-Heard c.connection_set c h.is_set up h)

disconnecting-Heard :
    (c : Connection) → is_up c.status ≡ true → Heard c → Heard (record c { status = disconnecting })
disconnecting-Heard c up h = record {
  is_set = h.is_set;
  heard = h.heard ∙ due_up c.status up;
  quiet = λ down. cc;
}

-- The channel calls back only on a connection that is up.
up_of_event :
    (c : Connection) → Heard c → is_none_event c.channel.events ≡ false → is_up c.status ≡ true
up_of_event c h n = elim (Bool-cases (is_up c.status)) [
  | inl up ↦ up
  | inr down ↦ let q = h.quiet down in cc
]

bind-Heard :
    {A : Type 0} (o : Option A) (f : A → Connection) (d : Connection)
    → (o >>= λ r. some (f r)) ≡ some d
    → ((r : A) → Heard (f r))
    → Heard d
bind-Heard none f d e h = cc
bind-Heard (some r) f d e h = let same : f r ≡ d = cc in rw (sym same) (h r)

handle_input-Heard :
    (r : Readv) (c : Connection) → is_up c.status ≡ true → Heard c → Heard (handle_input r c)
unfolding handle_input
handle_input-Heard (got []) c up h = handle_close-Heard c up h
handle_input-Heard (got (x ∷ xs)) c up h =
    let d : Connection = record c { bytes_received = c.bytes_received + length (x ∷ xs) } in
    up-Heard c (notify c.recv_set received d) (notify-life c.recv_set received d refl) up h
handle_input-Heard (failed e) c up h = elim (Bool-cases (e == epipe || e == econnreset)) [
  | inl reset ↦ rw reset h
  | inr other ↦ elim (Bool-cases (e == eagain)) [
    | inl again ↦ rw (other, again) h
    | inr bad ↦ rw (other, bad) (handle_close-Heard c up h)
  ]
]

shutdown-Heard : (c : Connection) → Heard c → Heard (shutdown c)
unfolding shutdown
shutdown-Heard c h = elim (Bool-cases (is_connected c.status)) [
  | inl on ↦
      let d : Connection = record c { status = disconnecting } in
      let up : is_up c.status ≡ true = ap is_up (connected_of c.status on) in
      rw on (
        up-Heard d (notify (not (is_writing c.channel)) shut_write d)
          (notify-life (not (is_writing c.channel)) shut_write d refl) refl
          (disconnecting-Heard c up h))
  | inr off ↦ rw off h
]

force_close-Heard : (c : Connection) → Heard c → Heard (force_close c)
unfolding force_close
force_close-Heard c h = elim (Bool-cases (is_up c.status)) [
  | inl up ↦
      rw up
        (handle_close-Heard (record c { status = disconnecting }) refl (disconnecting-Heard c up h))
  | inr down ↦ rw down h
]

removed-Heard : (c : Connection) → Heard c → Heard (notify true removed c)
removed-Heard c h = still-Heard c (notify true removed c) (notify-life true removed c refl) refl h

connect_destroyed-Heard : (c d : Connection) → connect_destroyed c ≡ some d → Heard c → Heard d
unfolding connect_destroyed
connect_destroyed-Heard c d e h = elim (Bool-cases (is_connected c.status)) [
  | inl on ↦
      let u = down-Heard true c refl (ap is_up (connected_of c.status on)) h in
      let m : Connection =
        notify true connection
          (record c { status = disconnected; channel = disable_all c.channel }) in
      let q : connect_destroyed c ≡ some (notify true removed m) = rw (on, h.is_set) refl in
      let same : notify true removed m ≡ d = cc in rw (sym same) (removed-Heard m u)
  | inr off ↦
      let q : connect_destroyed c ≡ some (notify true removed c) = rw off refl in
      let same : notify true removed c ≡ d = cc in rw (sym same) (removed-Heard c h)
]

establish-Heard : (c : Connection) → c.status ≡ connecting → Heard c → Heard (connect_established c)
unfolding connect_established
establish-Heard c s h =
    reported-Heard c.connection_set c connected (enable_reading (tie c.channel)) h.is_set h.is_set
      (omega (arith, h.heard, ap reports_due s)) (λ down. cc)

send_in_loop-Heard :
    (xs : List ℕ) (a : Answer) (c d : Connection) → send_in_loop xs a c ≡ some d → Heard c → Heard d
unfolding send_in_loop
send_in_loop-Heard xs a c d e h = elim (Bool-cases (is_connected c.status)) [
  | inl on ↦ up-Heard c d (send_in_loop-life xs a c d e) (ap is_up (connected_of c.status on)) h
  | inr off ↦
      let q : send_in_loop xs a c ≡ some c = rw off refl in let same : c ≡ d = cc in rw (sym same) h
]

handle_read-Heard :
    (readv : List ℕ → Readv) (c d : Connection)
    → handle_read readv c ≡ some d
    → is_up c.status ≡ true
    → Heard c
    → Heard d
unfolding handle_read
handle_read-Heard readv c d e up h =
    bind-Heard (read_fd readv c.read_buffer)
      (λ r. handle_input r.0 (record c { read_buffer = r.1 })) d e
      (λ r.
        handle_input-Heard r.0 (record c { read_buffer = r.1 }) up
          (record { is_set = h.is_set; heard = h.heard; quiet = h.quiet }))

Step-Heard : {c d : Connection} (t : Step c d) → InTime t → Heard c → Heard d
Step-Heard {c = c} (establishes s) up h = establish-Heard c s h
Step-Heard {c = c} {d = d} (sends xs a e) up h = send_in_loop-Heard xs a c d e h
Step-Heard {c = c} (sends_file f a) up h = up-Heard c (send_file f a c) (send_file-life f a c) up h
Step-Heard {c = c} (writes a n) up h =
    up-Heard c (handle_write a c) (handle_write-life a c) (up_of_event c h n) h
Step-Heard {c = c} {d = d} (reads readv n e) up h =
    handle_read-Heard readv c d e (up_of_event c h n) h
Step-Heard {c = c} (closes n) up h = handle_close-Heard c (up_of_event c h n) h
Step-Heard {c = c} shuts up h = shutdown-Heard c h
Step-Heard {c = c} forces up h = force_close-Heard c h
Step-Heard {c = c} {d = d} (destroys e) up h = connect_destroyed-Heard c d e h

-- Whatever happens to a new connection with a connection callback, if files are sent only while it
-- is up, and streams not at all: while it is being established
-- the callback has not been called, while it is up exactly once, and once it is down exactly
-- twice; and a connection that is not up watches no events.
pub Reach-Heard :
    {b c : Connection}
    → b.status ≡ connecting
    → b.connection_set ≡ true
    → b.notices ≡ []
    → is_none_event b.channel.events ≡ true
    → (r : Reach b c) → AllInTime r
    → Heard c
Reach-Heard {b} s is_set none_yet quiet start in_time = record {
  is_set = is_set;
  heard = ap reports none_yet ∙ ap reports_due (sym s);
  quiet = λ down. quiet;
}
Reach-Heard s is_set none_yet quiet (later r t) in_time =
    Step-Heard t in_time.0 (Reach-Heard s is_set none_yet quiet r in_time.1)
