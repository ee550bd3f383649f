-- ===== src/Connection/Again.antt =====
-- What `sendFile` does to a connection that has closed.

use netpoll_cpp.Base.{
  Bool, [], ap, arith, false, ltb, refl, true, ℕ, ◌&&◌, ◌+◌, ◌<◌, ◌==◌, ◌∙◌, ◌∷◌, ◌≡◌,
}
use netpoll_cpp.Channel.{Flags, write_event, disable_all, is_none_event, is_writing, shares_flag}
use netpoll_cpp.Connection.{
  Connection, File, closed, connection, disconnected, notify, send_file, wrote,
}
use netpoll_cpp.Connection.Hearing.{handle_close-Heard}
use netpoll_cpp.Connection.Lifecycle.{handle_close}
use netpoll_cpp.Connection.Reachable.{Heard, is_up, reports_due}
use netpoll_cpp.Connection.Reports.{Life, notify-life, reports, reports-append, send_file-life}
use netpoll_cpp.Connection.Sending.{notify_lem, watch_writing_lem}
use netpoll_cpp.Connection.Writing.{sent_on}
use netpoll_cpp.Connection.Watching.{send_file_alone}

handle_close_keeps :
    (c : Connection) → ((handle_close c).nodes ≡ c.nodes) × ((handle_close c).status ≡ disconnected)
unfolding handle_close
handle_close_keeps c =
    let k : Connection = record c { status = disconnected; channel = disable_all c.channel } in
    let m = notify_lem c.connection_set connection k in
    let o = notify_lem c.close_set closed (notify c.connection_set connection k) in
    (o.1 ∙ m.1, o.3 ∙ m.3)

reports-handle_close :
    (c : Connection)
    → c.connection_set ≡ true
    → reports (handle_close c).notices ≡ 1 + reports c.notices
unfolding handle_close
reports-handle_close c on =
    let k : Connection = record c { status = disconnected; channel = disable_all c.channel } in
    let d = notify c.connection_set connection k in
    ap (λ (l : Life). l.heard) (notify-life c.close_set closed d refl) ∙ told c.connection_set k on
  where
    told :
        (is_set : Bool) (k : Connection)
        → is_set ≡ true
        → reports (notify is_set connection k).notices ≡ 1 + reports k.notices
    told true k h = omega (arith, reports-append k.notices (connection ∷ []))
    told false k h = cc

some_event : (e : Flags) → shares_flag e write_event ≡ true → is_none_event e ≡ false
unfolding shares_flag is_none_event
some_event e h = ground (arith, h)

-- A part of a file is sent over a channel that watches nothing.
watches_again :
    (f : File) (n : ℕ) (c : Connection)
    → c.nodes ≡ []
    → 0 < n
    → n < f.to_send
    → is_none_event (send_file f (wrote n) c).channel.events ≡ false
unfolding is_writing
watches_again f n c e some_bytes part =
    let goes : (ltb n f.to_send && n == 0) ≡ false = ground arith in
    some_event (send_file f (wrote n) c).channel.events (
      ap (λ (d : Connection). is_writing d.channel) (send_file_alone f n c e goes)
      ∙ (watch_writing_lem (sent_on n f [] c)).2)

-- A connection that is up, with nothing to write, closes, and a file is sent over it afterwards, of
-- which the kernel takes a part: it watches for room again, and when its channel then reports the
-- end, `handleClose` calls the connection callback a third time.
pub file_reports_again :
    (f : File) (n : ℕ) (c : Connection)
    → Heard c
    → is_up c.status ≡ true
    → c.nodes ≡ []
    → 0 < n
    → n < f.to_send
    → let d = send_file f (wrote n) (handle_close c) in
      (is_none_event d.channel.events ≡ false) × (reports (handle_close d).notices ≡ 3)
file_reports_again f n c h up e some_bytes part =
    let k = handle_close_keeps c in
    let b = handle_close-Heard c up h in
    let same = send_file-life f (wrote n) (handle_close c) in
    (
      watches_again f n (handle_close c) (k.0 ∙ e) some_bytes part,
      reports-handle_close (send_file f (wrote n) (handle_close c))
            (ap (λ (l : Life). l.is_set) same ∙ b.is_set)
          ∙ ap (λ r. 1 + r) (ap (λ (l : Life). l.heard) same ∙ b.heard ∙ ap reports_due k.1),
    )
