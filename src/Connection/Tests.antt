-- ===== src/Connection/Tests.antt =====
-- A connection at concrete sequences of calls.

use netpoll_cpp.Connection.Senders as AnyThread
use netpoll_cpp.Base.{List, [], arith, false, refl, some, true, ℕ, ◌++◌, ◌∷◌, ◌≡◌}
use netpoll_cpp.Channel.{is_none_event, is_writing, new_channel, write_event}
use netpoll_cpp.Connection.{
  Answer, Connection, File, connected, file, handle_write, send_file, send_in_loop, would_block,
  wrote,
}
use netpoll_cpp.Connection.Again.{file_reports_again}
use netpoll_cpp.Connection.Reports.{reports}
use netpoll_cpp.Connection.Draining.{drain, drain_lem}
use netpoll_cpp.Connection.Hearing.{Reach-Heard}
use netpoll_cpp.Connection.Lifecycle.{connect_established, handle_close, new_connection, shutdown}
use netpoll_cpp.Connection.Reachable.{Heard, establishes, later, shuts, start}
use netpoll_cpp.Connection.Senders.{Senders, new_senders, of_thread, plus_send_num}
use netpoll_cpp.Connection.Senders.Order.{sent_in_order}
use netpoll_cpp.Connection.Sending.{Sent, Watches, send_in_loop-Sent}
use netpoll_cpp.Connection.Stream.{new_stream, send_stream, send_stream_lem, to_come}
use netpoll_cpp.Connection.Watching.{another_file, run_later, send_file_stalls}
use netpoll_cpp.Connection.WriteEvent.{handle_write-Kept}
use netpoll_cpp.Connection.Writing.{Kept}

abbrev fresh : Connection
fresh = record (new_connection 5) { connection_set = true }

-- Connected, with nothing to write.
abbrev idle : Connection
idle = record fresh { status = connected }

abbrev page : File
page = record { content = 7 ∷ 8 ∷ 9 ∷ 10 ∷ []; offset = 1; to_send = 2 }

-- A file waits, and writing is watched.
abbrev busy : Connection
busy = record idle {
  channel = record (new_channel 5) { events = write_event };
  nodes = file page ∷ [];
}

idle-Watches : Watches idle
unfolding new_channel is_writing
idle-Watches = refl

send_in_loop-Sent_example :
    (d : Connection) × (send_in_loop (1 ∷ 2 ∷ 3 ∷ []) (wrote 2) idle ≡ some d)
    × Sent (1 ∷ 2 ∷ 3 ∷ []) idle d
send_in_loop-Sent_example =
    send_in_loop-Sent (1 ∷ 2 ∷ 3 ∷ []) (wrote 2) idle refl tt idle-Watches (omega arith)
      (omega arith)

handle_write-Kept_example : Kept busy (handle_write (wrote 1) busy)
unfolding is_writing
handle_write-Kept_example =
    handle_write-Kept (wrote 1) busy (omega arith, tt) (λ p. cc) refl (omega arith)

send_file_stalls_example :
    ((send_file page would_block idle).nodes ≡ file page ∷ [])
    × ((run_later (another_file page (wrote 1) ∷ []) (send_file page would_block idle)).sent
        ≡ idle.sent)
unfolding new_channel is_writing
send_file_stalls_example = send_file_stalls page (another_file page (wrote 1) ∷ []) idle refl refl

Reach-Heard_example : Heard (shutdown (connect_established fresh))
unfolding new_channel is_none_event
Reach-Heard_example =
    Reach-Heard refl refl refl refl (later (later start (establishes refl)) shuts) (tt, (tt, tt))

file_reports_again_example :
    let d = send_file page (wrote 1) (handle_close (connect_established fresh)) in
    (is_none_event d.channel.events ≡ false) × (reports (handle_close d).notices ≡ 3)
unfolding new_channel is_none_event connect_established
file_reports_again_example =
    file_reports_again page 1 (connect_established fresh)
      (Reach-Heard refl refl refl refl (later start (establishes refl)) (tt, tt)) refl refl
      (omega arith) (omega arith)

drain_lem_example : ((drain 2 busy).nodes ≡ []) × ((drain 2 busy).sent ≡ 8 ∷ 9 ∷ [])
unfolding is_writing
drain_lem_example = drain_lem busy (omega arith, tt) refl (λ p. cc)

-- Thread 1 gives message 7 and the loop's thread message 8; the first is sent.
abbrev both_counted : Senders
both_counted = plus_send_num 0 8 (plus_send_num 1 7 new_senders)

abbrev one_sent : Senders
one_sent = record both_counted {
  counted = (0, 8) ∷ [];
  queued = [];
  sending = true;
  sent = (1, 7) ∷ [];
}

one_sent-Reach : AnyThread.Reach one_sent
unfolding of_thread
one_sent-Reach =
    let counted : AnyThread.Reach both_counted =
      AnyThread.later (AnyThread.later AnyThread.start (AnyThread.counts 1 7 (omega arith) refl))
        (AnyThread.counts_own 8 (omega arith) refl) in
    AnyThread.later (AnyThread.later counted (AnyThread.queues [] ((0, 8) ∷ []) 1 7 refl))
      (AnyThread.runs 1 7 [] refl refl)

sent_in_order_example : (rest : List ℕ) × (of_thread 1 one_sent.sent ++ rest ≡ one_sent.given 1)
sent_in_order_example = sent_in_order 1 one_sent-Reach

-- A stream of two chunks, of which the kernel takes the first and a part of the second.
abbrev taken : ℕ → Answer
taken k = wrote 2

send_stream_lem_example :
    let s = new_stream ((1 ∷ 2 ∷ []) ∷ (3 ∷ 4 ∷ 5 ∷ []) ∷ []) in
    let t = send_stream taken s in (t.sent ++ to_come t ≡ s.sent ++ to_come s) × (t.writing ≡ true)
send_stream_lem_example =
    send_stream_lem taken (new_stream ((1 ∷ 2 ∷ []) ∷ (3 ∷ 4 ∷ 5 ∷ []) ∷ [])) (λ j e. cc)
