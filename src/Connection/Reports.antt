-- ===== src/Connection/Reports.antt =====
-- What the connection callback hears over the life of a connection: once that it is up, and once
-- that it is down.
use netpoll_cpp.Base.{
  Bool, Bool-cases, List, Option, [], ap, arith, drop, false, inl, inr, ltb, none, not, refl, some,
  sym, true, ℕ, ◌&&◌, ◌++◌, ◌+◌, ◌-◌, ◌==◌, ◌>>=◌, ◌∙◌, ◌∷◌, ◌≡◌,
}
use netpoll_cpp.Buffer.{MessageBuffer, readable_bytes}
use netpoll_cpp.Buffer.Storage.{slice}
use netpoll_cpp.Channel.{disable_writing, is_writing}
use netpoll_cpp.Connection.{
  Answer, Connection, File, Node, Notice, Status, closed, connection, fatal, file, finish_front,
  handle_write, high_water, is_connected, is_disconnecting, msg, no_nodes, notify, push_last,
  queue_rest, received, removed, send_connected, send_file, send_file_in_loop, send_in_loop,
  send_next, shut_write, take_written, unwatch_writing, watch_writing, would_block, write_complete,
  write_front, write_nodes, wrote,
}

-- How often the connection callback was called.
abbrev pub reports : List Notice → ℕ
reports [] = 0
reports (connection ∷ ns) = 1 + reports ns
reports (_ ∷ ns) = reports ns

pub reports-append : (ns ms : List Notice) → reports (ns ++ ms) ≡ reports ns + reports ms
reports-append [] ms = omega arith
reports-append (connection ∷ ns) ms = omega (arith, reports-append ns ms)
reports-append (closed ∷ ns) ms = reports-append ns ms
reports-append (received ∷ ns) ms = reports-append ns ms
reports-append (write_complete ∷ ns) ms = reports-append ns ms
reports-append (shut_write ∷ ns) ms = reports-append ns ms
reports-append (removed ∷ ns) ms = reports-append ns ms
reports-append (high_water n ∷ ns) ms = reports-append ns ms

-- What sending leaves alone.
pub record Life : Type 0 where
  pub status : Status
  pub is_set : Bool
  pub heard : ℕ

abbrev pub life : Connection → Life
life c = record { status = c.status; is_set = c.connection_set; heard = reports c.notices }

pub notify-life :
    (is_set : Bool) (n : Notice) (c : Connection)
    → reports (n ∷ []) ≡ 0
    → life (notify is_set n c) ≡ life c
notify-life true n c z =
    ap (λ k. record { status = c.status; is_set = c.connection_set; heard = k })
      (reports-append c.notices (n ∷ []) ∙ omega (arith, z))
notify-life false n c z = refl

watch_writing-life : (c : Connection) → life (watch_writing c) ≡ life c
unfolding watch_writing
watch_writing-life c = elim (Bool-cases (is_writing c.channel)) [
  | inl on ↦ rw on refl
  | inr off ↦ rw off refl
]

life_of_bind :
    {A : Type 0} (o : Option A) (f : A → Connection) (c d : Connection)
    → (o >>= λ r. some (f r)) ≡ some d
    → ((r : A) → life (f r) ≡ life c)
    → life d ≡ life c
life_of_bind none f c d e h = cc
life_of_bind (some r) f c d e h = let same : f r ≡ d = cc in ap life (sym same) ∙ h r

queue_rest-life : (xs : List ℕ) (c d : Connection) → queue_rest xs c ≡ some d → life d ≡ life c
unfolding queue_rest
queue_rest-life [] c d e = let same : c ≡ d = cc in ap life (sym same)
queue_rest-life (x ∷ xs) c d e =
    life_of_bind (push_last (x ∷ xs) c.nodes)
      (λ r.
        notify (c.high_water_set && ltb c.high_water_len (readable_bytes r.1))
          (high_water (readable_bytes r.1)) (watch_writing (record c { nodes = r.0 })))
      c d e
      (λ r.
        notify-life (c.high_water_set && ltb c.high_water_len (readable_bytes r.1))
          (high_water (readable_bytes r.1)) (watch_writing (record c { nodes = r.0 })) refl
        ∙ watch_writing-life (record c { nodes = r.0 }))

direct-life :
    (xs : List ℕ) (a : Answer) (c d : Connection)
    → elim a [
      | wrote n ↦ queue_rest (drop n xs) (take_written n xs c)
      | would_block ↦ queue_rest xs c
      | fatal ↦ some c
    ]
      ≡ some d
    → life d ≡ life c
unfolding take_written
direct-life xs (wrote n) c d e = queue_rest-life (drop n xs) (take_written n xs c) d e
direct-life xs would_block c d e = queue_rest-life xs c d e
direct-life xs fatal c d e = let same : c ≡ d = cc in ap life (sym same)

send_connected-life :
    (xs : List ℕ) (a : Answer) (c d : Connection) → send_connected xs a c ≡ some d → life d ≡ life c
unfolding send_connected take_written
send_connected-life xs a c d e =
    elim (Bool-cases (not (is_writing c.channel) && no_nodes c.nodes)) [
      | inl direct ↦ direct-life xs a c d (rw direct at e)
      | inr queue ↦ queue_rest-life xs c d (rw queue at e)
    ]

send_file_in_loop-life :
    (f : File) (ns : List Node) (a : Answer) (c : Connection)
    → life (send_file_in_loop f ns a c) ≡ life c
unfolding send_file_in_loop unwatch_writing
send_file_in_loop-life f ns (wrote n) c = elim (Bool-cases (ltb n f.to_send && n == 0)) [
  | inl nothing ↦ rw nothing refl
  | inr more ↦ rw more (
      watch_writing-life (record c {
        nodes = file (record f { offset = f.offset + n; to_send = f.to_send - n }) ∷ ns;
        sent = c.sent ++ slice f.content f.offset n;
      }))
]
send_file_in_loop-life f ns would_block c = refl
send_file_in_loop-life f ns fatal c = elim (Bool-cases (is_writing c.channel)) [
  | inl on ↦ rw on refl
  | inr off ↦ rw off refl
]

send_file_nodes-life :
    (f : File) (a : Answer) (ns : List Node) (c : Connection)
    → life (elim ns [
      | [] ↦ send_file_in_loop f [] a (record c { nodes = file f ∷ [] })
      | n ∷ ms ↦ record c { nodes = n ∷ ms ++ (file f ∷ []) }
    ])
      ≡ life c
send_file_nodes-life f a [] c = send_file_in_loop-life f [] a (record c { nodes = file f ∷ [] })
send_file_nodes-life f a (n ∷ ns) c = refl

pub send_file-life : (f : File) (a : Answer) (c : Connection) → life (send_file f a c) ≡ life c
unfolding send_file
send_file-life f a c = send_file_nodes-life f a c.nodes c

write_front-life :
    (b : MessageBuffer) (ns : List Node) (a : Answer) (c : Connection)
    → life (write_front b ns a c) ≡ life c
unfolding write_front take_written
write_front-life b ns (wrote n) c = refl
write_front-life b ns would_block c = refl
write_front-life b ns fatal c = refl

send_next-life : (ns : List Node) (a : Answer) (c : Connection) → life (send_next ns a c) ≡ life c
unfolding send_next
send_next-life [] a c = refl
send_next-life (msg b ∷ ns) a c = write_front-life b ns a c
send_next-life (file f ∷ ns) a c = send_file_in_loop-life f ns a c

pub send_in_loop-life :
    (xs : List ℕ) (a : Answer) (c d : Connection) → send_in_loop xs a c ≡ some d → life d ≡ life c
unfolding send_in_loop
send_in_loop-life xs a c d e = elim (Bool-cases (is_connected c.status)) [
  | inl on ↦ send_connected-life xs a c d (rw on at e)
  | inr off ↦ let same : c ≡ d = cc in ap life (sym same)
]

finish_front-life :
    (ns : List Node) (a : Answer) (c : Connection) → life (finish_front ns a c) ≡ life c
unfolding finish_front unwatch_writing
finish_front-life [] a c =
    let d : Connection = record c { nodes = []; channel = disable_writing c.channel } in
    notify-life (is_disconnecting c.status) shut_write
      (notify c.write_complete_set write_complete d) refl
    ∙ notify-life c.write_complete_set write_complete d refl
finish_front-life (n ∷ ns) a c = send_next-life (n ∷ ns) a (record c { nodes = n ∷ ns })

write_nodes-life :
    (ns : List Node) (a : Answer) (c : Connection) → life (write_nodes ns a c) ≡ life c
unfolding write_nodes
write_nodes-life [] a c = refl
write_nodes-life (msg b ∷ ns) a c = elim (Bool-cases (readable_bytes b == 0)) [
  | inl done ↦ rw done (finish_front-life ns a c)
  | inr more ↦ rw more (write_front-life b ns a c)
]
write_nodes-life (file f ∷ ns) a c = elim (Bool-cases (f.to_send == 0)) [
  | inl done ↦ rw done (finish_front-life ns a c)
  | inr more ↦ rw more (send_file_in_loop-life f ns a c)
]

pub handle_write-life : (a : Answer) (c : Connection) → life (handle_write a c) ≡ life c
unfolding handle_write
handle_write-life a c = elim (Bool-cases (is_writing c.channel)) [
  | inl on ↦ rw on (write_nodes-life c.nodes a c)
  | inr off ↦ rw off refl
]
