-- ===== src/Connection/Stream.antt =====
-- `sendStream` and case 2 of `sendFileInLoop` (netpoll/net/inner/tcp_connection_impl.cc): bytes that a
-- callback gives in chunks. The callback is the list of the chunks that it gives, and behind them it gives
-- nothing; the kernel's answers are numbered in the order of the writes of one call.
use netpoll_cpp.Base.{
  Bool, Bool-cases, List, [], ap, append_assoc, drop, false, if◌then◌else◌, inl, inr, length, ltb,
  refl, suc, sym, take, take-append-drop, true, ℕ, ◌++◌, ◌∙◌, ◌∷◌, ◌≡◌, ◌≢◌,
}
use netpoll_cpp.Connection.{Answer, fatal, would_block, wrote}

-- The chunks to come; whether `fileBytesToSend_` is still above 0; `m_fileBufferPtr`; the bytes that the
-- kernel took; and whether the channel asks for write events.
pub record Stream : Type 0 where
  pub chunks : List (List ℕ)
  pub more : Bool
  pub buffer : List ℕ
  pub sent : List ℕ
  pub writing : Bool

-- `sendStream`, the node that it makes.
unfoldable pub new_stream : List (List ℕ) → Stream
new_stream chunks = record { chunks = chunks; more = true; buffer = []; sent = []; writing = false }

-- What follows a write: the stream, and whether the loop goes on.
unfoldable pub write_chunk : Answer → Stream → Stream × Bool
write_chunk (wrote n) s =
    if ltb n (length s.buffer)
    then (
      record s { sent = s.sent ++ take n s.buffer; buffer = drop n s.buffer; writing = true },
      false,
    )
    else (record s { sent = s.sent ++ s.buffer; buffer = [] }, true)
write_chunk would_block s = (record s { writing = true }, false)
write_chunk fatal s = (s, false)

-- The loop with an empty buffer: the chunks that the callback gives, from the write of number `k` on.
unfoldable pub send_chunks : (answers : ℕ → Answer) → (k : ℕ) → List (List ℕ) → Stream → Stream
unfolding write_chunk
send_chunks answers k [] s = record s { chunks = []; more = false; writing = true }
send_chunks answers k ([] ∷ cs) s = record s { chunks = cs; more = false; writing = true }
send_chunks answers k ((x ∷ xs) ∷ cs) s =
    let (t, on) = write_chunk (answers k) (record s { chunks = cs; buffer = x ∷ xs }) in
    let rest = send_chunks answers (suc k) cs t in if on then rest else t

-- `sendFileInLoop`, which a write event calls again. What is left in the buffer goes first.
unfoldable pub send_more : (more : Bool) → (answers : ℕ → Answer) → (k : ℕ) → Stream → Stream
unfolding send_chunks
send_more true answers k s = send_chunks answers k s.chunks s
send_more false answers k s = record s { writing = true }

unfoldable pub send_buffered : (answers : ℕ → Answer) → List ℕ → Stream → Stream
unfolding send_more write_chunk
send_buffered answers [] s = send_more s.more answers 0 s
send_buffered answers (x ∷ xs) s =
    let (t, on) = write_chunk (answers 0) s in
    let rest = send_more t.more answers 1 t in if on then rest else t

unfoldable pub send_stream : (answers : ℕ → Answer) → Stream → Stream
unfolding send_buffered
send_stream answers s = send_buffered answers s.buffer s

-- The bytes still to be sent: up to the first chunk of none.
pub chunks_to_come : List (List ℕ) → List ℕ
chunks_to_come [] = []
chunks_to_come ([] ∷ cs) = []
chunks_to_come ((x ∷ xs) ∷ cs) = (x ∷ xs) ++ chunks_to_come cs

pub to_come : Stream → List ℕ
unfolding chunks_to_come
to_come s = s.buffer ++ (if s.more then chunks_to_come s.chunks else [])

-- A write loses and doubles nothing, and the loop goes on only with an empty buffer.
record IsWritten (s t : Stream) (on : Bool) : Type 0 where
  kept : t.sent ++ to_come t ≡ s.sent ++ to_come s
  same_chunks : t.chunks ≡ s.chunks
  same_more : t.more ≡ s.more
  emptied : on ≡ true → t.buffer ≡ []

write_chunk-IsWritten :
    (a : Answer) (s : Stream) → IsWritten s (write_chunk a s).0 (write_chunk a s).1
unfolding write_chunk to_come
write_chunk-IsWritten (wrote n) s = elim (Bool-cases (ltb n (length s.buffer))) [
  | inl partial ↦
      let rest : List ℕ = if s.more then chunks_to_come s.chunks else [] in
      rw (partial, write_chunk)
        (record {
          kept =
              append_assoc s.sent (take n s.buffer) (drop n s.buffer ++ rest)
              ∙ ap (λ l. s.sent ++ l)
                  (sym (append_assoc (take n s.buffer) (drop n s.buffer) rest)
                    ∙ ap (λ l. l ++ rest) (take-append-drop n s.buffer));
          same_chunks = refl;
          same_more = refl;
          emptied = λ f. cc;
        })
  | inr whole ↦
      rw (whole, write_chunk)
        (record {
          kept = append_assoc s.sent s.buffer (if s.more then chunks_to_come s.chunks else []);
          same_chunks = refl;
          same_more = refl;
          emptied = λ f. refl;
        })
]
write_chunk-IsWritten would_block s = record {
  kept = refl;
  same_chunks = refl;
  same_more = refl;
  emptied = λ f. cc;
}
write_chunk-IsWritten fatal s = record {
  kept = refl;
  same_chunks = refl;
  same_more = refl;
  emptied = λ f. cc;
}

write_chunk_watches :
    (a : Answer) (s : Stream)
    → a ≢ fatal
    → (write_chunk a s).1 ≡ false
    → (write_chunk a s).0.writing ≡ true
unfolding write_chunk
write_chunk_watches (wrote n) s h e = elim (Bool-cases (ltb n (length s.buffer))) [
  | inl partial ↦ rw (partial, write_chunk) refl
  | inr whole ↦ absurd (went_on whole e)
]
  where
    went_on : ltb n (length s.buffer) ≡ false → (write_chunk (wrote n) s).1 ≡ false → ⊥
    went_on w f = cc (rw (w, write_chunk) at f)
write_chunk_watches would_block s h e = refl
write_chunk_watches fatal s h e = absurd (h refl)

-- The loop, from an empty buffer.
send_chunks-kept :
    (answers : ℕ → Answer) (k : ℕ) (cs : List (List ℕ)) (s : Stream)
    → s.buffer ≡ []
    → s.more ≡ true
    → (let t = send_chunks answers k cs s in t.sent ++ to_come t) ≡ s.sent ++ chunks_to_come cs
unfolding send_chunks to_come chunks_to_come
send_chunks-kept answers k [] s e m = ap (λ b. s.sent ++ (b ++ [])) e
send_chunks-kept answers k ([] ∷ cs) s e m = ap (λ b. s.sent ++ (b ++ [])) e
send_chunks-kept answers k ((x ∷ xs) ∷ cs) s e m = elim (Bool-cases (write_chunk a u).1) [
  | inr off ↦ rw (off, send_chunks) written
  | inl on ↦
      let t = (write_chunk a u).0 in
      let again = send_chunks-kept answers (suc k) cs t (w.emptied on) (w.same_more ∙ m) in
      let all_of_it : to_come t ≡ chunks_to_come cs =
        come_to t (w.emptied on) (w.same_more ∙ m) w.same_chunks in
      rw (on, send_chunks) (again ∙ ap (λ l. t.sent ++ l) (sym all_of_it) ∙ written)
]
  where
    a : Answer
    a = answers k

    u : Stream
    u = record s { chunks = cs; buffer = x ∷ xs }

    w : IsWritten u (write_chunk a u).0 (write_chunk a u).1
    w = write_chunk-IsWritten a u

    written :
        (let t = (write_chunk a u).0 in t.sent ++ to_come t)
        ≡ s.sent ++ ((x ∷ xs) ++ chunks_to_come cs)
    written = w.kept ∙ ap (λ b. s.sent ++ ((x ∷ xs) ++ (if b then chunks_to_come cs else []))) m

    come_to :
        (t : Stream) → t.buffer ≡ [] → t.more ≡ true → t.chunks ≡ cs → to_come t ≡ chunks_to_come cs
    come_to t f g h =
        ap (λ b. b ++ (if t.more then chunks_to_come t.chunks else [])) f
        ∙ ap (λ b. if b then chunks_to_come t.chunks else []) g
        ∙ ap chunks_to_come h

send_chunks_watches :
    (answers : ℕ → Answer) (k : ℕ) (cs : List (List ℕ)) (s : Stream)
    → ((j : ℕ) → answers j ≢ fatal)
    → (send_chunks answers k cs s).writing ≡ true
unfolding send_chunks
send_chunks_watches answers k [] s h = refl
send_chunks_watches answers k ([] ∷ cs) s h = refl
send_chunks_watches answers k ((x ∷ xs) ∷ cs) s h =
    elim (Bool-cases (write_chunk (answers k) u).1) [
      | inl on ↦
          rw (on, send_chunks)
            (send_chunks_watches answers (suc k) cs (write_chunk (answers k) u).0 h)
      | inr off ↦ rw (off, send_chunks) (write_chunk_watches (answers k) u (h k) off)
    ]
  where
    u : Stream
    u = record s { chunks = cs; buffer = x ∷ xs }

send_more_lem :
    (more : Bool) (answers : ℕ → Answer) (k : ℕ) (s : Stream)
    → s.buffer ≡ []
    → s.more ≡ more
    → (let t = send_more more answers k s in t.sent ++ to_come t) ≡ s.sent ++ to_come s
unfolding send_more to_come
send_more_lem true answers k s e more =
    send_chunks-kept answers k s.chunks s e more
    ∙ ap (λ b. s.sent ++ (b ++ chunks_to_come s.chunks)) (sym e)
    ∙ ap (λ b. s.sent ++ (s.buffer ++ (if b then chunks_to_come s.chunks else []))) (sym more)
send_more_lem false answers k s e done = refl

send_more_watches :
    (more : Bool) (answers : ℕ → Answer) (k : ℕ) (s : Stream)
    → ((j : ℕ) → answers j ≢ fatal)
    → (send_more more answers k s).writing ≡ true
unfolding send_more
send_more_watches true answers k s h = send_chunks_watches answers k s.chunks s h
send_more_watches false answers k s h = refl

-- A call with something in the buffer.
send_buffered_lem :
    (answers : ℕ → Answer) (x : ℕ) (xs : List ℕ) (s : Stream)
    → ((j : ℕ) → answers j ≢ fatal)
    → let t = send_buffered answers (x ∷ xs) s in
      (t.sent ++ to_come t ≡ s.sent ++ to_come s) × (t.writing ≡ true)
unfolding send_buffered
send_buffered_lem answers x xs s h =
    let t = (write_chunk (answers 0) s).0 in
    let w = write_chunk-IsWritten (answers 0) s in
    elim (Bool-cases (write_chunk (answers 0) s).1) [
      | inl on ↦
          rw (on, send_buffered)
            (
              send_more_lem t.more answers 1 t (w.emptied on) refl ∙ w.kept,
              send_more_watches t.more answers 1 t h,
            )
      | inr off ↦ rw (off, send_buffered) (w.kept, write_chunk_watches (answers 0) s (h 0) off)
    ]

-- A call of `sendFileInLoop` for a stream, however much the kernel takes at each write, if no write
-- fails but for a full socket: what was sent and what is to come is what it was before, byte for
-- byte, and a write event will call it again.
pub send_stream_lem :
    (answers : ℕ → Answer) (s : Stream)
    → ((j : ℕ) → answers j ≢ fatal)
    → let t = send_stream answers s in
      (t.sent ++ to_come t ≡ s.sent ++ to_come s) × (t.writing ≡ true)
unfolding send_stream send_buffered
send_stream_lem answers s h = sent_from s.buffer refl
  where
    sent_from :
        (b : List ℕ)
        → s.buffer ≡ b
        → (let t = send_buffered answers b s in t.sent ++ to_come t ≡ s.sent ++ to_come s)
          × ((send_buffered answers b s).writing ≡ true)
    sent_from [] e =
        (send_more_lem s.more answers 0 s e refl, send_more_watches s.more answers 0 s h)
    sent_from (x ∷ xs) e = send_buffered_lem answers x xs s h
