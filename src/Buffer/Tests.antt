-- ===== src/Buffer/Tests.antt =====
-- Runs of the message buffer on small inputs, and its theorems at concrete buffers.
use mathlib.Core.Option
use netpoll_cpp.Base.{
  List, [], arith, false, inl, length, refl, replicate, some, true, ℕ, ◌++◌, ◌∷◌, ◌≡◌,
}
use netpoll_cpp.Buffer.{
  MessageBuffer, compact, contents, ensure_fuel, ensure_writable_bytes, grown_len,
  new_message_buffer, push_back, push_back_buffer, push_fitted, push_front, read, retrieve,
  retrieve_all, swap, unwrite,
}
use netpoll_cpp.Buffer.Bounds.{IsValid}
use netpoll_cpp.Buffer.Fd.{Readv, got, read_fd, read_fd_lem}
use netpoll_cpp.Buffer.Front.{push_front_lem}
use netpoll_cpp.Buffer.Ints.{push_front_int, read_int, read_int-push_front_int}
use netpoll_cpp.Buffer.Push.{Appended, push_back_buffer_lem, push_back_lem}
use netpoll_cpp.Buffer.Queue.{ActsAsQueue, fetch, fetch_all, push, run_refines, skip}
use netpoll_cpp.Buffer.Room.{Room, ensure_writable_bytes_lem}
use netpoll_cpp.Buffer.Scan.{find_crlf}
use netpoll_cpp.Buffer.Storage.{copy, memcpy, resize}
use netpoll_cpp.Buffer.Take.{retrieve_lem, unwrite_lem}

abbrev text : List ℕ
text = 104 ∷ 105 ∷ 13 ∷ 10 ∷ 33 ∷ []

-- "hi", CR LF and "!" behind the offset of a buffer for 16 bytes.
abbrev greeting : MessageBuffer
greeting = record {
  head = 8;
  tail = 13;
  init_cap = 16;
  buffer = replicate 8 0 ++ text ++ replicate 11 0;
}

-- Twelve bytes, of which the first four are read: three more fit in front, four only behind.
abbrev crowded : MessageBuffer
crowded = record {
  head = 2;
  tail = 8;
  init_cap = 8;
  buffer = 0 ∷ 0 ∷ 1 ∷ 2 ∷ 3 ∷ 4 ∷ 5 ∷ 6 ∷ replicate 8 0;
}

greeting-IsValid : IsValid greeting
greeting-IsValid = omega arith

crowded-IsValid : IsValid crowded
crowded-IsValid = omega arith

read_back : read 3 greeting ≡ (104 ∷ 105 ∷ 13 ∷ [], record greeting { head = 11 })
unfolding read retrieve retrieve_all
read_back = refl

grows : Option.map (λ b. b.tail) (push_back (replicate 40 7) greeting) ≡ some 53
unfolding push_back ensure_writable_bytes ensure_fuel grown_len push_fitted compact
    new_message_buffer swap memcpy copy resize
grows = refl

push_back_lem_example :
    (c : MessageBuffer) × (push_back text greeting ≡ some c) × Appended greeting text c
push_back_lem_example = push_back_lem text greeting-IsValid (omega arith)

push_back_buffer_lem_example :
    (c : MessageBuffer) × (push_back_buffer greeting crowded ≡ some c)
    × Appended crowded (contents greeting) c
push_back_buffer_lem_example = push_back_buffer_lem greeting crowded-IsValid (omega arith)

ensure_writable_bytes_lem_example :
    (c : MessageBuffer) × (ensure_writable_bytes 100 greeting ≡ some c) × Room greeting 100 c
ensure_writable_bytes_lem_example = ensure_writable_bytes_lem 100 greeting-IsValid (omega arith)

retrieve_lem_example :
    IsValid (retrieve 2 greeting)
    × (contents (retrieve 2 greeting) ≡ 13 ∷ 10 ∷ 33 ∷ [])
    × (length (retrieve 2 greeting).buffer ≡ 24)
retrieve_lem_example = retrieve_lem 2 greeting-IsValid

unwrite_lem_example :
    IsValid (unwrite 1 greeting) × (contents (unwrite 1 greeting) ≡ 104 ∷ 105 ∷ 13 ∷ 10 ∷ [])
unwrite_lem_example = unwrite_lem 1 greeting-IsValid (omega arith)

push_front_lem_example :
    (c : MessageBuffer) × (push_front (9 ∷ 9 ∷ []) greeting ≡ some c)
    × IsValid c
    × (contents c ≡ 9 ∷ 9 ∷ text)
push_front_lem_example =
    push_front_lem (9 ∷ 9 ∷ []) greeting-IsValid (omega arith) (inl (omega arith))

run_refines_example :
    (outs : List (List ℕ)) × (c : MessageBuffer) × ActsAsQueue greeting
      (push text ∷ fetch 6 ∷ skip 1 ∷ fetch_all ∷ [])
      text
      outs
      c
run_refines_example =
    run_refines (push text ∷ fetch 6 ∷ skip 1 ∷ fetch_all ∷ []) greeting greeting-IsValid
      (omega arith) (omega arith)

read_int-push_front_int_example :
    (c : MessageBuffer) × (push_front_int true 4 123456789 greeting ≡ some c)
    × ((read_int false 4 c).0 ≡ 123456789)
    × (contents (read_int false 4 c).1 ≡ text)
read_int-push_front_int_example =
    read_int-push_front_int true false 4 123456789 greeting-IsValid (omega arith) (omega arith)
      (omega arith)

abbrev thirty : List ℕ → Readv
thirty lens = got (replicate 30 65)

read_fd_lem_example :
    (c : MessageBuffer) × (read_fd thirty greeting ≡ some (got (replicate 30 65), c))
    × IsValid c
    × (contents c ≡ text ++ replicate 30 65)
read_fd_lem_example =
    read_fd_lem thirty (replicate 30 65) greeting-IsValid (omega arith) refl (omega arith)

find_crlf-greeting : find_crlf greeting ≡ some 10
unfolding find_crlf
find_crlf-greeting = refl
