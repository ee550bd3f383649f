-- ===== src/Connection/Nodes.antt =====
-- The bytes that wait in the write list, and what appending to the list does to them.

use netpoll_cpp.Base.{
  List, [], ap, append-nil, append_assoc, arith, length, length-append, refl, some, sym, ℕ, ◌++◌,
  ◌+◌, ◌<◌, ◌^◌, ◌∙◌, ◌∷◌, ◌≡◌, ◌≢◌, ◌≤◌,
}
use netpoll_cpp.Buffer.{MessageBuffer, contents, new_message_buffer, push_back, readable_bytes}
use netpoll_cpp.Buffer.Bounds.{
  IsValid, contents-new_message_buffer, length-contents, length-new_message_buffer,
  new_message_buffer-IsValid,
}
use netpoll_cpp.Buffer.Push.{push_back_lem}
use netpoll_cpp.Buffer.Storage.{slice}
use netpoll_cpp.Connection.{Node, default_length, file, msg, push_last}

abbrev pub node_bytes : Node → List ℕ
node_bytes (msg b) = contents b
node_bytes (file f) = slice f.content f.offset f.to_send

abbrev pub pending : List Node → List ℕ
pending [] = []
pending (n ∷ ns) = node_bytes n ++ pending ns

-- A buffer is valid and has room to grow; a file has the bytes that are to be sent.
abbrev pub NodeIsValid : Node → Type 0
NodeIsValid (msg b) = IsValid b × (length b.buffer < 2 ^ 60)
NodeIsValid (file f) = f.offset + f.to_send ≤ length f.content

abbrev pub AllValid : List Node → Type 0
AllValid [] = Unit {0}
AllValid (n ∷ ns) = NodeIsValid n × AllValid ns

pub pending-append : (ns ms : List Node) → pending (ns ++ ms) ≡ pending ns ++ pending ms
pending-append [] ms = refl
pending-append (n ∷ ns) ms =
    ap (λ r. node_bytes n ++ r) (pending-append ns ms)
    ∙ sym (append_assoc (node_bytes n) (pending ns) (pending ms))

fresh_push :
    (xs : List ℕ)
    → length xs < 2 ^ 58
    → (b : MessageBuffer) × (push_back xs (new_message_buffer default_length) ≡ some b)
      × IsValid b
      × (length b.buffer < 2 ^ 60)
      × (contents b ≡ xs)
fresh_push xs h =
    let (b, e, a) =
      push_back_lem xs (new_message_buffer-IsValid default_length (omega arith) (omega arith))
        (omega (arith, length-new_message_buffer default_length (omega arith))) in
    (
      b,
      e,
      a.valid,
      omega (
        arith,
        a.size_le,
        length-new_message_buffer default_length (omega arith),
        length-contents (new_message_buffer default_length),
        ap (λ (l : List ℕ). length l) (contents-new_message_buffer default_length),
      ),
      a.bytes ∙ ap (λ l. l ++ xs) (contents-new_message_buffer default_length),
    )

-- What `push_last` returns: a list that is not empty and holds the new bytes at its end.
pub record Pushed (xs : List ℕ) (ns ms : List Node) : Type 0 where
  pub bytes : pending ms ≡ pending ns ++ xs
  pub some_node : ms ≢ []
  pub valid : AllValid ms

push_one :
    {b : MessageBuffer} (xs : List ℕ)
    → NodeIsValid (msg b)
    → readable_bytes b + length xs < 2 ^ 58
    → (d : MessageBuffer) × (push_back xs b ≡ some d) × Pushed xs (msg b ∷ []) (msg d ∷ [])
push_one {b} xs v h =
    let (d, e, a) = push_back_lem xs v.0 (omega arith) in
    (
      d,
      e,
      record {
        bytes =
            append-nil (contents d) ∙ a.bytes ∙ ap (λ r. r ++ xs) (sym (append-nil (contents b)));
        some_node = λ p. cc;
        valid = ((a.valid, omega (arith, a.size_le)), tt);
      },
    )

-- `push_last` returns, appends exactly its bytes to those that wait and keeps the nodes valid.
pub push_last-Pushed :
    (xs : List ℕ) (ns : List Node)
    → AllValid ns
    → length (pending ns) + length xs < 2 ^ 58
    → (r : List Node × MessageBuffer) × (push_last xs ns ≡ some r) × Pushed xs ns r.0
unfolding push_last
push_last-Pushed xs [] v h =
    let (b, e, bv, small, bytes) = fresh_push xs (omega arith) in
    (
      (msg b ∷ [], b),
      rw (e, push_last),
      record {
        bytes = append-nil (contents b) ∙ bytes;
        some_node = λ p. cc;
        valid = ((bv, small), tt);
      },
    )
push_last-Pushed xs (msg b ∷ []) v h =
    let (d, e, p) =
      push_one {b = b} xs v.0 (omega (arith, length-contents b, length-append (contents b) [])) in
    ((msg d ∷ [], d), rw (e, push_last), p)
push_last-Pushed xs (file f ∷ []) v h =
    let (b, e, bv, small, bytes) = fresh_push xs (omega arith) in
    (
      (file f ∷ msg b ∷ [], b),
      rw (e, push_last),
      record {
        bytes =
            ap (λ r. node_bytes (file f) ++ r) (append-nil (contents b) ∙ bytes)
            ∙ sym (ap (λ r. r ++ xs) (append-nil (node_bytes (file f))));
        some_node = λ p. cc;
        valid = (v.0, ((bv, small), tt));
      },
    )
push_last-Pushed xs (n ∷ m ∷ ns) v h =
    let (r, e, p) =
      push_last-Pushed xs (m ∷ ns) v.1
        (omega (arith, length-append (node_bytes n) (pending (m ∷ ns)))) in
    (
      (n ∷ r.0, r.1),
      rw (e, push_last),
      record {
        bytes =
            ap (λ s. node_bytes n ++ s) p.bytes
            ∙ sym (append_assoc (node_bytes n) (pending (m ∷ ns)) xs);
        some_node = λ q. cc;
        valid = (v.0, p.valid);
      },
    )
