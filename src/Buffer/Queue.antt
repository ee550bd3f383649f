-- ===== src/Buffer/Queue.antt =====
-- A message buffer is a queue of bytes: no sequence of its calls tells a valid buffer from the list
-- of its readable bytes.
use mathlib.Core.Path.{ap₂}
use netpoll_cpp.Base.{
  List, Option, [], ap, arith, drop, length, length-append, length-drop, refl, some, take, ℕ, ◌++◌,
  ◌+◌, ◌<◌, ◌>>=◌, ◌^◌, ◌∙◌, ◌∷◌, ◌≡◌, ◌≤◌,
}
use netpoll_cpp.Buffer.{
  MessageBuffer, contents, push_back, read, read_all, readable_bytes, retrieve,
}
use netpoll_cpp.Buffer.Bounds.{IsValid, length-contents}
use netpoll_cpp.Buffer.Push.{Appended, push_back_lem}
use netpoll_cpp.Buffer.Take.{Left, read_all_lem, read_lem, retrieve-Left}

-- The calls of a client, and the queue's answer to each.
pub data Op : Type 0 where
  push : List ℕ → Op
  skip : ℕ → Op
  fetch : ℕ → Op
  fetch_all : Op

-- The buffer's calls in order, with the strings that they return.
pub run : MessageBuffer → List Op → Option (List (List ℕ) × MessageBuffer)
run b [] = some ([], b)
run b (push xs ∷ ops) = do c ← push_back xs b; run c ops
run b (skip n ∷ ops) = run (retrieve n b) ops
run b (fetch n ∷ ops) = do r ← run (read n b).1 ops; some ((read n b).0 ∷ r.0, r.1)
run b (fetch_all ∷ ops) = do r ← run (read_all b).1 ops; some ((read_all b).0 ∷ r.0, r.1)

-- The same on a list of bytes.
pub queue_run : List ℕ → List Op → List (List ℕ) × List ℕ
queue_run q [] = ([], q)
queue_run q (push xs ∷ ops) = queue_run (q ++ xs) ops
queue_run q (skip n ∷ ops) = queue_run (drop n q) ops
queue_run q (fetch n ∷ ops) = let r = queue_run (drop n q) ops in (take n q ∷ r.0, r.1)
queue_run q (fetch_all ∷ ops) = let r = queue_run [] ops in (q ∷ r.0, r.1)

-- The bytes that a sequence of calls pushes.
abbrev pub pushed : List Op → ℕ
pushed [] = 0
pushed (push xs ∷ ops) = length xs + pushed ops
pushed (skip n ∷ ops) = pushed ops
pushed (fetch n ∷ ops) = pushed ops
pushed (fetch_all ∷ ops) = pushed ops

-- What a sequence of calls ends in.
pub record ActsAsQueue (b : MessageBuffer) (ops : List Op) (q : List ℕ) (outs : List (List ℕ))
    (c : MessageBuffer) : Type 0 where
  pub returns : run b ops ≡ some (outs, c)
  pub valid : IsValid c
  pub answers : outs ≡ (queue_run q ops).0
  pub left : contents c ≡ (queue_run q ops).1

-- All bytes that the buffer can come to hold fit into half a vector.
abbrev Fits : MessageBuffer → List Op → Type 0
Fits b ops = (length b.buffer < 2 ^ 60) × (readable_bytes b + pushed ops < 2 ^ 58)

Left-Fits :
    {b c : MessageBuffer} {q : List ℕ} (ops : List Op)
    → Left b q c
    → length q ≤ length (contents b)
    → (length b.buffer < 2 ^ 60) × (readable_bytes b + pushed ops < 2 ^ 58)
    → Fits c ops
Left-Fits {b} {c} ops l h f =
    omega (
      arith,
      l.size_eq,
      length-contents b,
      length-contents c,
      ap (λ (r : List ℕ). length r) l.bytes,
    )

run_refines_from :
    (ops : List Op) (b : MessageBuffer) (q : List ℕ)
    → IsValid b
    → contents b ≡ q
    → Fits b ops
    → (outs : List (List ℕ)) × (c : MessageBuffer) × ActsAsQueue b ops q outs c
unfolding run queue_run
run_refines_from [] b q v e f =
    ([], b, record { returns = refl; valid = v; answers = refl; left = e })
run_refines_from (push xs ∷ ops) b q v e f =
    let (d, r, p) = push_back_lem xs v (omega arith) in
    let (outs, c, s) =
      run_refines_from ops d (q ++ xs) p.valid (p.bytes ∙ ap (λ l. l ++ xs) e)
        (omega (arith, p.size_le, grew p)) in
    (
      outs,
      c,
      record {
        returns = rw (r, ◌>>=◌) s.returns;
        valid = s.valid;
        answers = s.answers;
        left = s.left;
      },
    )
  where
    grew : {d : MessageBuffer} → Appended b xs d → readable_bytes d ≡ readable_bytes b + length xs
    grew {d} p = omega (
      arith,
      length-contents d,
      ap (λ (l : List ℕ). length l) p.bytes,
      length-append (contents b) xs,
      length-contents b,
    )
run_refines_from (skip n ∷ ops) b q v e f =
    let l = retrieve-Left n v in
    let (outs, c, s) =
      run_refines_from ops (retrieve n b) (drop n q) l.valid (l.bytes ∙ ap (drop n) e)
        (Left-Fits ops l (omega (arith, length-drop n (contents b))) f) in
    (outs, c, record { returns = s.returns; valid = s.valid; answers = s.answers; left = s.left })
run_refines_from (fetch n ∷ ops) b q v e f =
    let r = read_lem n v in
    let (outs, c, s) =
      run_refines_from ops (read n b).1 (drop n q) r.1.valid (r.1.bytes ∙ ap (drop n) e)
        (Left-Fits ops r.1 (omega (arith, length-drop n (contents b))) f) in
    (
      (read n b).0 ∷ outs,
      c,
      record {
        returns = rw (s.returns, ◌>>=◌);
        valid = s.valid;
        answers = ap₂ ◌∷◌ (r.0 ∙ ap (take n) e) s.answers;
        left = s.left;
      },
    )
run_refines_from (fetch_all ∷ ops) b q v e f =
    let r = read_all_lem v in
    let (outs, c, s) =
      run_refines_from ops (read_all b).1 [] r.1.valid r.1.bytes
        (Left-Fits ops r.1 (omega arith) f) in
    (
      (read_all b).0 ∷ outs,
      c,
      record {
        returns = rw (s.returns, ◌>>=◌);
        valid = s.valid;
        answers = ap₂ ◌∷◌ (r.0 ∙ e) s.answers;
        left = s.left;
      },
    )

-- From a valid buffer whose vector stays below 2^60 bytes and which comes to hold fewer than 2^58
-- bytes, every sequence of `pushBack`, `retrieve`, `read` and `readAll` returns, keeps the
-- invariant, and gives the strings and leaves the bytes that the queue of its readable bytes does.
pub run_refines :
    (ops : List Op) (b : MessageBuffer)
    → IsValid b
    → length b.buffer < 2 ^ 60
    → readable_bytes b + pushed ops < 2 ^ 58
    → (outs : List (List ℕ)) × (c : MessageBuffer) × ActsAsQueue b ops (contents b) outs c
run_refines ops b v small held = run_refines_from ops b (contents b) v refl (small, held)
