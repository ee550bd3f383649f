-- ===== src/Buffer/Scan.antt =====
-- `findCRLF` and `retrieveUntil`: the first line end among the readable bytes.
use mathlib.Core.Path.{ap₂}
use netpoll_cpp.Base.{
  Bool-cases, List, Option, [], ap, arith, drop, get_or, if◌then◌else◌, inl, inr, none, some,
  sub_size, suc, sym, zero, ℕ, ◌&&◌, ◌++◌, ◌+◌, ◌-◌, ◌==◌, ◌∙◌, ◌∷◌, ◌≡◌, ◌≤◌, ◌⊎◌,
}
use netpoll_cpp.Buffer.{MessageBuffer, contents, readable_bytes, retrieve}
use netpoll_cpp.Buffer.Bounds.{IsValid, readable_lem}
use netpoll_cpp.Buffer.Storage.{drop-slice, slice, slice-add}
use netpoll_cpp.Buffer.Take.{Left, retrieve-Left}

-- `std::search` for CR LF in the `n` bytes from index `i` on.
search_crlf : List ℕ → ℕ → ℕ → Option ℕ
search_crlf buf i zero = none
search_crlf buf i (suc zero) = none
search_crlf buf i (suc (suc n)) =
    if get_or buf i 0 == 13 && get_or buf (suc i) 0 == 10
    then some i
    else search_crlf buf (suc i) (suc n)

-- The position that `findCRLF` returns, as an index into the vector; `none` for the null pointer.
unfoldable pub find_crlf : MessageBuffer → Option ℕ
unfolding search_crlf
find_crlf b = search_crlf b.buffer b.head (readable_bytes b)

unfoldable pub retrieve_until : ℕ → MessageBuffer → MessageBuffer
unfolding retrieve
retrieve_until end b = retrieve (sub_size end b.head) b

-- CR LF stands somewhere in a list of bytes.
abbrev pub HasCrlf : List ℕ → Type 0
HasCrlf [] = ⊥
HasCrlf (x ∷ []) = ⊥
HasCrlf (x ∷ y ∷ r) = ((x ≡ 13) × (y ≡ 10)) ⊎ HasCrlf (y ∷ r)

search_crlf-none : (buf : List ℕ) (i n : ℕ) → search_crlf buf i n ≡ none → ¬ HasCrlf (slice buf i n)
unfolding search_crlf
search_crlf-none buf i zero e = λ h. h
search_crlf-none buf i (suc zero) e = λ h. h
search_crlf-none buf i (suc (suc n)) e =
    elim (Bool-cases (get_or buf i 0 == 13 && get_or buf (suc i) 0 == 10)) [
      | inl hit ↦ cc (rw hit at e)
      | inr miss ↦ elim [
        | inl p ↦ ground arith
        | inr later ↦ search_crlf-none buf (suc i) (suc n) (rw miss at e) later
      ]
    ]

-- What a search that ends at index `p` has found: `skipped` bytes before it, with no line end.
pub record Found (buf : List ℕ) (i n p : ℕ) : Type 0 where
  pub skipped : ℕ
  pub at : p ≡ i + skipped
  pub before_end : skipped + 2 ≤ n
  pub cr : get_or buf p 0 ≡ 13
  pub lf : get_or buf (suc p) 0 ≡ 10
  pub first : ¬ HasCrlf (slice buf i (suc skipped))

search_crlf-Found : (buf : List ℕ) (i n p : ℕ) → search_crlf buf i n ≡ some p → Found buf i n p
unfolding search_crlf
search_crlf-Found buf i zero p e = cc
search_crlf-Found buf i (suc zero) p e = cc
search_crlf-Found buf i (suc (suc n)) p e =
    elim (Bool-cases (get_or buf i 0 == 13 && get_or buf (suc i) 0 == 10)) [
      | inl hit ↦ record {
        skipped = 0;
        at = ground arith;
        before_end = omega arith;
        cr = ground arith;
        lf = ground arith;
        first = λ h. h;
      }
      | inr miss ↦
          let r = search_crlf-Found buf (suc i) (suc n) p (rw miss at e) in
          record {
            skipped = suc r.skipped;
            at = omega (arith, r.at);
            before_end = omega (arith, r.before_end);
            cr = r.cr;
            lf = r.lf;
            first = elim [ inl both ↦ ground arith | inr later ↦ r.first later ];
          }
    ]

module _ {buf : List ℕ} {i n p : ℕ} (f : Found buf i n p) where
  Found-split :
      slice buf i n ≡ slice buf i f.skipped ++ (13 ∷ 10 ∷ slice buf (p + 2) (n - (f.skipped + 2)))
  Found-split =
      ap (slice buf i) count
      ∙ slice-add buf i f.skipped (suc (suc (n - (f.skipped + 2))))
      ∙ ap (λ r. slice buf i f.skipped ++ r)
          (ap (λ k. slice buf k (suc (suc (n - (f.skipped + 2))))) (sym f.at)
            ∙ ap₂ ◌∷◌ f.cr
                (ap₂ ◌∷◌ f.lf (ap (λ k. slice buf k (n - (f.skipped + 2))) (omega arith))))
    where
      count : n ≡ f.skipped + suc (suc (n - (f.skipped + 2)))
      count = omega (arith, f.before_end)

  Found-line : slice buf i (suc f.skipped) ≡ slice buf i f.skipped ++ (13 ∷ [])
  Found-line =
      ap (slice buf i) {x = suc f.skipped} {y = f.skipped + 1} (omega arith)
      ∙ slice-add buf i f.skipped 1
      ∙ ap (λ x. slice buf i f.skipped ++ (x ∷ [])) (ap (λ k. get_or buf k 0) (sym f.at) ∙ f.cr)

-- `findCRLF` gives the null pointer only if no line end is readable.
pub find_crlf-none : (b : MessageBuffer) → find_crlf b ≡ none → ¬ HasCrlf (contents b)
unfolding find_crlf
find_crlf-none b e = search_crlf-none b.buffer b.head (readable_bytes b) e

-- Where `findCRLF` returns a position, what is readable is a line with no line end in it, CR LF and
-- a rest, and `retrieveUntil` behind the CR LF leaves exactly the rest.
pub find_crlf-some :
    {b : MessageBuffer} (p : ℕ)
    → IsValid b
    → find_crlf b ≡ some p
    → (line rest : List ℕ) × (contents b ≡ line ++ (13 ∷ 10 ∷ rest))
      × (¬ HasCrlf (line ++ (13 ∷ [])))
      × Left b rest (retrieve_until (p + 2) b)
unfolding find_crlf retrieve_until
find_crlf-some {b} p v e = (
  slice b.buffer b.head f.skipped,
  slice b.buffer (p + 2) (readable_bytes b - (f.skipped + 2)),
  Found-split f,
  (λ h. f.first (rw (Found-line f) h)),
  rw rest at (retrieve-Left (sub_size (p + 2) b.head) v),
)
  where
    f : Found b.buffer b.head (readable_bytes b) p
    f = search_crlf-Found b.buffer b.head (readable_bytes b) p e

    count : sub_size (p + 2) b.head ≡ f.skipped + 2
    count = omega (arith, f.at, f.before_end, readable_lem v)

    rest :
        drop (sub_size (p + 2) b.head) (contents b)
        ≡ slice b.buffer (p + 2) (readable_bytes b - (f.skipped + 2))
    rest =
        ap (λ k. drop k (contents b)) count
        ∙ drop-slice b.buffer b.head (readable_bytes b) (f.skipped + 2) f.before_end
        ∙ ap (λ k. slice b.buffer k (readable_bytes b - (f.skipped + 2))) (omega (arith, f.at))
