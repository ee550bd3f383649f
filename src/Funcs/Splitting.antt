-- ===== src/Funcs/Splitting.antt =====
-- The parts that `splitString` gives, and the string that they are parts of.
use netpoll_cpp.Base.{
  Bool, List, Option-cases, [], ap, arith, drop, drop_all, false, inl, inr, length, length-drop,
  length-take, ltb, none, refl, some, suc, sym, take, true, zero, ℕ, ◌++◌, ◌+◌, ◌-◌, ◌<◌, ◌||◌, ◌∙◌,
  ◌∷◌, ◌≡◌, ◌≤◌,
}
use netpoll_cpp.Funcs.{find, find_from, put_if, split_loop, split_string}
use netpoll_cpp.Funcs.Finding.{find-take, find_eq, find_within}

-- The parts with the delimiter between them.
pub join_from : List ℕ → List ℕ → List (List ℕ) → List ℕ
join_from d x [] = x
join_from d x (y ∷ v) = x ++ (d ++ join_from d y v)

pub join : List ℕ → List (List ℕ) → List ℕ
unfolding join_from
join d [] = []
join d (x ∷ v) = join_from d x v

pub without_empty : List (List ℕ) → List (List ℕ)
without_empty [] = []
without_empty (x ∷ v) = put_if (ltb 0 (length x)) x (without_empty v)

-- No part has the delimiter in it.
abbrev pub AllFree : List ℕ → List (List ℕ) → Type 0
AllFree d [] = Unit {0}
AllFree d (x ∷ v) = (find d x ≡ none) × AllFree d v

abbrev IsCons : List (List ℕ) → Type 0
IsCons [] = ⊥
IsCons (x ∷ v) = Unit {0}

-- What a run of the loop from `last` on gives.
record IsSplit (n : ℕ) (d s : List ℕ) (last : ℕ) (v : List (List ℕ)) : Type 0 where
  with_empty : split_loop n d s true last ≡ some v
  without : split_loop n d s false last ≡ some (without_empty v)
  joined : join d v ≡ drop last s
  free : AllFree d v
  some_part : IsCons v

join-cons : (d p : List ℕ) (v : List (List ℕ)) → IsCons v → join d (p ∷ v) ≡ p ++ (d ++ join d v)
unfolding join join_from
join-cons d p [] h = absurd h
join-cons d p (x ∷ v) h = refl

or_true : (b : Bool) → (b || true) ≡ true
or_true b = ground arith

drop-drop : (m n : ℕ) (s : List ℕ) → drop n (drop m s) ≡ drop (m + n) s
drop-drop zero n s = let z : 0 + n ≡ n = omega arith in rw z refl
drop-drop (suc m) n [] = drop_all n [] (omega arith) ∙ sym (drop_all (suc m + n) [] (omega arith))
drop-drop (suc m) n (x ∷ s) =
    let z : suc m + n ≡ suc (m + n) = omega arith in rw z (drop-drop m n s)

-- The rest, when it has no delimiter, is the last part.
last-IsSplit :
    (n : ℕ) (d s : List ℕ) (last : ℕ)
    → find d (drop last s) ≡ none
    → IsSplit (suc n) d s last (drop last s ∷ [])
unfolding split_loop find_from join without_empty join_from
last-IsSplit n d s last h = record {
  with_empty =
      at_end true ∙ ap (λ b. some (put_if b (drop last s) [])) (or_true (ltb last (length s)));
  without = at_end false ∙ ap (λ b. some (put_if b (drop last s) [])) keeps;
  joined = refl;
  free = (h, tt);
  some_part = tt;
}
  where
    at_end :
        (e : Bool)
        → split_loop (suc n) d s e last ≡ some (put_if (ltb last (length s) || e) (drop last s) [])
    at_end e = rw (h, split_loop, find_from) refl

    keeps : (ltb last (length s) || false) ≡ ltb 0 (length (drop last s))
    keeps = ground (arith, length-drop last s)

-- A part, and what the loop gives behind the delimiter.
next-IsSplit :
    (n c : ℕ) (d s : List ℕ) (last k : ℕ) (v : List (List ℕ))
    → find (c ∷ d) (drop last s) ≡ some k
    → IsSplit n (c ∷ d) s ((k + last) + length (c ∷ d)) v
    → IsSplit (suc n) (c ∷ d) s last (take k (drop last s) ∷ v)
unfolding split_loop find_from without_empty
next-IsSplit n c d s last k v h r = record {
  with_empty =
      at_next true v r.with_empty
      ∙ ap (λ b. some (put_if b part v)) (or_true (ltb last (k + last)));
  without =
      at_next false (without_empty v) r.without
      ∙ ap (λ b. some (put_if b part (without_empty v))) keeps;
  joined =
      join-cons (c ∷ d) part v r.some_part
      ∙ ap (λ l. part ++ ((c ∷ d) ++ l)) (r.joined ∙ behind)
      ∙ sym (find_eq c d (drop last s) k h);
  free = (find-take c d (drop last s) k h, r.free);
  some_part = tt;
}
  where
    part : List ℕ
    part = take k (drop last s)

    at_next :
        (e : Bool) (w : List (List ℕ))
        → split_loop n (c ∷ d) s e ((k + last) + length (c ∷ d)) ≡ some w
        → split_loop (suc n) (c ∷ d) s e last
          ≡ some (put_if (ltb last (k + last) || e) (take k (drop last s)) w)
    at_next e w g =
        let z : (k + last) - last ≡ k = omega arith in
        rw (h, split_loop, find_from) (rw g (rw z refl))

    keeps : (ltb last (k + last) || false) ≡ ltb 0 (length (take k (drop last s)))
    keeps = ground (arith, length-take k (drop last s), find_within c d (drop last s) k h)

    behind : drop ((k + last) + length (c ∷ d)) s ≡ drop (k + length (c ∷ d)) (drop last s)
    behind =
        let z : (k + last) + length (c ∷ d) ≡ last + (k + length (c ∷ d)) = omega arith in
        rw z (sym (drop-drop last (k + length (c ∷ d)) s))

split_loop_lem :
    (n c : ℕ) (d s : List ℕ) (last : ℕ)
    → last ≤ length s
    → length s < last + n
    → (v : List (List ℕ)) × IsSplit n (c ∷ d) s last v
split_loop_lem zero c d s last within fuel = absurd (omega (arith, within, fuel))
split_loop_lem (suc n) c d s last within fuel = elim (Option-cases (find (c ∷ d) (drop last s))) [
  | inl nothing ↦ (drop last s ∷ [], last-IsSplit n (c ∷ d) s last nothing)
  | inr (k, found) ↦
      let found_within = find_within c d (drop last s) k found in
      let next = (k + last) + length (c ∷ d) in
      let r =
        split_loop_lem n c d s next (omega (arith, found_within, length-drop last s, within))
          (omega (arith, fuel)) in
      (take k (drop last s) ∷ r.0, next-IsSplit n c d s last k r.0 found r.1)
]

-- With a delimiter that is not empty the loop ends. The parts with the empty ones, put together with
-- the delimiter between them, are the string, none has the delimiter in it, and without
-- `acceptEmptyString` the same parts are given, less those that are empty.
pub split_string_lem :
    (s : List ℕ) (c : ℕ) (d : List ℕ)
    → (v : List (List ℕ)) × (split_string s (c ∷ d) true ≡ some v)
      × (split_string s (c ∷ d) false ≡ some (without_empty v))
      × (join (c ∷ d) v ≡ s)
      × AllFree (c ∷ d) v
unfolding split_string
split_string_lem s c d =
    let (v, r) = split_loop_lem (suc (length s)) c d s 0 (omega arith) (omega arith) in
    (v, r.with_empty, r.without, r.joined, r.free)
