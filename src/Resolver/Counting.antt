-- ===== src/Resolver/Counting.antt =====
-- What is counted of the callbacks, and what holds of the cache and the calls.

use netpoll_cpp.Base.{
  Bool, Bool-cases, List, Option, [], ap, arith, false, if◌then◌else◌, inl, inr, length, none, refl,
  some, true, ℕ, ◌*◌, ◌++◌, ◌+◌, ◌<◌, ◌==◌, ◌∷◌, ◌≡◌, ◌⊎◌,
}
use netpoll_cpp.Resolver.{
  AddrInfo, CallbackRun, Event, Lookup, LookupRun, Resolved, Resolver, address_of, failed, found4,
  found6, is_fresh, resolves, unknown, usable, works,
}

abbrev pub is_failed : AddrInfo → Bool
is_failed (found4 a) = false
is_failed (found6 a) = false
is_failed unknown = false
is_failed failed = true

-- What the latest lookup of a name gave that did not fail, and when.
abbrev pub latest : ℕ → List LookupRun → Option (Resolved × ℕ)
latest n [] = none
latest n (g ∷ gs) =
    let rest = latest n gs in
    if is_failed g.answer
    then rest
    else (if g.looked_up == n then some (address_of g.answer, g.done_at) else rest)

abbrev pub Listed : LookupRun → List LookupRun → Type 0
Listed g [] = ⊥
Listed g (x ∷ xs) = (g ≡ x) ⊎ Listed g xs

-- A callback got what a lookup of its name had given: the lookup that was made for it, or one that
-- did not fail, less than the resolver's timeout before, if there is one.
pub record IsRight (gs : List LookupRun) (c : CallbackRun) : Type 0 where
  pub by_lookup : LookupRun
  pub was_made : Listed by_lookup gs
  pub same_name : by_lookup.looked_up ≡ c.host
  pub inet_eq : c.inet ≡ address_of by_lookup.answer
  pub at_once : c.locked ≡ false → by_lookup.done_at ≡ c.called_at
  pub cached :
      c.locked ≡ true
      → ((c.time_limit ≡ 0) ⊎ (c.called_at < by_lookup.done_at + c.time_limit * 1000000))
        × (is_failed by_lookup.answer ≡ false)

abbrev pub AllRight : List LookupRun → List CallbackRun → Type 0
AllRight gs [] = Unit {0}
AllRight gs (c ∷ cs) = IsRight gs c × AllRight gs cs

pub AllRight-more :
    (g : LookupRun) (gs : List LookupRun) (cs : List CallbackRun)
    → AllRight gs cs
    → AllRight (g ∷ gs) cs
AllRight-more g gs [] h = tt
AllRight-more g gs (c ∷ cs) (h, hs) = (
  record {
    by_lookup = h.by_lookup;
    was_made = inr h.was_made;
    same_name = h.same_name;
    inet_eq = h.inet_eq;
    at_once = h.at_once;
    cached = h.cached;
  },
  AllRight-more g gs cs hs,
)

-- The views of host names end where their strings do.
abbrev pub AllWhole : List Event → Type 0
AllWhole [] = Unit {0}
AllWhole (resolves timeout time key name cb ∷ es) = (key ≡ name) × AllWhole es
AllWhole (works time done_at f ∷ es) = AllWhole es

-- How often a callback was called, is to be called by a lookup, and was passed to `resolve`.
abbrev pub called : ℕ → List CallbackRun → ℕ
called cb [] = 0
called cb (c ∷ cs) = (if cb == c.cb then 1 else 0) + called cb cs

abbrev pub to_call : ℕ → List Lookup → ℕ
to_call cb [] = 0
to_call cb (l ∷ ls) = (if cb == l.on_done then 1 else 0) + to_call cb ls

abbrev pub passed : ℕ → List Event → ℕ
passed cb [] = 0
passed cb (resolves timeout time key name k ∷ es) = (if cb == k then 1 else 0) + passed cb es
passed cb (works time done_at f ∷ es) = passed cb es

-- How many callbacks were called without the mutex.
abbrev pub unlocked : List CallbackRun → ℕ
unlocked [] = 0
unlocked (c ∷ cs) = (if c.locked then 0 else 1) + unlocked cs

pub to_call-append_one :
    (cb : ℕ) (ls : List Lookup) (l : Lookup)
    → to_call cb (ls ++ (l ∷ [])) ≡ to_call cb ls + (if cb == l.on_done then 1 else 0)
to_call-append_one cb [] l = omega arith
to_call-append_one cb (x ∷ ls) l = omega (arith, to_call-append_one cb ls l)

pub record IsAnswered (pending : ℕ → ℕ) (r : Resolver) : Type 0 where
  pub kept : (name : ℕ) → r.cache name ≡ latest name r.lookups
  pub right : AllRight r.lookups r.calls
  pub once : (cb : ℕ) → called cb r.calls + to_call cb r.queue ≡ pending cb
  pub looked_up : unlocked r.calls ≡ length r.lookups

-- An entry that is used is fresh.
pub usable_eq :
    (timeout time : ℕ) (o : Option (Resolved × ℕ)) (a : Resolved)
    → usable timeout time o ≡ some a
    → (t : ℕ) × (o ≡ some (a, t)) × (is_fresh timeout t time ≡ true)
unfolding usable
usable_eq timeout time none a h = cc
usable_eq timeout time (some (b, t)) a h =
    let (e, f) = chosen (is_fresh timeout t time) h in (t, ap (λ x. some (x, t)) e, f)
  where
    chosen : (x : Bool) → (if x then some b else none) ≡ some a → (b ≡ a) × (x ≡ true)
    chosen true e = (cc, refl)
    chosen false e = cc

pub fresh_until :
    (timeout stored_at time : ℕ)
    → is_fresh timeout stored_at time ≡ true
    → (timeout ≡ 0) ⊎ (time < stored_at + timeout * 1000000)
unfolding is_fresh
fresh_until timeout stored_at time h = elim (Bool-cases (timeout == 0)) [
  | inl no_timeout ↦ inl (ground (arith, no_timeout))
  | inr some_timeout ↦ inr (ground (arith, h, some_timeout))
]

-- The lookup that the latest answer is from.
pub record IsFrom (n : ℕ) (a : Resolved) (t : ℕ) (gs : List LookupRun) : Type 0 where
  pub source : LookupRun
  pub listed : Listed source gs
  pub of_name : source.looked_up ≡ n
  pub gave : a ≡ address_of source.answer
  pub good : is_failed source.answer ≡ false
  pub at_time : source.done_at ≡ t

older-IsFrom :
    (n : ℕ) (a : Resolved) (t : ℕ) (g : LookupRun) (gs : List LookupRun)
    → IsFrom n a t gs
    → IsFrom n a t (g ∷ gs)
older-IsFrom n a t g gs f = record {
  source = f.source;
  listed = inr f.listed;
  of_name = f.of_name;
  gave = f.gave;
  good = f.good;
  at_time = f.at_time;
}

pub latest-IsFrom :
    (n : ℕ) (a : Resolved) (t : ℕ) (gs : List LookupRun)
    → latest n gs ≡ some (a, t)
    → IsFrom n a t gs
latest-IsFrom n a t [] h = cc
latest-IsFrom n a t (g ∷ gs) h =
    let older = latest-IsFrom n a t gs in
    elim (Bool-cases (is_failed g.answer)) [
      | inl bad ↦ older-IsFrom n a t g gs (older (rw bad at h))
      | inr fine ↦ elim (Bool-cases (g.looked_up == n)) [
        | inl same ↦
            let e : some (address_of g.answer, g.done_at) ≡ some (a, t) = rw (fine, same) at h in
            record {
              source = g;
              listed = inl refl;
              of_name = ground (arith, same);
              gave = cc;
              good = fine;
              at_time = cc;
            }
        | inr other ↦ older-IsFrom n a t g gs (older (rw (fine, other) at h))
      ]
    ]
