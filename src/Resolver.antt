-- ===== src/Resolver.antt =====
-- Resolver (netpoll/net/inner/resolver_impl.cc): the cache that all resolvers share and the queue of
-- lookups, run by one worker. Names and addresses are only compared, so that numbers stand for
-- them. What `getaddrinfo` answers is an argument of each lookup, and the time in microseconds that
-- `Timestamp::now` gives one of each call. What a callback does is not modelled.
pub mod Answers
pub mod Counting
mod Tests
use netpoll_cpp.Base.{
  Bool, List, Option, [], false, if◌then◌else◌, ltb, none, set_at, some, true, ℕ, ◌*◌, ◌++◌, ◌+◌,
  ◌==◌, ◌||◌, ◌∷◌,
}

-- What `getaddrinfo` found: an address of one of the two families, another, or nothing.
pub data AddrInfo : Type 0 where
  found4 found6 : (addr : ℕ) → AddrInfo
  unknown failed : AddrInfo

-- An address, or a default one: `InetAddress{}`.
pub data Resolved : Type 0 where
  address : ℕ → Resolved
  default : Resolved

-- A callback that was called: which one, for which name, with what, whether with `globalMutex` held,
-- and the timeout of its resolver and the time.
pub record CallbackRun : Type 0 where
  pub cb : ℕ
  pub host : ℕ
  pub inet : Resolved
  pub locked : Bool
  pub time_limit : ℕ
  pub called_at : ℕ

-- A lookup that waits in `concurrentTaskQueue`.
pub record Lookup : Type 0 where
  pub timeout : ℕ
  pub name : ℕ
  pub on_done : ℕ

-- A call of `getaddrinfo`, its answer, and when it had come.
pub record LookupRun : Type 0 where
  pub looked_up : ℕ
  pub answer : AddrInfo
  pub done_at : ℕ

-- `globalCache`, the queue, and the callbacks called and the lookups made, the latest first.
pub record Resolver : Type 0 where
  pub cache : ℕ → Option (Resolved × ℕ)
  pub queue : List Lookup
  pub calls : List CallbackRun
  pub lookups : List LookupRun

unfoldable pub new_resolver : Resolver
new_resolver = record { cache = λ n. none; queue = []; calls = []; lookups = [] }

-- Whether an entry of the cache may still be used.
unfoldable pub is_fresh : (timeout stored_at time : ℕ) → Bool
is_fresh timeout stored_at time = (timeout == 0) || ltb time (stored_at + timeout * 1000000)

-- The entry for a name, when it is there and fresh.
unfoldable pub usable : (timeout time : ℕ) → Option (Resolved × ℕ) → Option Resolved
unfolding is_fresh
usable timeout time none = none
usable timeout time (some (a, stored_at)) = if is_fresh timeout stored_at time then some a else none

unfoldable pub call_back : CallbackRun → Resolver → Resolver
call_back c r = record r { calls = c ∷ r.calls }

-- `resolve`: what the cache holds is given at once, under the mutex, and else a lookup is queued. `name`
-- is the view of the host name, and `key` the string at its `data()`, which goes on to the next
-- zero: the cache is searched for that.
unfoldable pub resolve : (timeout time key name cb : ℕ) → Resolver → Resolver
unfolding usable call_back
resolve timeout time key name cb r = elim (usable timeout time (r.cache key)) [
  | some a ↦
      call_back
        (record {
          cb = cb;
          host = name;
          inet = a;
          locked = true;
          time_limit = timeout;
          called_at = time;
        })
        r
  | none ↦ record r {
    queue = r.queue ++ (record { timeout = timeout; name = name; on_done = cb } ∷ []);
  }
]

-- The address that is passed on; with a family that is neither it stays the default one.
unfoldable pub address_of : AddrInfo → Resolved
address_of (found4 a) = address a
address_of (found6 a) = address a
address_of unknown = default
address_of failed = default

-- The callback of a lookup, without the mutex.
abbrev pub lookup_run : Resolved → (done_at : ℕ) → Lookup → CallbackRun
lookup_run a done_at l = record {
  cb = l.on_done;
  host = l.name;
  inet = a;
  locked = false;
  time_limit = l.timeout;
  called_at = done_at;
}

-- What follows `getaddrinfo`: only a failure leaves the cache as it is.
unfoldable pub answer_lookup : AddrInfo → (done_at : ℕ) → Lookup → Resolver → Resolver
unfolding address_of call_back
answer_lookup failed done_at l r = call_back (lookup_run default done_at l) r
answer_lookup f done_at l r =
    let called = call_back (lookup_run (address_of f) done_at l) r in
    record called { cache = set_at l.name (some (address_of f, done_at)) called.cache }

-- The task that `resolve` queues. `done_at` is the time after the lookup, and `f` its answer.
unfoldable pub run_lookup : (time done_at : ℕ) → AddrInfo → Lookup → Resolver → Resolver
unfolding usable call_back answer_lookup
run_lookup time done_at f l r = elim (usable l.timeout time (r.cache l.name)) [
  | some a ↦
      call_back
        (record {
          cb = l.on_done;
          host = l.name;
          inet = a;
          locked = true;
          time_limit = l.timeout;
          called_at = time;
        })
        r
  | none ↦ answer_lookup f done_at l (record r {
    lookups = record { looked_up = l.name; answer = f; done_at = done_at } ∷ r.lookups;
  })
]

-- The worker of the queue takes the first lookup.
unfoldable pub run_first : (time done_at : ℕ) → AddrInfo → List Lookup → Resolver → Resolver
unfolding run_lookup
run_first time done_at f [] r = r
run_first time done_at f (l ∷ ls) r = run_lookup time done_at f l (record r { queue = ls })

-- What the program's threads and the worker do, in any order.
pub data Event : Type 0 where
  resolves : (timeout time key name cb : ℕ) → Event
  works : (time done_at : ℕ) → AddrInfo → Event

unfoldable pub run_event : Event → Resolver → Resolver
unfolding resolve run_first
run_event (resolves timeout time key name cb) r = resolve timeout time key name cb r
run_event (works time done_at f) r = run_first time done_at f r.queue r

unfoldable pub run_events : List Event → Resolver → Resolver
unfolding run_event
run_events [] r = r
run_events (e ∷ es) r = run_events es (run_event e r)
