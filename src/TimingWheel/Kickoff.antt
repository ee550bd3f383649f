-- ===== src/TimingWheel/Kickoff.antt =====
-- The idle timeout of a connection (netpoll/net/inner/tcp_connection_impl.h and .cc): its
-- `KickoffEntry` in a timing wheel, which closes the connection when it is destroyed.
use netpoll_cpp.Base.{
  Bool, List, Option, [], false, if◌then◌else◌, leb, ltb, none, some, true, ℕ, ◌&&◌, ◌+◌, ◌>>=◌,
  ◌||◌, ◌∷◌,
}
use netpoll_cpp.TimingWheel.{Entry, TimingWheel, insert_entry, task}
use netpoll_cpp.TimingWheel.Idle.{Operation, run}
use netpoll_cpp.TimingWheel.Single.{has}

-- The wheel, and of a connection `m_idleTimeout`, `m_lastTimingWheelUpdateTime` in microseconds, the
-- pointer that `m_kickoffEntry` refers to, and whether that entry still refers to the connection.
pub record Kickoff : Type 0 where
  pub wheel : TimingWheel
  pub idle_timeout : ℕ
  pub last_update : ℕ
  pub kickoff_entry : Option ℕ
  pub closes : Bool

-- What the constructor leaves, by the initializers.
unfoldable pub new_kickoff : TimingWheel → Kickoff
new_kickoff w = record {
  wheel = w;
  idle_timeout = 0;
  last_update = 0;
  kickoff_entry = none;
  closes = false;
}

unfoldable pub enable_kicking_off : (timeout entry : ℕ) → Kickoff → Kickoff
enable_kicking_off timeout entry k = record k {
  kickoff_entry = some entry;
  closes = true;
  wheel = insert_entry timeout (task entry) k.wheel;
}

-- Whether a bucket of a queue keeps the pointer alive.
abbrev pub in_queue : ℕ → List (List Entry) → Bool
in_queue x [] = false
in_queue x (b ∷ bs) = has x b || in_queue x bs

abbrev pub in_queues : ℕ → List (List (List Entry)) → Bool
in_queues x [] = false
in_queues x (q ∷ qs) = in_queue x q || in_queues x qs

-- `m_kickoffEntry.lock()`.
abbrev pub lock : Kickoff → Option ℕ
lock k = do x ← k.kickoff_entry; if in_queues x k.wheel.queues then some x else none

unfoldable pub extend_life : ℕ → Kickoff → Kickoff
extend_life now k =
    if ltb 0 k.idle_timeout && leb (k.last_update + 1000000) now
    then elim (lock k) [
      | none ↦ record k { last_update = now }
      | some x ↦ record k {
        last_update = now;
        wheel = insert_entry k.idle_timeout (task x) k.wheel;
      }
    ]
    else k

unfoldable pub keep_alive : Kickoff → Kickoff
keep_alive k = record k {
  idle_timeout = 0;
  closes = elim (lock k) [ none ↦ k.closes | some x ↦ false ];
}

-- What happens to the connection, and to the wheel by its timer and the other connections.
pub data Event : Type 0 where
  active : (now : ℕ) → Event
  by_wheel : Operation → Event

unfoldable pub run_events : List Event → Kickoff → Kickoff
run_events [] k = k
run_events (active now ∷ es) k = run_events es (extend_life now k)
run_events (by_wheel o ∷ es) k = run_events es (record k { wheel = run (o ∷ []) k.wheel })

-- Those of the wheel.
unfoldable pub operations : List Event → List Operation
operations [] = []
operations (active now ∷ es) = operations es
operations (by_wheel o ∷ es) = o ∷ operations es
