-- ===== src/TcpServer.antt =====
-- TcpServer (netpoll/net/tcp_server.cc) with its pool of loops (netpoll/net/eventloop_threadpool.cc):
-- the set of connections, and the tasks about them that are queued in the loops. Loops and connections
-- are named by numbers.
pub mod Pool
pub mod Closing
pub mod Destroying
pub mod Wheels
pub mod Stopping
mod Tests
use netpoll_cpp.Base.{
  Bool, List, Option, [], false, get_elem?, if◌then◌else◌, leb, length, ltb, none, set_at, some,
  suc, true, ℕ, ◌++◌, ◌==◌, ◌||◌, ◌∷◌, ◌≡◌,
}

-- `m_loopThreadList`, by the loop of each thread, and `m_loopIndex`.
pub record EventLoopThreadPool : Type 0 where
  pub loops : List ℕ
  pub loop_index : ℕ

unfoldable pub new_pool : List ℕ → EventLoopThreadPool
new_pool ls = record { loops = ls; loop_index = 0 }

unfoldable pub get_next_loop : EventLoopThreadPool → Option ℕ × EventLoopThreadPool
get_next_loop p = elim p.loops [
  | [] ↦ (none, p)
  | _ ∷ _ ↦ (
    get_elem? p.loops p.loop_index,
    record p {
      loop_index = if leb (length p.loops) (suc p.loop_index) then 0 else suc p.loop_index;
    },
  )
]

-- `getLoop`, which is a null pointer out of range.
unfoldable pub get_loop : ℕ → EventLoopThreadPool → Option ℕ
get_loop id p = if ltb id (length p.loops) then get_elem? p.loops id else none

abbrev pub contains : ℕ → List ℕ → Bool
contains c [] = false
contains c (d ∷ ds) = c == d || contains c ds

abbrev pub erase : ℕ → List ℕ → List ℕ
erase c [] = []
erase c (d ∷ ds) = let rest = erase c ds in if c == d then rest else d ∷ rest

pub record TcpServer : Type 0 where
  -- `m_loop`, `m_loopPoolPtr` and `m_connSet`.
  pub loop : ℕ
  pub pool : Option EventLoopThreadPool
  pub conn_set : List ℕ
  -- Of each connection made so far, those below `fresh`: its loop, and whether its close callback is
  -- still to be called.
  pub fresh : ℕ
  pub io_loop : ℕ → ℕ
  pub established : ℕ → Bool
  -- The calls of `handleCloseInLoop` queued in `m_loop`, and of `connectDestroyed` in each loop.
  pub closing : List ℕ
  pub destroying : ℕ → List ℕ

abbrev pub new_tcp_server : ℕ → Option EventLoopThreadPool → TcpServer
new_tcp_server l p = record {
  loop = l;
  pool = p;
  conn_set = [];
  fresh = 0;
  io_loop = λ c. l;
  established = λ c. false;
  closing = [];
  destroying = λ l. [];
}

-- `newConnection`, its choice of a loop.
unfoldable pub choose_loop : TcpServer → ℕ × TcpServer
unfolding get_next_loop
choose_loop s = elim s.pool [
  | none ↦ (s.loop, s)
  | some p ↦
      let r = get_next_loop p in
      elim r.0 [ none ↦ (s.loop, s) | some l ↦ (l, record s { pool = some r.1 }) ]
]

-- `newConnection`.
pub new_connection : TcpServer → TcpServer
unfolding choose_loop
new_connection s =
    let r = choose_loop s in
    record s {
      pool = r.1.pool;
      conn_set = s.fresh ∷ s.conn_set;
      fresh = suc s.fresh;
      io_loop = set_at s.fresh r.0 s.io_loop;
      established = set_at s.fresh true s.established;
    }

pub handle_close_in_loop : ℕ → TcpServer → TcpServer
handle_close_in_loop c s = record s {
  conn_set = erase c s.conn_set;
  destroying = set_at (s.io_loop c) (s.destroying (s.io_loop c) ++ (c ∷ [])) s.destroying;
}

-- `connectionClosed`, which a connection calls in its own loop.
pub connection_closed : ℕ → TcpServer → TcpServer
unfolding handle_close_in_loop
connection_closed c s =
    if s.io_loop c == s.loop
    then handle_close_in_loop c s
    else record s { closing = s.closing ++ (c ∷ []) }

-- `connectionClosed` runs whenever a connection calls its close callback, without a test of its own;
-- each loop runs the tasks queued in it in their order.
pub data Step (s : TcpServer) : TcpServer → Type 0 where
  accepts : Step s (new_connection s)
  closes :
      (c : ℕ)
      → Step s (connection_closed c (record s { established = set_at c false s.established }))
  runs_close :
      (c : ℕ) (rest : List ℕ)
      → s.closing ≡ c ∷ rest
      → Step s (handle_close_in_loop c (record s { closing = rest }))
  runs_destroy :
      (l c : ℕ) (rest : List ℕ)
      → s.destroying l ≡ c ∷ rest
      → Step s (record s { destroying = set_at l rest s.destroying })

pub data Reach (l : ℕ) (p : Option EventLoopThreadPool) : TcpServer → Type 0 where
  start : Reach l p (new_tcp_server l p)
  later : {s t : TcpServer} → Reach l p s → Step s t → Reach l p t

-- Each connection calls its close callback once, and none that was not made does. The server does not
-- test this.
abbrev pub Once : {s t : TcpServer} → Step s t → Type 0
Once accepts = Unit {0}
Once {s = s} (closes c) = s.established c ≡ true
Once (runs_close c rest e) = Unit {0}
Once (runs_destroy l c rest e) = Unit {0}

abbrev pub AllOnce : {l : ℕ} {p : Option EventLoopThreadPool} {s : TcpServer} → Reach l p s → Type 0
AllOnce start = Unit {0}
AllOnce (later r t) = Once t × AllOnce r
