-- ===== src/TcpServer/Closing.antt =====
-- The set of connections, from `newConnection` to `handleCloseInLoop`.

use netpoll_cpp.Base.{
  Bool, Bool-cases, List, Option, [], arith, false, inl, inr, not, refl, set_at, true, ℕ, ◌&&◌,
  ◌++◌, ◌==◌, ◌||◌, ◌∷◌, ◌≡◌, ◌≤◌,
}
use netpoll_cpp.TcpServer.{
  AllOnce, EventLoopThreadPool, Reach, TcpServer, accepts, closes, connection_closed, contains,
  erase, handle_close_in_loop, later, new_connection, runs_close, runs_destroy, start,
}

pub contains-erase :
    (c g : ℕ) (ds : List ℕ) → contains g (erase c ds) ≡ (not (c == g) && contains g ds)
contains-erase c g [] = ground arith
contains-erase c g (d ∷ ds) = ground (arith, contains-erase c g ds)

pub contains-append_one :
    (c g : ℕ) (ds : List ℕ) → contains g (ds ++ (c ∷ [])) ≡ (g == c || contains g ds)
contains-append_one c g [] = ground arith
contains-append_one c g (d ∷ ds) = ground (arith, contains-append_one c g ds)

abbrev pub is_distinct : List ℕ → Bool
is_distinct [] = true
is_distinct (d ∷ ds) = not (contains d ds) && is_distinct ds

pub is_distinct-append_one :
    (c : ℕ) (ds : List ℕ)
    → is_distinct ds ≡ true
    → contains c ds ≡ false
    → is_distinct (ds ++ (c ∷ [])) ≡ true
is_distinct-append_one c [] h n = refl
is_distinct-append_one c (d ∷ ds) h n =
    ground (arith, is_distinct-append_one c ds, contains-append_one c d ds)

-- The set has just the connections that are established, or whose removal is queued; no removal is
-- queued twice, and none of a connection that is established.
pub record IsTracked (s : TcpServer) : Type 0 where
  pub agrees : (c : ℕ) → contains c s.conn_set ≡ (s.established c || contains c s.closing)
  pub apart : (c : ℕ) → contains c s.closing ≡ true → s.established c ≡ false
  pub once : is_distinct s.closing ≡ true
  pub old : (c : ℕ) → s.fresh ≤ c → contains c s.conn_set ≡ false

new_connection-IsTracked : (s : TcpServer) → IsTracked s → IsTracked (new_connection s)
unfolding new_connection
new_connection-IsTracked s h = record {
  agrees = λ c. ground (arith, h.agrees c);
  apart = λ c q. ground (arith, h.agrees c, h.apart c, h.old c, q);
  once = h.once;
  old = λ c q. ground (arith, h.old c, q);
}

not_queued :
    (s : TcpServer) (c : ℕ) → IsTracked s → s.established c ≡ true → contains c s.closing ≡ false
not_queued s c h e = ground (arith, h.apart c, e)

-- In the server's own loop the connection is removed at once.
closes_here-IsTracked :
    (s : TcpServer) (c : ℕ)
    → IsTracked s
    → s.established c ≡ true
    → IsTracked (handle_close_in_loop c (record s { established = set_at c false s.established }))
unfolding handle_close_in_loop
closes_here-IsTracked s c h e = record {
  agrees = λ g. ground (arith, h.agrees g, not_queued s c h e, contains-erase c g s.conn_set);
  apart = λ g q. ground (arith, h.apart g, q);
  once = h.once;
  old = λ g q. ground (arith, h.old g q, contains-erase c g s.conn_set);
}

closes_there-IsTracked :
    (s : TcpServer) (c : ℕ)
    → IsTracked s
    → s.established c ≡ true
    → IsTracked
        (record s { established = set_at c false s.established; closing = s.closing ++ (c ∷ []) })
closes_there-IsTracked s c h e = record {
  agrees = λ g. ground (arith, h.agrees g, e, contains-append_one c g s.closing);
  apart = λ g q. ground (arith, h.apart g, contains-append_one c g s.closing, q);
  once = is_distinct-append_one c s.closing h.once (not_queued s c h e);
  old = h.old;
}

closes-IsTracked :
    (s : TcpServer) (c : ℕ)
    → IsTracked s
    → s.established c ≡ true
    → IsTracked (connection_closed c (record s { established = set_at c false s.established }))
unfolding connection_closed
closes-IsTracked s c h e = elim (Bool-cases (s.io_loop c == s.loop)) [
  | inl own ↦ rw (connection_closed, own) (closes_here-IsTracked s c h e)
  | inr other ↦ rw (connection_closed, other) (closes_there-IsTracked s c h e)
]

runs_close-IsTracked :
    (s : TcpServer) (c : ℕ) (rest : List ℕ)
    → IsTracked s
    → s.closing ≡ c ∷ rest
    → IsTracked (handle_close_in_loop c (record s { closing = rest }))
unfolding handle_close_in_loop
runs_close-IsTracked s c rest h e = record {
  agrees = λ g. ground (arith, h.agrees g, h.apart g, h.once, e, contains-erase c g s.conn_set);
  apart = λ g q. ground (arith, h.apart g, e, q);
  once = ground (arith, h.once, e);
  old = λ g q. ground (arith, h.old g q, contains-erase c g s.conn_set);
}

pub Reach-IsTracked :
    {l : ℕ} {p : Option EventLoopThreadPool} {s : TcpServer} (r : Reach l p s)
    → AllOnce r
    → IsTracked s
Reach-IsTracked start a = record {
  agrees = λ c. refl;
  apart = λ c q. refl;
  once = refl;
  old = λ c q. refl;
}
Reach-IsTracked (later {s = s} r accepts) a = new_connection-IsTracked s (Reach-IsTracked r a.1)
Reach-IsTracked (later {s = s} r (closes c)) a = closes-IsTracked s c (Reach-IsTracked r a.1) a.0
Reach-IsTracked (later {s = s} r (runs_close c rest e)) a =
    runs_close-IsTracked s c rest (Reach-IsTracked r a.1) e
Reach-IsTracked (later {s = s} r (runs_destroy l c rest e)) a =
    let h = Reach-IsTracked r a.1 in
    record { agrees = h.agrees; apart = h.apart; once = h.once; old = h.old }

-- However connections are made and closed and the loops take turns, if each connection calls its
-- close callback once: the set has just the connections
-- that are established and those whose `handleCloseInLoop` is queued, and that is queued once for
-- each: so its assertion that it removes a connection holds.
pub conn_set_lem :
    {l : ℕ} {p : Option EventLoopThreadPool} {s : TcpServer} (c : ℕ) (r : Reach l p s)
    → AllOnce r
    → (contains c s.conn_set ≡ (s.established c || contains c s.closing))
      × ((s.established c && contains c s.closing) ≡ false)
      × (is_distinct s.closing ≡ true)
conn_set_lem {s = s} c r a =
    let h = Reach-IsTracked r a in (h.agrees c, ground (arith, h.apart c), h.once)
