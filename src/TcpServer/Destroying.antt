-- ===== src/TcpServer/Destroying.antt =====
-- The calls of `connectDestroyed` that the server queues in the loops of its connections.
use netpoll_cpp.Base.{
  Bool, Bool-cases, List, Option, [], arith, false, inl, inr, refl, set_at, true, ℕ, ◌++◌, ◌<◌,
  ◌==◌, ◌||◌, ◌∷◌, ◌≡◌,
}
use netpoll_cpp.TcpServer.{
  AllOnce, EventLoopThreadPool, Reach, TcpServer, accepts, closes, connection_closed, contains,
  handle_close_in_loop, later, new_connection, runs_close, runs_destroy, start,
}
use netpoll_cpp.TcpServer.Closing.{
  IsTracked, Reach-IsTracked, contains-append_one, contains-erase, is_distinct,
  is_distinct-append_one,
}

-- Each is in its connection's loop, once, and after the connection left the set.
record IsHandedOver (s : TcpServer) : Type 0 where
  own : (l c : ℕ) → contains c (s.destroying l) ≡ true → (s.io_loop c == l) ≡ true
  gone : (l c : ℕ) → contains c (s.destroying l) ≡ true → contains c s.conn_set ≡ false
  known : (l c : ℕ) → contains c (s.destroying l) ≡ true → c < s.fresh
  single : (l : ℕ) → is_distinct (s.destroying l) ≡ true

handle_close-IsHandedOver :
    (s : TcpServer) (c : ℕ)
    → IsHandedOver s
    → contains c s.conn_set ≡ true
    → c < s.fresh
    → IsHandedOver (handle_close_in_loop c s)
unfolding handle_close_in_loop
handle_close-IsHandedOver s c h m k =
    let added : (g : ℕ)
        → contains g (s.destroying (s.io_loop c) ++ (c ∷ []))
          ≡ (g == c || contains g (s.destroying (s.io_loop c))) =
      λ g. contains-append_one c g (s.destroying (s.io_loop c)) in
    let fresh_one : contains c (s.destroying (s.io_loop c)) ≡ false =
      ground (arith, h.gone (s.io_loop c) c, m) in
    record {
      own = λ l g q. ground (arith, h.own l g, added g, q);
      gone = λ l g q. ground (arith, h.gone l g, added g, contains-erase c g s.conn_set, q);
      known = λ l g q. ground (arith, h.known l g, added g, k, q);
      single = λ l. ground (
        arith,
        h.single l,
        h.single (s.io_loop c),
        is_distinct-append_one c (s.destroying (s.io_loop c)),
        fresh_one,
      );
    }

new_connection-IsHandedOver : (s : TcpServer) → IsHandedOver s → IsHandedOver (new_connection s)
unfolding new_connection
new_connection-IsHandedOver s h = record {
  own = λ l g q. ground (arith, h.own l g, h.known l g, q);
  gone = λ l g q. ground (arith, h.gone l g, h.known l g, q);
  known = λ l g q. ground (arith, h.known l g, q);
  single = λ l. ground (arith, h.single l);
}

runs_destroy-IsHandedOver :
    (s : TcpServer) (l c : ℕ) (rest : List ℕ)
    → IsHandedOver s
    → s.destroying l ≡ c ∷ rest
    → IsHandedOver (record s { destroying = set_at l rest s.destroying })
runs_destroy-IsHandedOver s l c rest h e = record {
  own = λ j g q. ground (arith, h.own j g, h.own l g, e, q);
  gone = λ j g q. ground (arith, h.gone j g, h.gone l g, e, q);
  known = λ j g q. ground (arith, h.known j g, h.known l g, e, q);
  single = λ j. ground (arith, h.single j, h.single l, e);
}

-- A connection of the set was made.
made : (s : TcpServer) (c : ℕ) → IsTracked s → contains c s.conn_set ≡ true → c < s.fresh
made s c t m = ground (arith, t.old c, m)

-- The other fields do not matter.
carried :
    (s : TcpServer) (established : ℕ → Bool) (closing : List ℕ)
    → IsHandedOver s
    → IsHandedOver (record s { established = established; closing = closing })
carried s established closing h = record {
  own = h.own;
  gone = h.gone;
  known = h.known;
  single = h.single;
}

closes-IsHandedOver :
    (s : TcpServer) (c : ℕ)
    → IsHandedOver s
    → IsTracked s
    → s.established c ≡ true
    → IsHandedOver (connection_closed c (record s { established = set_at c false s.established }))
unfolding connection_closed
closes-IsHandedOver s c h t e =
    let there : contains c s.conn_set ≡ true = ground (arith, t.agrees c, e) in
    elim (Bool-cases (s.io_loop c == s.loop)) [
      | inl here ↦
          rw (connection_closed, here)
            (handle_close-IsHandedOver _ c (carried s (set_at c false s.established) s.closing h)
              there (made s c t there))
      | inr away ↦
          rw (connection_closed, away)
            (carried s (set_at c false s.established) (s.closing ++ (c ∷ [])) h)
    ]

Reach-IsHandedOver :
    {l : ℕ} {p : Option EventLoopThreadPool} {s : TcpServer} (r : Reach l p s)
    → AllOnce r
    → IsHandedOver s
Reach-IsHandedOver start a = record {
  own = λ l c q. ground (arith, q);
  gone = λ l c q. ground (arith, q);
  known = λ l c q. ground (arith, q);
  single = λ l. refl;
}
Reach-IsHandedOver (later {s = s} r accepts) a =
    new_connection-IsHandedOver s (Reach-IsHandedOver r a.1)
Reach-IsHandedOver (later {s = s} r (closes c)) a =
    closes-IsHandedOver s c (Reach-IsHandedOver r a.1) (Reach-IsTracked r a.1) a.0
Reach-IsHandedOver (later {s = s} r (runs_close c rest e)) a =
    let t = Reach-IsTracked r a.1 in
    let there : contains c s.conn_set ≡ true = ground (arith, t.agrees c, e) in
    handle_close-IsHandedOver (record s { closing = rest }) c
      (carried s s.established rest (Reach-IsHandedOver r a.1)) there (made s c t there)
Reach-IsHandedOver (later {s = s} r (runs_destroy l c rest e)) a =
    runs_destroy-IsHandedOver s l c rest (Reach-IsHandedOver r a.1) e

-- However connections are made and closed and the loops take turns, if each connection calls its
-- close callback once: `connectDestroyed` is queued for a connection only in its own loop, once, and when it is neither in the set nor established.
pub destroying_lem :
    {l : ℕ} {p : Option EventLoopThreadPool} {s : TcpServer} (j c : ℕ) (r : Reach l p s)
    → AllOnce r
    → contains c (s.destroying j) ≡ true
    → (s.io_loop c ≡ j)
      × (is_distinct (s.destroying j) ≡ true)
      × (contains c s.conn_set ≡ false)
      × (s.established c ≡ false)
destroying_lem {s = s} j c r a q =
    let h = Reach-IsHandedOver r a in
    let t = Reach-IsTracked r a in
    (
      ground (arith, h.own j c q),
      h.single j,
      h.gone j c q,
      ground (arith, t.agrees c, h.gone j c q),
    )
