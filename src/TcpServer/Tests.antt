-- ===== src/TcpServer/Tests.antt =====
-- A server at a concrete sequence of steps.

use netpoll_cpp.TcpServer.Wheels as Wheels
use netpoll_cpp.TcpServer.Stopping as Stopping
use netpoll_cpp.Base.{[], arith, false, refl, set_at, some, true, ◌&&◌, ◌+◌, ◌||◌, ◌∷◌, ◌≡◌}
use netpoll_cpp.TcpServer.{
  EventLoopThreadPool, Reach, TcpServer, accepts, choose_loop, closes, connection_closed, contains,
  get_next_loop, handle_close_in_loop, later, new_connection, new_pool, new_tcp_server, runs_close,
  start,
}
use netpoll_cpp.TcpServer.Closing.{conn_set_lem, is_distinct}
use netpoll_cpp.TcpServer.Destroying.{destroying_lem}
use netpoll_cpp.TcpServer.Pool.{next_times}
use netpoll_cpp.TcpServer.Wheels.{new_served, start_has_wheels}

abbrev two_loops : EventLoopThreadPool
two_loops = record { loops = 4 ∷ 5 ∷ []; loop_index = 0 }

-- Connection 0 is made in loop 4, and closes.
abbrev one_closing : TcpServer
unfolding new_connection choose_loop get_next_loop connection_closed handle_close_in_loop
one_closing =
    let s = new_connection (new_tcp_server 3 (some two_loops)) in
    connection_closed 0 (record s { established = set_at 0 false s.established })

one_closing-Reach : Reach 3 (some two_loops) one_closing
unfolding one_closing new_connection choose_loop get_next_loop
one_closing-Reach = later (later start accepts) (closes 0)

conn_set_lem_example :
    (contains 0 one_closing.conn_set
      ≡ (one_closing.established 0 || contains 0 one_closing.closing))
    × ((one_closing.established 0 && contains 0 one_closing.closing) ≡ false)
    × (is_distinct one_closing.closing ≡ true)
unfolding one_closing-Reach
conn_set_lem_example = conn_set_lem 0 one_closing-Reach (refl, (tt, tt))

-- The server's loop has removed it.
abbrev one_removed : TcpServer
unfolding handle_close_in_loop one_closing
one_removed = handle_close_in_loop 0 (record one_closing { closing = [] })

one_removed-Reach : Reach 3 (some two_loops) one_removed
unfolding one_removed one_closing new_connection choose_loop get_next_loop connection_closed
    handle_close_in_loop
one_removed-Reach = later one_closing-Reach (runs_close 0 [] refl)

destroying_lem_example :
    (one_removed.io_loop 0 ≡ 4)
    × (is_distinct (one_removed.destroying 4) ≡ true)
    × (contains 0 one_removed.conn_set ≡ false)
    × (one_removed.established 0 ≡ false)
unfolding one_removed one_closing new_connection choose_loop get_next_loop connection_closed
    handle_close_in_loop one_removed-Reach one_closing-Reach
destroying_lem_example = destroying_lem 4 0 one_removed-Reach (tt, (refl, (tt, tt))) refl

-- A server whose pool of two loops gave one to somebody else before.
abbrev with_pool : TcpServer
with_pool = new_tcp_server 0 (some (next_times 1 (new_pool (1 ∷ 2 ∷ []))))

start_has_wheels_example :
    let t = Wheels.start (new_served with_pool 30) in
    (t.server.pool ≡ some (next_times (2 + 1) (new_pool (1 ∷ 2 ∷ [])))) × (t.wheels 2 ≡ true)
unfolding next_times get_next_loop new_pool
start_has_wheels_example = start_has_wheels 1 0 1 2 (2 ∷ []) with_pool 30 refl (omega arith) refl

-- Connection 0 is in loop 4, and the server in loop 3.
abbrev serving : Wheels.Served
serving = new_served (new_connection (new_tcp_server 3 (some two_loops))) 30
