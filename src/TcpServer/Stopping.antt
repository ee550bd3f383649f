-- ===== src/TcpServer/Stopping.antt =====
-- `stop` of TcpServer (netpoll/net/tcp_server.cc), when no other thread is at work on the server.
use netpoll_cpp.Base.{
  List, [], false, if◌then◌else◌, none, set_at, true, ℕ, ◌++◌, ◌==◌, ◌∷◌, ◌≡◌, ◌⊎◌,
}
use netpoll_cpp.TcpServer.{TcpServer, connection_closed, contains}
use netpoll_cpp.TcpServer.Wheels.{Served}

-- `handleClose` of a connection that has not called its close callback, in its own loop.
pub close_now : ℕ → TcpServer → TcpServer
unfolding connection_closed
close_now c s =
    if s.established c
    then connection_closed c (record s { established = set_at c false s.established })
    else s

-- The server, and the connections for which `forceClose` has queued a task in their loops.
pub record Forcing : Type 0 where
  pub server : TcpServer
  pub queued : List ℕ

-- `forceClose` of a connection, called in the loop of the server.
unfoldable pub force_close : ℕ → Forcing → Forcing
force_close c f =
    if f.server.io_loop c == f.server.loop
    then record f { server = close_now c f.server }
    else record f { queued = f.queued ++ (c ∷ []) }

unfoldable pub force_all : List ℕ → Forcing → Forcing
unfolding force_close
force_all [] f = f
force_all (c ∷ cs) f = force_all cs (force_close c f)

-- What is left of the server, and the tasks.
unfoldable pub stop : Served → Served × List ℕ
unfolding force_all
stop s =
    let f = force_all s.server.conn_set (record { server = s.server; queued = [] }) in
    (
      record s { acceptor = false; server = record f.server { pool = none }; wheels = λ l. false },
      f.queued,
    )

-- The loops run the tasks of `forceClose`.
unfoldable pub run_queued : List ℕ → TcpServer → TcpServer
run_queued [] s = s
run_queued (c ∷ cs) s = run_queued cs (close_now c s)

abbrev IsSettled : ℕ → Forcing → Type 0
IsSettled g f = (f.server.established g ≡ false) ⊎ (contains g f.queued ≡ true)
