-- ===== src/Connector/Tests.antt =====
-- A connector at concrete sequences of calls.

use netpoll_cpp.Base.{false, refl, some, true, ◌≡◌}
use netpoll_cpp.Channel.{new_channel}
use netpoll_cpp.Connector.{
  Connector, connect, connecting, destroy, handle_write, new_connector, start, start_in_loop, stop,
}
use netpoll_cpp.Connector.Destruction.{destroy_closes_again}
use netpoll_cpp.Connector.Sockets.{settlements}
use netpoll_cpp.Connector.Steps.{IsReady, Reach-IsReady, begins, goes, is_writable, starts}

abbrev running : Connector
running = record (new_connector true) { started = true }

-- Connecting over descriptor 5.
abbrev waiting : Connector
waiting = record running { status = connecting; channel = some (new_channel 5); socket = some 5 }

destroy_closes_again_example :
    settlements 5 (destroy (start_in_loop 6 0 (stop (connect 5 111 running)))).effects ≡ 2
destroy_closes_again_example = destroy_closes_again 5 6 111 0 running refl refl refl refl refl

Reach-IsReady_example : IsReady (handle_write 0 false (start 5 115 (new_connector true)))
Reach-IsReady_example =
    Reach-IsReady (goes (goes begins (starts 5 115)) (is_writable 0 false)) (tt, (refl, tt))
