-- ===== src/Acceptor/Tests.antt =====
-- An acceptor that runs out of descriptors.

use netpoll_cpp.Base.{List, [], none, some, ◌∷◌, ◌≡◌}
use netpoll_cpp.Acceptor.{destroy, emfile, failed, got, new_acceptor, set_new_connection_callback}
use netpoll_cpp.Acceptor.Descriptors.{Event, held, just, readable, run, run-destroy_keeps_none}

abbrev short_of_descriptors : List Event
short_of_descriptors = readable (got 7) none none ∷ readable (failed emfile) (some 4) (some 4) ∷ []

run-destroy_keeps_none_example :
    let a = run short_of_descriptors (set_new_connection_callback (new_acceptor 3 (some 4))) in
    (held a.sys_calls ≡ just a.idle_fd) × (held (destroy a).sys_calls ≡ [])
run-destroy_keeps_none_example = run-destroy_keeps_none 3 (some 4) short_of_descriptors
