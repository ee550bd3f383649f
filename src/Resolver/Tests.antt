-- ===== src/Resolver/Tests.antt =====
-- Two calls for one name, of which the first makes the lookup.

use netpoll_cpp.Base.{List, [], ◌∷◌}
use netpoll_cpp.Resolver.{Event, found4, resolves, works}

abbrev two_calls : List Event
two_calls = resolves 0 1 5 5 10 ∷ works 2 3 (found4 99) ∷ resolves 0 4 5 5 11 ∷ []
