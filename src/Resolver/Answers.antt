-- ===== src/Resolver/Answers.antt =====
-- Each call of `resolve` is answered once, with what a lookup of its name gave.
use netpoll_cpp.Resolver.{Resolver}
