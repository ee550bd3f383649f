-- ===== src/Acceptor/Descriptors.antt =====
-- Which descriptors the acceptor has.

use netpoll_cpp.Base.{
  List, Option, [], ap, arith, if◌then◌else◌, none, refl, some, true, ℕ, ◌==◌, ◌∙◌, ◌∷◌, ◌≡◌,
}
use netpoll_cpp.Acceptor.{
  Accepted, Acceptor, SysCall, accepted, closes, destroy, failed, got, handle_read, hands_over,
  made, make_room, new_acceptor, opened, set_new_connection_callback,
}

abbrev pub drop_one : ℕ → List ℕ → List ℕ
drop_one fd [] = []
drop_one fd (g ∷ gs) = let rest = drop_one fd gs in if fd == g then gs else g ∷ rest

-- Those that were opened or accepted, and neither closed nor handed over.
abbrev pub held : List SysCall → List ℕ
held [] = []
held (opened fd ∷ cs) = fd ∷ held cs
held (accepted fd ∷ cs) = fd ∷ held cs
held (closes fd ∷ cs) = drop_one fd (held cs)
held (hands_over fd ∷ cs) = drop_one fd (held cs)

abbrev pub just : Option ℕ → List ℕ
just none = []
just (some fd) = fd ∷ []

-- A read event, with the kernel's answers.
pub data Event : Type 0 where
  readable : Accepted → Option ℕ → Option ℕ → Event

unfoldable pub run : List Event → Acceptor → Acceptor
run [] a = a
run (readable first again reopened ∷ es) a = run es (handle_read first again reopened a)

drop_just : (fd : ℕ) (gs : List ℕ) → drop_one fd (fd ∷ gs) ≡ gs
drop_just fd gs = let same : (fd == fd) ≡ true = ground arith in rw same refl

held-handle_read :
    (first : Accepted) (again reopened : Option ℕ) (a : Acceptor)
    → held a.sys_calls ≡ just a.idle_fd
    → held (handle_read first again reopened a).sys_calls
      ≡ just (handle_read first again reopened a).idle_fd
unfolding handle_read make_room
held-handle_read (got fd) again reopened a h = ground (arith, h)
held-handle_read (failed e) again reopened a h = ground (arith, h)

run_lem :
    (es : List Event) (a : Acceptor)
    → held a.sys_calls ≡ just a.idle_fd
    → held (run es a).sys_calls ≡ just (run es a).idle_fd
unfolding run
run_lem [] a h = h
run_lem (readable first again reopened ∷ es) a h =
    run_lem es (handle_read first again reopened a) (held-handle_read first again reopened a h)

closed_idle :
    (idle : Option ℕ) (cs : List SysCall) → held cs ≡ just idle → held (made closes idle cs) ≡ []
closed_idle none cs h = h
closed_idle (some fd) cs h = ap (drop_one fd) h ∙ drop_just fd []

opened_idle : (idle : Option ℕ) → held (made opened idle []) ≡ just idle
opened_idle none = refl
opened_idle (some fd) = refl

-- Whatever the kernel answers, the acceptor keeps no descriptor but the idle one: every connection
-- that it accepts is handed over or closed, also while descriptors are short, and once it is
-- destroyed it keeps none.
pub run-destroy_keeps_none :
    (sock : ℕ) (idle : Option ℕ) (es : List Event)
    → let a = run es (set_new_connection_callback (new_acceptor sock idle)) in
      (held a.sys_calls ≡ just a.idle_fd) × (held (destroy a).sys_calls ≡ [])
unfolding destroy set_new_connection_callback new_acceptor
run-destroy_keeps_none sock idle es =
    let a = set_new_connection_callback (new_acceptor sock idle) in
    let kept = run_lem es a (opened_idle idle) in
    (kept, closed_idle (run es a).idle_fd (run es a).sys_calls kept)
