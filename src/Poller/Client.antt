-- ===== src/Poller/Client.antt =====
-- The calls of an event loop, on any poller.

use netpoll_cpp.Base.{Bool, List, [], ap, false, fun_ext, refl, set_at, true, ℕ, ◌∙◌, ◌∷◌, ◌≡◌}
use netpoll_cpp.Channel.{Flags}
use netpoll_cpp.Poller.{Poller, wants}

pub data Request : Type 0 where
  asks : ℕ → Flags → Request
  drops : ℕ → Request
  makes : ℕ → Request

-- The same calls, on a function from descriptors to what is asked for.
pub replay : List Request → (ℕ → Bool × Bool) → ℕ → Bool × Bool
replay [] w = w
replay (asks fd e ∷ rs) w = replay rs (set_at fd (wants e) w)
replay (drops fd ∷ rs) w = replay rs (set_at fd (false, false) w)
replay (makes fd ∷ rs) w = replay rs w

module _ (p : Poller) where
  open p use {
    State, IsValid, watched, accepts, registered, update_channel, remove_channel, make_channel,
  }

  pub serve : List Request → State → State
  serve [] s = s
  serve (asks fd e ∷ rs) s = serve rs (update_channel fd e s)
  serve (drops fd ∷ rs) s = serve rs (remove_channel fd s)
  serve (makes fd ∷ rs) s = serve rs (make_channel fd s)

  -- Each channel is accepted when it is updated, and registered when it is removed; a new one is made
  -- for a descriptor of which none is registered.
  abbrev pub AllowsAll : List Request → State → Type 0
  AllowsAll [] s = Unit {0}
  AllowsAll (asks fd e ∷ rs) s = (accepts s fd ≡ true) × AllowsAll rs (update_channel fd e s)
  AllowsAll (drops fd ∷ rs) s = (registered s fd ≡ true) × AllowsAll rs (remove_channel fd s)
  AllowsAll (makes fd ∷ rs) s = (registered s fd ≡ false) × AllowsAll rs (make_channel fd s)

  -- Any poller that keeps the promises is, after any sequence of calls, valid and watches each
  -- descriptor for what the last call about it asked for.
  pub serve_refines :
      (rs : List Request) (s : State)
      → IsValid s
      → AllowsAll rs s
      → IsValid (serve rs s) × (watched (serve rs s) ≡ replay rs (watched s))
  unfolding serve replay
  serve_refines [] s v a = (v, refl)
  serve_refines (asks fd e ∷ rs) s v a =
      let (v', w') = serve_refines rs (update_channel fd e s) (p.update-IsValid fd e s v a.0) a.1 in
      (v', w' ∙ ap (replay rs) (fun_ext (λ other. p.watched-update fd other e s v a.0)))
  serve_refines (drops fd ∷ rs) s v a =
      let (v', w') = serve_refines rs (remove_channel fd s) (p.remove-IsValid fd s v a.0) a.1 in
      (v', w' ∙ ap (replay rs) (fun_ext (λ other. p.watched-remove fd other s v a.0)))
  serve_refines (makes fd ∷ rs) s v a =
      let (v', w') = serve_refines rs (make_channel fd s) (p.make-IsValid fd s v a.0) a.1 in
      (v', w' ∙ ap (replay rs) (fun_ext (λ other. p.watched-make fd other s v a.0)))
