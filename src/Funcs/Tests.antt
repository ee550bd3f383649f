-- ===== src/Funcs/Tests.antt =====
-- "a,,b" at the comma.

use netpoll_cpp.Base.{List, [], false, refl, some, true, ℕ, ◌∷◌, ◌≡◌}
use netpoll_cpp.Funcs.{find, find_from, split_loop, split_string, starts_with}
use netpoll_cpp.Funcs.Splitting.{AllFree, join, split_string_lem, without_empty}

split_string_lem_example :
    (v : List (List ℕ)) × (split_string (97 ∷ 44 ∷ 44 ∷ 98 ∷ []) (44 ∷ []) true ≡ some v)
    × (split_string (97 ∷ 44 ∷ 44 ∷ 98 ∷ []) (44 ∷ []) false ≡ some (without_empty v))
    × (join (44 ∷ []) v ≡ 97 ∷ 44 ∷ 44 ∷ 98 ∷ [])
    × AllFree (44 ∷ []) v
split_string_lem_example = split_string_lem (97 ∷ 44 ∷ 44 ∷ 98 ∷ []) 44 []

-- The parts of it.
split_string_runs :
    (split_string (97 ∷ 44 ∷ 44 ∷ 98 ∷ []) (44 ∷ []) true ≡ some ((97 ∷ []) ∷ [] ∷ (98 ∷ []) ∷ []))
    × (split_string (97 ∷ 44 ∷ 44 ∷ 98 ∷ []) (44 ∷ []) false ≡ some ((97 ∷ []) ∷ (98 ∷ []) ∷ []))
unfolding split_string split_loop find_from find starts_with
split_string_runs = (refl, refl)
