-- ===== src/Bytes/Tests.antt =====
-- The byte helpers on small buffers.
use gitee_fork_gateway.Prelude.{
  ℕ, ◌≡◌, refl, ◌<◌, ◌⊎◌, Option, none, some, List, [], ◌∷◌, get_elem?, take, true, false, arith,
}
use gitee_fork_gateway.Bytes.{contains, check_may_json}
use gitee_fork_gateway.Bytes.Search.{find, answer, contains-find}
use gitee_fork_gateway.Bytes.Json.{check_may_json_lem}

-- `  xTTGTTGx`, then a byte that is not part of the text.
abbrev buffer : List ℕ
buffer = 32 ∷ 32 ∷ 120 ∷ 84 ∷ 84 ∷ 71 ∷ 84 ∷ 84 ∷ 71 ∷ 120 ∷ 7 ∷ []

-- `{{}`, an opening brace too many.
abbrev braces : List ℕ
braces = 123 ∷ 123 ∷ 125 ∷ []

first_place : contains buffer (84 ∷ 84 ∷ 71 ∷ []) 10 3 ≡ some (true, 3)
unfolding contains
first_place = refl

no_place : contains buffer (84 ∷ 71 ∷ 71 ∷ []) 10 3 ≡ some (false, 0)
unfolding contains
no_place = refl

empty_pattern : contains buffer [] 10 0 ≡ none
unfolding contains
empty_pattern = refl

unbalanced : check_may_json braces 3 ≡ some (some 0, some 2)
unfolding check_may_json
unbalanced = refl

contains-find_example :
    contains buffer (84 ∷ 84 ∷ 71 ∷ []) 10 3
    ≡ some (answer 0 (find (84 ∷ 84 ∷ 71 ∷ []) (take 10 buffer)))
contains-find_example = contains-find buffer 10 84 (84 ∷ 71 ∷ []) (omega arith)

check_may_json_lem_example :
    ((to : Option ℕ) × (check_may_json braces 3 ≡ some (none, to)))
    ⊎ ((f : ℕ) × (t : ℕ) × (check_may_json braces 3 ≡ some (some f, some t))
        × (f < t)
        × (t < 3)
        × (get_elem? braces f ≡ some 123)
        × (get_elem? braces t ≡ some 125))
check_may_json_lem_example = check_may_json_lem braces 3 (omega arith)
