-- ===== src/Codec/Tests.antt =====
-- The codec on two groups and a rest.
use gitee_fork_gateway.Prelude.{ℕ, ◌≡◌, refl, some, List, [], ◌∷◌}
use gitee_fork_gateway.Codec.{mix_four}

abbrev ten : List ℕ
ten = 0 ∷ 1 ∷ 2 ∷ 3 ∷ 4 ∷ 5 ∷ 6 ∷ 7 ∷ 8 ∷ 9 ∷ []

ten_mixed : mix_four ten 10 ≡ some (3 ∷ 1 ∷ 0 ∷ 2 ∷ 7 ∷ 5 ∷ 4 ∷ 6 ∷ 8 ∷ 9 ∷ [])
unfolding mix_four
ten_mixed = refl
