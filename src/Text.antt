-- ===== src/Text.antt =====
-- `strings.Trim(s, " ")` of the Go library, which new/logging.go and new/redis.go call.
mod Tests
use Prim.Native.Nat.{ℕ}
use Prim.Native.Char.{Char, code}
use Prim.Native.String.{String, [], ◌∷◌}
use gitee_fork_gateway.Prelude.{Bool, true, false, ◌==◌, if◌then◌else◌}

abbrev is_space : Char → Bool
is_space c = code c == 32

-- A character in front of what is left of the end of a text.
abbrev keep : Char → String → String
keep c [] = if is_space c then [] else c ∷ []
keep c (d ∷ s) = c ∷ d ∷ s

unfoldable pub trim_end : String → String
trim_end [] = []
trim_end (c ∷ s) = keep c (trim_end s)

unfoldable pub trim_start : String → String
trim_start [] = []
trim_start (c ∷ s) = let rest = trim_start s in if is_space c then rest else c ∷ s

unfoldable pub trim : String → String
unfolding trim_end trim_start
trim s = trim_end (trim_start s)
