-- ===== src/Text/Tests.antt =====
-- Texts with spaces at their ends.
use gitee_fork_gateway.Prelude.{◌≡◌, refl}
use gitee_fork_gateway.Text.{trim}

both_ends : trim "  a b " ≡ "a b"
unfolding trim
both_ends = refl

only_spaces : trim "   " ≡ ""
unfolding trim
only_spaces = refl
