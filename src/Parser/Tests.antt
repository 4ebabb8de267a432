-- ===== src/Parser/Tests.antt =====
-- The parser on small packets.
use gitee_fork_gateway.Prelude.{
  ℕ, ◌≡◌, refl, ◌≤◌, true, false, none, some, List, [], ◌∷◌, length, take, arith,
}
use gitee_fork_gateway.Bytes.{contains, remove_bytes, check_may_json, copy_loop}
use gitee_fork_gateway.Bytes.Search.{find}
use gitee_fork_gateway.Parser.{strip, parse}
use gitee_fork_gateway.Parser.Beats.{without, strip_lem}

-- `TTxTTy` and two bytes more, for the heartbeat `TT`.
abbrev text : List ℕ
text = 84 ∷ 84 ∷ 120 ∷ 84 ∷ 84 ∷ 121 ∷ 0 ∷ 0 ∷ []

stripped :
    strip 6 (84 ∷ 84 ∷ []) text 6 false
    ≡ some (120 ∷ 121 ∷ 84 ∷ 121 ∷ 84 ∷ 121 ∷ 0 ∷ 0 ∷ [], 2, true)
unfolding strip contains remove_bytes
stripped = refl

strip_lem_example :
    (cdt' : List ℕ) × (dlen' : ℕ) × (strip 7 (84 ∷ 84 ∷ []) text 6 false
      ≡ some (cdt', dlen', (without 7 (84 ∷ 84 ∷ []) (take 6 text) false).1))
    × (take dlen' cdt' ≡ (without 7 (84 ∷ 84 ∷ []) (take 6 text) false).0)
    × (length cdt' ≡ 8)
    × (dlen' ≤ 6)
    × (find (84 ∷ 84 ∷ []) (take dlen' cdt') ≡ none)
strip_lem_example = strip_lem 7 84 (84 ∷ []) text 6 (omega arith) (omega arith)

-- `{}xyz` in buffers of eight bytes: the parser moves the first two bytes only of what is left.
moved_short :
    parse
      (84 ∷ 84 ∷ [])
      none
      8
      (123 ∷ 125 ∷ 120 ∷ 121 ∷ 122 ∷ 0 ∷ 0 ∷ 0 ∷ [])
      (0 ∷ 0 ∷ 0 ∷ 0 ∷ 0 ∷ 0 ∷ 0 ∷ 0 ∷ [])
      (0 ∷ 0 ∷ 0 ∷ 0 ∷ 0 ∷ 0 ∷ 0 ∷ 0 ∷ [])
      (0 ∷ 0 ∷ 0 ∷ 0 ∷ 0 ∷ 0 ∷ 0 ∷ 0 ∷ [])
      5
    ≡ some (record {
      parsed = record {
        ca_size = 2;
        beat = false;
        bytes = 120 ∷ 121 ∷ 120 ∷ 121 ∷ 122 ∷ 0 ∷ 0 ∷ 0 ∷ [];
        tbyte = 123 ∷ 125 ∷ 0 ∷ 0 ∷ 0 ∷ 0 ∷ 0 ∷ 0 ∷ [];
        src_len = 3;
      };
      cwp = 0 ∷ 0 ∷ 0 ∷ 0 ∷ 0 ∷ 0 ∷ 0 ∷ 0 ∷ [];
      cdt = 120 ∷ 121 ∷ 120 ∷ 121 ∷ 122 ∷ 0 ∷ 0 ∷ 0 ∷ [];
    })
unfolding parse contains remove_bytes check_may_json copy_loop
moved_short = refl
