-- ===== src/Tcp/Read/Ends.antt =====
-- The read routine with the parser that new/main.go gives to the TCP servers.
use gitee_fork_gateway.Prelude.{ℕ, suc, ◌+◌, ◌≡◌, none, List, ◌∷◌}
use gitee_fork_gateway.Parser.Pooled.{tcp_parser}
use gitee_fork_gateway.Parser.Pooled.Takes.{tcp_parser-Less}
use gitee_fork_gateway.Tcp.Read.{Reader, Routine, parse_rounds}
use gitee_fork_gateway.Tcp.Read.Rounds.{IsBounded, parse_rounds-IsBounded}

-- The routine of a server without encryption, for a heartbeat.
abbrev pub plain : Routine → List ℕ → Routine
plain t alive = record t { parser = tcp_parser alive none t.serial t.now t.later }

-- On a server that does not encrypt, with the TCP parser and a heartbeat that is not empty, the loop
-- over the messages of a packet goes through one round more than the buffer has bytes at most: within
-- these it ends, or a round of it panics or waits for ever, but it does not go on, and more rounds
-- change nothing.
pub plain_rounds-IsBounded :
    (t : Routine) (first : ℕ) (rest : List ℕ) (r : Reader) (more : ℕ)
    → IsBounded (parse_rounds (suc r.src_len) (plain t (first ∷ rest)) r)
      × (parse_rounds (suc r.src_len + more) (plain t (first ∷ rest)) r
          ≡ parse_rounds (suc r.src_len) (plain t (first ∷ rest)) r)
plain_rounds-IsBounded t first rest r more =
    parse_rounds-IsBounded (plain t (first ∷ rest)) r more (λ s s' toself tocast n a.
      tcp_parser-Less first rest t.serial t.now t.later s s' t.hd toself tocast n a)
