-- ===== src/Parser/Pooled/Takes.antt =====
-- The TCP parser takes bytes whenever it has a message or a heartbeat.
use mathlib.Core.Path.{subst}
use gitee_fork_gateway.Prelude.{
  ℕ, ◌<◌, ◌≡◌, sym, true, false, ◌||◌, Option, none, some, List, ◌∷◌, String, ltb, ◌==◌, ◌>>=◌,
  >>=-some, arith, Bool-cases, inl, inr,
}
use gitee_fork_gateway.Entities.{Store, acquire, slice, put_slice, free}
use gitee_fork_gateway.HandOut.{Answer}
use gitee_fork_gateway.Parser.{Worked, parse}
use gitee_fork_gateway.Parser.Shrink.{parse-shorter}
use gitee_fork_gateway.Parser.Pooled.{answer, tcp_parse_body, tcp_parser}

-- The entities once they are acquired: what the parser wrote goes back, and its own ones are freed.
abbrev put_all : String → Store → ℕ → ℕ → ℕ → ℕ → Worked → Option (Answer × Store)
put_all tcp_serial s2 src tocast entity0 entity1 w = do
  s3 ← put_slice s2 src (w.parsed).bytes
  s4 ← put_slice s3 tocast (w.parsed).tbyte
  s5 ← put_slice s4 entity0 w.cwp
  s6 ← put_slice s5 entity1 w.cdt
  s7 ← free s6 entity1
  s8 ← free s7 entity0
  some (answer tcp_serial w.parsed, s8)

put_all-answer :
    (tcp_serial : String) (s2 s' : Store) (src tocast entity0 entity1 : ℕ) (w : Worked) (a : Answer)
    → put_all tcp_serial s2 src tocast entity0 entity1 w ≡ some (a, s')
    → a ≡ answer tcp_serial w.parsed
put_all-answer tcp_serial s2 s' src tocast entity0 entity1 w a e = ground arith

abbrev from_parse :
    List ℕ
    → String
    → Store
    → ℕ
    → ℕ
    → ℕ
    → ℕ
    → ℕ
    → ℕ
    → List ℕ
    → List ℕ
    → List ℕ
    → List ℕ
    → Option (Answer × Store)
from_parse alive tcp_serial s2 src tocast entity0 entity1 src_len piece bytes cwp cdt tbyte = do
  w ← parse alive none piece bytes cwp cdt tbyte src_len
  put_all tcp_serial s2 src tocast entity0 entity1 w

abbrev from_slices :
    List ℕ → String → Store → ℕ → ℕ → ℕ → ℕ → ℕ → ℕ → List ℕ → Option (Answer × Store)
from_slices alive tcp_serial s2 src tocast entity0 entity1 src_len piece bytes = do
  (cwp, size0) ← slice s2 entity0
  (cdt, size1) ← slice s2 entity1
  (tbyte, size2) ← slice s2 tocast
  from_parse alive tcp_serial s2 src tocast entity0 entity1 src_len piece bytes cwp cdt tbyte

-- An answer with a message or a heartbeat leaves less in the buffer.
abbrev Less : Answer → ℕ → Type 0
Less a n = (ltb 0 a.c_size || a.beat) ≡ true → a.src_len < n

module _ (first : ℕ) (more : List ℕ) (tcp_serial : String) (src tocast src_len : ℕ)
    (filled : (src_len == 0) ≡ false) where
  from_parse-Less :
      (s2 s' : Store) (entity0 entity1 piece : ℕ) (bytes cwp cdt tbyte : List ℕ) (a : Answer)
      → from_parse
          (first ∷ more)
          tcp_serial
          s2
          src
          tocast
          entity0
          entity1
          src_len
          piece
          bytes
          cwp
          cdt
          tbyte
        ≡ some (a, s')
      → Less a src_len
  from_parse-Less s2 s' entity0 entity1 piece bytes cwp cdt tbyte a e =
      let (w, e1, r1) =
        >>=-some (parse (first ∷ more) none piece bytes cwp cdt tbyte src_len)
          (λ w. put_all tcp_serial s2 src tocast entity0 entity1 w) (a, s') e in
      let same = put_all-answer tcp_serial s2 s' src tocast entity0 entity1 w a r1 in
      subst (λ x. Less x src_len) (sym same)
        (parse-shorter first more piece bytes cwp cdt tbyte src_len w filled e1)

  from_slices-Less :
      (s2 s' : Store) (entity0 entity1 piece : ℕ) (bytes : List ℕ) (a : Answer)
      → from_slices (first ∷ more) tcp_serial s2 src tocast entity0 entity1 src_len piece bytes
        ≡ some (a, s')
      → Less a src_len
  from_slices-Less s2 s' entity0 entity1 piece bytes a e =
      let ((cwp, z0), e0, r0) =
        >>=-some (slice s2 entity0)
          (λ x. do
            (cdt, size1) ← slice s2 entity1
            (tbyte, size2) ← slice s2 tocast
            from_parse (first ∷ more) tcp_serial s2 src tocast entity0 entity1 src_len piece bytes
                x.0 cdt tbyte)
          (a, s') e in
      let ((cdt, z1), e1, r1) =
        >>=-some (slice s2 entity1)
          (λ x. do
            (tbyte, size2) ← slice s2 tocast
            from_parse (first ∷ more) tcp_serial s2 src tocast entity0 entity1 src_len piece bytes
                cwp x.0 tbyte)
          (a, s') r0 in
      let ((tbyte, z2), e2, r2) =
        >>=-some (slice s2 tocast)
          (λ x.
            from_parse (first ∷ more) tcp_serial s2 src tocast entity0 entity1 src_len piece bytes
              cwp cdt x.0)
          (a, s') r1 in
      from_parse-Less s2 s' entity0 entity1 piece bytes cwp cdt tbyte a r2

  tcp_parse_body-Less :
      (now later : ℕ) (s s' : Store) (a : Answer)
      → tcp_parse_body (first ∷ more) none tcp_serial now later s src tocast src_len ≡ some (a, s')
      → Less a src_len
  unfolding tcp_parse_body
  tcp_parse_body-Less now later s s' a e =
      let ((bytes, piece), e0, r0) =
        >>=-some (slice s src)
          (λ x. do
            (entity0, s1) ← acquire s 1 x.1 now later
            (entity1, s2) ← acquire s1 1 x.1 now later
            from_slices (first ∷ more) tcp_serial s2 src tocast entity0 entity1 src_len x.1 x.0)
          (a, s') e in
      let ((entity0, s1), e1, r1) =
        >>=-some (acquire s 1 piece now later)
          (λ x. do
            (entity1, s2) ← acquire x.1 1 piece now later
            from_slices (first ∷ more) tcp_serial s2 src tocast x.0 entity1 src_len piece bytes)
          (a, s') r0 in
      let ((entity1, s2), e2, r2) =
        >>=-some (acquire s1 1 piece now later)
          (λ x.
            from_slices (first ∷ more) tcp_serial x.1 src tocast entity0 x.0 src_len piece bytes)
          (a, s') r1 in
      from_slices-Less s2 s' entity0 entity1 piece bytes a r2

-- Without encryption the parser of the TCP servers leaves less in the buffer than it found, whenever
-- it answers with a message or a heartbeat.
pub tcp_parser-Less :
    (first : ℕ) (more : List ℕ) (tcp_serial : String) (now later : ℕ) (s s' : Store)
    (src toself tocast src_len : ℕ) (a : Answer)
    → tcp_parser (first ∷ more) none tcp_serial now later s src toself tocast src_len ≡ some (a, s')
    → (ltb 0 a.c_size || a.beat) ≡ true
    → a.src_len < src_len
unfolding tcp_parser
tcp_parser-Less first more tcp_serial now later s s' src toself tocast src_len a e =
    elim (Bool-cases (src_len == 0)) [
      | inl empty ↦ λ found. absurd (ground arith)
      | inr filled ↦
          (let body : tcp_parse_body (first ∷ more) none tcp_serial now later s src tocast src_len
                ≡ some (a, s') =
              rw filled at e in
            tcp_parse_body-Less first more tcp_serial src tocast src_len filled now later s s' a
              body)
    ]
