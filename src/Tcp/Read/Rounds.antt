-- ===== src/Tcp/Read/Rounds.antt =====
-- The loop over the messages of one packet ends.
use mathlib.Core.Path.{subst}
use gitee_fork_gateway.Prelude.{
  sym, ◌⊎◌, ℕ, zero, suc, ◌+◌, ◌<◌, ◌≡◌, refl, Bool, true, false, ◌||◌, none, some, List, length,
  ltb, >>=-some, arith, Option-cases, inl, inr,
}
use gitee_fork_gateway.Entities.{Store, acquire}
use gitee_fork_gateway.HandOut.{Lines, Parser, Answer, hand_self, hand_others, hand_out}
use gitee_fork_gateway.Tcp.Read.{
  Reader, Routine, Course, ends, fails, send_beat_ack, answer_beat, parse_round, parse_rounds,
}

-- The loop has ended, or a round of it panics or waits for ever; it does not go on.
abbrev pub IsBounded : Course → Type 0
IsBounded c = ((r' : Reader) × (c ≡ ends r')) ⊎ (c ≡ fails)

-- A parser that takes bytes from the buffer whenever it has a message or a heartbeat.
abbrev pub Takes : Parser → ℕ → Type 0
Takes parser hd =
    (s s' : Store) (toself tocast n : ℕ) (a : Answer)
    → parser s hd toself tocast n ≡ some (a, s')
    → (ltb 0 a.c_size || a.beat) ≡ true
    → a.src_len < n

send_beat_ack-src_len :
    (accepts : ℕ → List ℕ → Bool) (r : Reader) (con : ℕ) (ack : List ℕ)
    → (send_beat_ack accepts r con ack).src_len ≡ r.src_len
unfolding send_beat_ack
send_beat_ack-src_len accepts r con ack = ground arith

answer_beat-src_len :
    (t : Routine) (need_beat : Bool) (r : Reader) → (answer_beat t need_beat r).src_len ≡ r.src_len
unfolding answer_beat
answer_beat-src_len t need_beat r = elim (Option-cases t.beat_ack) [
  | inl e ↦ (rw e refl)
  | inr (ack, e) ↦ (rw e (ground (arith, send_beat_ack-src_len t.accepts r t.con ack)))
]

module _ (t : Routine) (takes : Takes t.parser t.hd) where
  hand_out-src_len :
      (l l' : Lines) (s s' : Store) (n : ℕ) (a : Answer)
      → hand_out t.others t.now t.parser t.later l s t.hd n t.serial (t.remote_addr t.con) none
        ≡ some (a, l', s')
      → (ltb 0 a.c_size || a.beat) ≡ true
      → a.src_len < n
  unfolding hand_out
  hand_out-src_len l l' s s' n a e more =
      let ((toself, s1), e1, r1) = >>=-some (acquire s 1 1024 t.now t.later) _ (a, l', s') e in
      let ((tocast, s2), e2, r2) =
        >>=-some (acquire s1 (length l.to_broad_cast) 1024 t.now t.later) _ (a, l', s') r1 in
      let ((a3, s3), e3, r3) = >>=-some (t.parser s2 t.hd toself tocast n) _ (a, l', s') r2 in
      let ((l4, s4), e4, r4) =
        >>=-some
          (hand_self t.others t.now l s3 toself a3.s_size t.serial (t.remote_addr t.con) none) _
          (a, l', s') r3 in
      let ((l5, s5), e5, r5) =
        >>=-some (hand_others t.others t.now l4 s4 tocast a3.c_size a3.serial none) _ (a, l', s')
          r4 in
      let same : a3 ≡ a = ground arith in
      subst (λ x. (ltb 0 x.c_size || x.beat) ≡ true → x.src_len < n) same
        (takes s2 s3 toself tocast n a3 e3) more

  parse_round-src_len : (r r' : Reader) → parse_round t r ≡ some (true, r') → r'.src_len < r.src_len
  unfolding parse_round
  parse_round-src_len r r' e =
      let ((a, l', s'), e1, r1) =
        >>=-some
          (hand_out t.others t.now t.parser t.later r.lines r.store t.hd r.src_len t.serial
            (t.remote_addr t.con) none)
          _ (true, r') e in
      let more : (ltb 0 a.c_size || a.beat) ≡ true = ground arith in
      let got : Reader = record r { store = s'; lines = l'; src_len = a.src_len } in
      let left : r'.src_len ≡ a.src_len = ground (arith, answer_beat-src_len t a.beat got) in
      let less = hand_out-src_len r.lines l' r.store s' r.src_len a e1 more in omega arith

  bounded : (f : ℕ) (r : Reader) → r.src_len < f → IsBounded (parse_rounds f t r)
  unfolding parse_rounds
  bounded zero r p = absurd (omega arith)
  bounded (suc f) r p = elim (Option-cases (parse_round t r)) [
    | inl e ↦ inr (rw (parse_rounds, e) refl)
    | inr ((true, r'), e) ↦
        (let d = parse_round-src_len r r' e in
          let same : parse_rounds (suc f) t r ≡ parse_rounds f t r' = rw (parse_rounds, e) refl in
          subst IsBounded (sym same) (bounded f r' (omega arith)))
    | inr ((false, r'), e) ↦ inl (r', rw (parse_rounds, e) refl)
  ]

  enough :
      (f g : ℕ) (r : Reader)
      → r.src_len < f
      → r.src_len < g
      → parse_rounds f t r ≡ parse_rounds g t r
  unfolding parse_rounds
  enough zero g r p q = absurd (omega arith)
  enough (suc f) zero r p q = absurd (omega arith)
  enough (suc f) (suc g) r p q = elim (Option-cases (parse_round t r)) [
    | inl e ↦ (rw (parse_rounds, e) refl)
    | inr ((true, r'), e) ↦
        (let d = parse_round-src_len r r' e in
          rw (parse_rounds, e) (enough f g r' (omega arith) (omega arith)))
    | inr ((false, r'), e) ↦ (rw (parse_rounds, e) refl)
  ]

-- With a parser that takes bytes from the buffer whenever it has a message or a heartbeat, the loop
-- over the messages does not reach a bound of one round more than the buffer has bytes, and any larger
-- bound gives the same.
pub parse_rounds-IsBounded :
    (t : Routine) (r : Reader) (more : ℕ)
    → Takes t.parser t.hd
    → IsBounded (parse_rounds (suc r.src_len) t r)
      × (parse_rounds (suc r.src_len + more) t r ≡ parse_rounds (suc r.src_len) t r)
parse_rounds-IsBounded t r more takes = (
  bounded t takes (suc r.src_len) r (omega arith),
  enough t takes (suc r.src_len + more) (suc r.src_len) r (omega arith) (omega arith),
)
