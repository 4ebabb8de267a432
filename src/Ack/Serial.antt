-- ===== src/Ack/Serial.antt =====
-- The serial that `AckSerial` reads from the first packet of a connection.
use mathlib.Core.Path.{subst}
use gitee_fork_gateway.Prelude.{
  ◌==◌, ◌≢◌, ◌∷◌, take, drop, sym, ℕ, zero, suc, ◌+◌, ◌-◌, ◌≤◌, ◌<◌, ◌≡◌, refl, ap, ◌∙◌, ◌⊎◌, inl,
  inr, Bool, true, false, ◌&&◌, none, some, List, [], length, get_elem?, ltb, leb, if◌then◌else◌,
  arith, get_elem?_lt, Bool-cases,
}
use native.Mathlib.Decide.{dec_lt}
use gitee_fork_gateway.Ack.{blank, trim_right, classify, ack_text, ack_serial}

abbrev pub blank_at : List ℕ → ℕ → Bool
blank_at buf k = elim (get_elem? buf k) [ none ↦ false | some b ↦ blank b ]

-- `m` is the size of the first `n` bytes without the blanks at their end, 8 at least: all that is
-- left out is blank, and the last byte that stays behind the eighth is not.
abbrev pub Trimmed : List ℕ → ℕ → ℕ → Type 0
Trimmed buf n m =
    (m ≤ n)
    × ((m ≡ 8) ⊎ (blank_at buf (m - 1) ≡ false))
    × ((k : ℕ) → (if leb m k && ltb k n then blank_at buf k else true) ≡ true)

blank_step :
    (buf : List ℕ) (m n k : ℕ)
    → blank_at buf (n - 1) ≡ true
    → (if leb m k && ltb k (n - 1) then blank_at buf k else true) ≡ true
    → (if leb m k && ltb k n then blank_at buf k else true) ≡ true
blank_step buf m n k at c = elim (dec_lt k (n - 1)) [
  | yes p ↦ ground arith
  | no p ↦ elim (dec_lt k n) [
    | yes q ↦ (let x : blank_at buf k ≡ true = ap (blank_at buf) (omega arith) ∙ at in ground arith)
    | no q ↦ ground arith
  ]
]

trim_right-Trimmed :
    (rounds : ℕ) (buf : List ℕ) (n : ℕ)
    → 8 ≤ n
    → n ≤ length buf
    → n ≤ rounds + 8
    → (m : ℕ) × (trim_right rounds buf n ≡ some m) × (8 ≤ m) × Trimmed buf n m
unfolding trim_right
trim_right-Trimmed zero buf n h h' f =
    (n, refl, h, (omega arith, inl (omega arith), λ k. ground arith))
trim_right-Trimmed (suc rounds) buf n h h' f = elim (dec_lt 8 n) [
  | no p ↦ (n, ground arith, h, (omega arith, inl (omega arith), λ k. ground arith))
  | yes p ↦
      (let (b, eb) = get_elem?_lt buf (n - 1) (omega arith) in
        let lt8 : ltb 8 n ≡ true = ground arith in
        elim (Bool-cases (blank b)) [
          | inl y ↦
              (let (m, em, hm, (le, last, cut)) =
                  trim_right-Trimmed rounds buf (n - 1) (omega arith) (omega arith) (omega arith) in
                let at : blank_at buf (n - 1) ≡ true = rw (blank_at, eb) y in
                (
                  m,
                  (rw (lt8, eb, y) em),
                  hm,
                  (omega arith, last, λ k. let c = cut k in blank_step buf m n k at c),
                ))
          | inr y ↦ (
            n,
            (rw (lt8, eb, y) refl),
            h,
            (omega arith, inr (rw (blank_at, eb) y), λ k. ground arith),
          )
        ])
]

-- The `k`th byte, or 0.
abbrev get : List ℕ → ℕ → ℕ
get l k = elim (get_elem? l k) [ none ↦ 0 | some b ↦ b ]

-- The answer for a packet of size `m` without its blanks, by its first three bytes: `MON`, `TTG` or
-- anything else.
abbrev pub Answers : List ℕ → ℕ → Bool × List ℕ × ℕ → Type 0
Answers buf m answer =
    ((take 3 buf ≡ 77 ∷ 79 ∷ 78 ∷ []) × (answer ≡ (true, take (m - 8) (drop 8 buf), 1)))
    ⊎ ((take 3 buf ≡ 84 ∷ 84 ∷ 71 ∷ []) × (answer ≡ (true, take m buf, 0)))
    ⊎ ((take 3 buf ≢ 77 ∷ 79 ∷ 78 ∷ [])
        × (take 3 buf ≢ 84 ∷ 84 ∷ 71 ∷ [])
        × (answer ≡ (false, [], 0)))

classify-Answers :
    (d0 d1 d2 : ℕ) (rest : List ℕ) (m : ℕ)
    → Answers (d0 ∷ d1 ∷ d2 ∷ rest) m (classify (d0 ∷ d1 ∷ d2 ∷ rest) m d0 d1 d2)
unfolding classify
classify-Answers d0 d1 d2 rest m = elim (Bool-cases ((d0 == 77) && (d1 == 79) && (d2 == 78))) [
  | inl y ↦ inl (
    (let e0 : d0 ≡ 77 = ground arith in
        let e1 : d1 ≡ 79 = ground arith in let e2 : d2 ≡ 78 = ground arith in rw (e0, e1, e2) refl),
    rw y refl,
  )
  | inr y ↦ elim (Bool-cases ((d0 == 84) && (d1 == 84) && (d2 == 71))) [
    | inl z ↦ inr (
        inl (
          (let e0 : d0 ≡ 84 = ground arith in
              let e1 : d1 ≡ 84 = ground arith in
              let e2 : d2 ≡ 71 = ground arith in rw (e0, e1, e2) refl),
          rw (y, z) refl,
        ))
    | inr z ↦ inr (
        inr (
          (λ t.
              let e0 : d0 ≡ 77 = ap (λ l. get l 0) t in
              let e1 : d1 ≡ 79 = ap (λ l. get l 1) t in
              let e2 : d2 ≡ 78 = ap (λ l. get l 2) t in ground arith),
          (λ t.
              let e0 : d0 ≡ 84 = ap (λ l. get l 0) t in
              let e1 : d1 ≡ 84 = ap (λ l. get l 1) t in
              let e2 : d2 ≡ 71 = ap (λ l. get l 2) t in ground arith),
          rw (y, z) refl,
        ))
  ]
]

-- A list of three elements at least.
three :
    (xs : List ℕ)
    → 3 ≤ length xs
    → (a : ℕ) × (b : ℕ) × (c : ℕ) × (rest : List ℕ) × (xs ≡ a ∷ b ∷ c ∷ rest)
three [] h = absurd (omega arith)
three (a ∷ []) h = absurd (omega arith)
three (a ∷ b ∷ []) h = absurd (omega arith)
three (a ∷ b ∷ c ∷ rest) h = (a, b, c, rest, refl)

-- On the plain text of a first packet of `n` bytes `AckSerial` does not panic. A packet shorter than
-- 8 bytes is refused. Of any other the blanks at its end are left out, as far as the eighth byte: a
-- packet that begins with `MON` is a monitor's, whose serial is what follows the eighth byte; one that
-- begins with `TTG` is a device's, whose serial is all of it; any other is refused.
pub ack_serial_lem :
    (buf tmp : List ℕ) (n : ℕ)
    → n ≤ length buf
    → ((n < 8) × (ack_serial none (some (buf, n)) tmp ≡ some (false, [], 0)))
      ⊎ ((8 ≤ n)
          × (m : ℕ) × (answer : Bool × List ℕ × ℕ) × (ack_serial none (some (buf, n)) tmp
              ≡ some answer)
          × (8 ≤ m)
          × Trimmed buf n m
          × Answers buf m answer)
unfolding ack_serial ack_text
ack_serial_lem buf tmp n h = elim (dec_lt n 8) [
  | yes p ↦ inl (p, ground arith)
  | no p ↦
      (let (m, em, hm, t) = trim_right-Trimmed n buf n (omega arith) h (omega arith) in
        let (d0, d1, d2, rest, e) = three buf (omega arith) in
        let f : ltb n 8 ≡ false = ground arith in
        let g0 : get_elem? buf 0 ≡ some d0 = ap (λ b. get_elem? b 0) e in
        let g1 : get_elem? buf 1 ≡ some d1 = ap (λ b. get_elem? b 1) e in
        let g2 : get_elem? buf 2 ≡ some d2 = ap (λ b. get_elem? b 2) e in
        inr (
          omega arith,
          m,
          classify buf m d0 d1 d2,
          (rw (f, em, g0, g1, g2) refl),
          hm,
          t,
          subst (λ b. Answers b m (classify b m d0 d1 d2)) (sym e)
              (classify-Answers d0 d1 d2 rest m),
        ))
]
