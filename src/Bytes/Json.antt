-- ===== src/Bytes/Json.antt =====
-- `checkMayJson` of new/main.go stays within the buffer and reports two braces.
use gitee_fork_gateway.Prelude.{
  ℕ, zero, suc, ◌+◌, ◌≤◌, ◌<◌, ◌≡◌, refl, ap, ◌⊎◌, inl, inr, true, false, ◌&&◌, Option, none, some,
  List, length, get_elem?, ltb, ◌==◌, arith, get_elem?_lt, Bool-cases,
}
use native.Mathlib.Decide.{dec_lt}
use gitee_fork_gateway.Bytes.{JsonScan, ordered, from_once, json_byte, json_loop, check_may_json}

-- A mark is not set, or is the place of the byte `c` before `i`.
abbrev Marks : List ℕ → ℕ → ℕ → Option ℕ → Type 0
Marks bys i c o = (o ≡ none) ⊎ ((k : ℕ) × (o ≡ some k) × (get_elem? bys k ≡ some c) × (k < i))

abbrev IsScan : List ℕ → ℕ → JsonScan → Type 0
IsScan bys i s = Marks bys i 123 s.from × Marks bys i 125 s.to

Marks-later : (bys : List ℕ) (i j c : ℕ) (o : Option ℕ) → i ≤ j → Marks bys i c o → Marks bys j c o
Marks-later bys i j c o h (inl e) = inl e
Marks-later bys i j c o h (inr (k, e, g, l)) = inr (k, e, g, omega arith)

from_once-Marks :
    (bys : List ℕ) (i c : ℕ) (o : Option ℕ)
    → get_elem? bys i ≡ some c
    → Marks bys i c o
    → Marks bys (i + 1) c (from_once o i)
from_once-Marks bys i c none e m = inr (i, refl, e, omega arith)
from_once-Marks bys i c (some f) e m = Marks-later bys i (i + 1) c (some f) (omega arith) m

json_byte-IsScan :
    (bys : List ℕ) (i b : ℕ) (s : JsonScan)
    → get_elem? bys i ≡ some b
    → IsScan bys i s
    → IsScan bys (i + 1) (json_byte b i s)
unfolding json_byte
json_byte-IsScan bys i b s e (f, t) =
    let f' = Marks-later bys i (i + 1) 123 s.from (omega arith) f in
    let t' = Marks-later bys i (i + 1) 125 s.to (omega arith) t in
    let at : (c : ℕ) → (b == c) ≡ true → get_elem? bys i ≡ some c = (λ c h. ground arith) in
    elim (Bool-cases (b == 123)) [
      | inl x ↦ elim (Bool-cases (b == 125)) [
        | inl y ↦ absurd (ground arith)
        | inr y ↦ (rw (x, y) (from_once-Marks bys i 123 s.from (at 123 x) f, t'))
      ]
      | inr x ↦ elim (Bool-cases (b == 125)) [
        | inl y ↦ (rw (x, y) (f', inr (i, refl, at 125 y, omega arith)))
        | inr y ↦ (rw (x, y) (f', t'))
      ]
    ]

json_loop-IsScan :
    (rounds i l : ℕ) (bys : List ℕ) (s : JsonScan)
    → rounds + i ≡ l
    → l ≤ length bys
    → IsScan bys i s
    → (s' : JsonScan) × (json_loop rounds i bys s ≡ some s') × IsScan bys l s'
unfolding json_loop
json_loop-IsScan zero i l bys s e h v =
    let (f, t) = v in
    (
      s,
      refl,
      (
        Marks-later bys i l 123 s.from (omega arith) f,
        Marks-later bys i l 125 s.to (omega arith) t,
      ),
    )
json_loop-IsScan (suc rounds) i l bys s e h v =
    let (b, eb) = get_elem?_lt bys i (omega arith) in
    let v' = json_byte-IsScan bys i b s eb v in
    let (s', es, vs) = json_loop-IsScan rounds (i + 1) l bys (json_byte b i s) (omega arith) h v' in
    let s1 = json_byte b i s in
    elim (Bool-cases (ordered s1.from s1.to && (s1.opened == s1.closed))) [
      | inl x ↦ (
        s1,
        (rw (eb, x) refl),
        (
          Marks-later bys (i + 1) l 123 s1.from (omega arith) v'.0,
          Marks-later bys (i + 1) l 125 s1.to (omega arith) v'.1,
        ),
      )
      | inr x ↦ (s', (rw (eb, x) es), vs)
    ]

-- The two braces are not the same byte.
other :
    (bys : List ℕ) (i j : ℕ)
    → get_elem? bys i ≡ some 123
    → get_elem? bys j ≡ some 125
    → ltb j i ≡ false
    → i < j
other bys i j e e' h = elim (dec_lt i j) [
  | yes p ↦ p
  | no p ↦ (let x : j ≡ i = ground arith in let e2 = ap (get_elem? bys) x in absurd (ground arith))
]

-- `checkMayJson` does not panic; it finds no text, or one that begins with an opening brace, ends
-- with a closing brace behind it, and lies within the first `l` bytes.
pub check_may_json_lem :
    (bys : List ℕ) (l : ℕ)
    → l ≤ length bys
    → ((to : Option ℕ) × (check_may_json bys l ≡ some (none, to)))
      ⊎ ((f : ℕ) × (t : ℕ) × (check_may_json bys l ≡ some (some f, some t))
          × (f < t)
          × (t < l)
          × (get_elem? bys f ≡ some 123)
          × (get_elem? bys t ≡ some 125))
unfolding check_may_json
check_may_json_lem bys l h =
    let start : JsonScan = record { from = none; to = none; opened = 0; closed = 0 } in
    let (s, es, (f, t)) = json_loop-IsScan l 0 l bys start (omega arith) h (inl refl, inl refl) in
    elim f [
      | inl ef ↦ inl (s.to, (rw (es, ef) refl))
      | inr (i, ef, gf, lf) ↦ elim t [
        | inl et ↦ inl (none, (rw (es, ef, et) refl))
        | inr (j, et, gt, lt) ↦ elim (Bool-cases (ltb j i)) [
          | inl y ↦ inl (some j, (rw (es, ef, et, y) refl))
          | inr y ↦ inr (i, j, (rw (es, ef, et, y) refl), other bys i j gf gt y, lt, gf, gt)
        ]
      ]
    ]
