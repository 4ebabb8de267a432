-- ===== src/Parser/Shrink.antt =====
-- The parser takes bytes from the buffer whenever it has a message or a heartbeat, where nothing is
-- encrypted.
use gitee_fork_gateway.Prelude.{
  ℕ, zero, suc, ◌+◌, ◌-◌, ◌≤◌, ◌<◌, ◌≡◌, refl, sym, ap, ◌∙◌, Bool, true, false, ◌||◌, Option, none,
  some, List, ◌∷◌, length, ltb, ◌==◌, if◌then◌else◌, ◌>>=◌, >>=-some, arith, Option-cases, inl, inr,
}
use gitee_fork_gateway.Bytes.{copy_loop, contains, remove_bytes, check_may_json}
use gitee_fork_gateway.Parser.{
  Parsed, Worked, strip, cast_loop, shift_loop, cut, put_back, plain_text, parse,
}

-- The loop over heartbeats: no longer, and shorter where it has found one.
abbrev Shorter : ℕ → ℕ → Bool → Bool → Type 0
Shorter dlen dlen' beat beat' =
    (dlen' ≤ dlen) × (0 < dlen → beat ≡ false → beat' ≡ true → dlen' < dlen)

-- A text that has shrunk, or something was cut from it.
shorter :
    (dlen1 dlen2 ca_size left : ℕ) (beat : Bool)
    → 0 < dlen1
    → dlen2 ≤ dlen1
    → (beat ≡ true → dlen2 < dlen1)
    → left ≡ dlen2 - ca_size
    → (ltb 0 ca_size || beat) ≡ true
    → left < dlen1
shorter dlen1 dlen2 ca_size left true pos le lt e found = let less = lt refl in omega arith
shorter dlen1 dlen2 ca_size left false pos le lt e found =
    let cut_some : 0 < ca_size = ground arith in omega arith

-- A round of it, given what the later ones do.
strip_round-Shorter :
    (rounds a : ℕ) (more cdt cdt' : List ℕ) (dlen dlen' bi : ℕ) (beat beat' ok : Bool)
    → ((cdt1 : List ℕ)
        → strip rounds (a ∷ more) cdt1 (dlen - length (a ∷ more)) true ≡ some (cdt', dlen', beat')
        → dlen' ≤ dlen - length (a ∷ more))
    → (if ok
        then (do
          cdt1 ← remove_bytes cdt bi dlen (length (a ∷ more))
          strip rounds (a ∷ more) cdt1 (dlen - length (a ∷ more)) true)
        else some (cdt, dlen, beat))
      ≡ some (cdt', dlen', beat')
    → Shorter dlen dlen' beat beat'
strip_round-Shorter rounds a more cdt cdt' dlen dlen' bi beat beat' false later e =
    (ground arith, λ p q r. ground arith)
strip_round-Shorter rounds a more cdt cdt' dlen dlen' bi beat beat' true later e =
    let (cdt1, e1, r1) =
      >>=-some (remove_bytes cdt bi dlen (length (a ∷ more))) _ (cdt', dlen', beat') e in
    let less : dlen' ≤ dlen - suc (length more) = later cdt1 r1 in
    (omega arith, λ p q r. omega arith)

strip-Shorter :
    (rounds a : ℕ) (more cdt cdt' : List ℕ) (dlen dlen' : ℕ) (beat beat' : Bool)
    → strip rounds (a ∷ more) cdt dlen beat ≡ some (cdt', dlen', beat')
    → Shorter dlen dlen' beat beat'
unfolding strip
strip-Shorter zero a more cdt cdt' dlen dlen' beat beat' e = (ground arith, λ p q r. ground arith)
strip-Shorter (suc rounds) a more cdt cdt' dlen dlen' beat beat' e =
    let ((ok, bi), e1, r1) =
      >>=-some (contains cdt (a ∷ more) dlen (length (a ∷ more))) _ (cdt', dlen', beat') e in
    strip_round-Shorter rounds a more cdt cdt' dlen dlen' bi beat beat' ok
      (λ cdt1 e2.
        (strip-Shorter rounds a more cdt1 cdt' (dlen - length (a ∷ more)) dlen' true beat' e2).0)
      r1

-- The rest of `cut`, from the two ends of the text on.
abbrev cut_at : Option ℕ → Option ℕ → List ℕ → List ℕ → ℕ → Option (ℕ × List ℕ × List ℕ × ℕ)
cut_at from to cdt tbyte dlen = elim from [
  | none ↦ some (0, cdt, tbyte, dlen)
  | some f ↦ elim to [
    | none ↦ none
    | some t ↦ do
      let n = t - f + 1
      tbyte1 ← cast_loop n f f cdt tbyte
      cdt1 ← shift_loop n f n cdt
      some (n, cdt1, tbyte1, dlen - n)
  ]
]

cut_at-left :
    (from to : Option ℕ) (cdt tbyte cdt' tbyte' : List ℕ) (dlen ca_size dlen' : ℕ)
    → cut_at from to cdt tbyte dlen ≡ some (ca_size, cdt', tbyte', dlen')
    → dlen' ≡ dlen - ca_size
cut_at-left none to cdt tbyte cdt' tbyte' dlen ca_size dlen' e = ground arith
cut_at-left (some f) none cdt tbyte cdt' tbyte' dlen ca_size dlen' e = absurd (ground arith)
cut_at-left (some f) (some t) cdt tbyte cdt' tbyte' dlen ca_size dlen' e =
    let (tbyte1, e1, r1) =
      >>=-some (cast_loop (t - f + 1) f f cdt tbyte) _ (ca_size, cdt', tbyte', dlen') e in
    let (cdt1, e2, r2) =
      >>=-some (shift_loop (t - f + 1) f (t - f + 1) cdt) _ (ca_size, cdt', tbyte', dlen') r1 in
    ground arith

cut-left :
    (cdt tbyte cdt' tbyte' : List ℕ) (dlen ca_size dlen' : ℕ)
    → cut cdt tbyte dlen ≡ some (ca_size, cdt', tbyte', dlen')
    → dlen' ≡ dlen - ca_size
unfolding cut
cut-left cdt tbyte cdt' tbyte' dlen ca_size dlen' e =
    let ((from, to), e1, r1) =
      >>=-some (check_may_json cdt dlen) _ (ca_size, cdt', tbyte', dlen') e in
    cut_at-left from to cdt tbyte cdt' tbyte' dlen ca_size dlen' r1

-- The rest of `parse` without encryption, from the cut on and from the loop over heartbeats on.
abbrev from_put_back : ℕ → List ℕ → List ℕ → Bool → ℕ → List ℕ → List ℕ → ℕ → Option Worked
from_put_back piece bytes cwp beat ca_size cdt3 tbyte3 dlen3 = do
  (bytes4, dlen4, cdt4) ← put_back none piece cdt3 bytes cwp dlen3 0
  let parsed : Parsed = record {
    ca_size = ca_size;
    beat = beat;
    bytes = bytes4;
    tbyte = tbyte3;
    src_len = dlen4;
  }
  let worked : Worked = record { parsed = parsed; cwp = cwp; cdt = cdt4 }
  some worked

abbrev from_cut : ℕ → List ℕ → List ℕ → List ℕ → Bool → List ℕ → ℕ → Option Worked
from_cut piece bytes cwp tbyte beat cdt2 dlen2 = do
  (ca_size, cdt3, tbyte3, dlen3) ← cut cdt2 tbyte dlen2
  from_put_back piece bytes cwp beat ca_size cdt3 tbyte3 dlen3

abbrev from_strip : List ℕ → ℕ → List ℕ → List ℕ → List ℕ → List ℕ → ℕ → Option Worked
from_strip alive piece bytes cwp tbyte cdt1 dlen1 = do
  (cdt2, dlen2, beat) ← strip (suc dlen1) alive cdt1 dlen1 false
  from_cut piece bytes cwp tbyte beat cdt2 dlen2

-- What `w` has, as the rest leaves it.
record Has (w : Worked) (ca_size src_len : ℕ) (beat : Bool) : Type 0 where
  pub cast : (w.parsed).ca_size ≡ ca_size
  pub left : (w.parsed).src_len ≡ src_len
  pub alive : (w.parsed).beat ≡ beat

from_put_back-Has :
    (piece : ℕ) (bytes cwp : List ℕ) (beat : Bool) (ca_size : ℕ) (cdt3 tbyte3 : List ℕ) (dlen3 : ℕ)
    (w : Worked)
    → from_put_back piece bytes cwp beat ca_size cdt3 tbyte3 dlen3 ≡ some w
    → Has w ca_size dlen3 beat
unfolding put_back
from_put_back-Has piece bytes cwp beat ca_size cdt3 tbyte3 dlen3 w e =
    elim (Option-cases (copy_loop dlen3 0 cdt3 bytes)) [
      | inl c ↦ absurd (ground arith)
      | inr (bytes', c) ↦ record { cast = ground arith; left = ground arith; alive = ground arith }
    ]

from_cut-Has :
    (piece : ℕ) (bytes cwp tbyte : List ℕ) (beat : Bool) (cdt2 : List ℕ) (dlen2 : ℕ) (w : Worked)
    → from_cut piece bytes cwp tbyte beat cdt2 dlen2 ≡ some w
    → Has w (w.parsed).ca_size (dlen2 - (w.parsed).ca_size) beat
from_cut-Has piece bytes cwp tbyte beat cdt2 dlen2 w e =
    let ((ca_size, cdt3, tbyte3, dlen3), e1, r1) =
      >>=-some (cut cdt2 tbyte dlen2) (λ x. from_put_back piece bytes cwp beat x.0 x.1 x.2 x.3) w
        e in
    let h = from_put_back-Has piece bytes cwp beat ca_size cdt3 tbyte3 dlen3 w r1 in
    let c = cut-left cdt2 tbyte cdt3 tbyte3 dlen2 ca_size dlen3 e1 in
    let cast = h.cast in
    let left = h.left in
    record { cast = refl; left = left ∙ (c ∙ ap (λ n. dlen2 - n) (sym cast)); alive = h.alive }

from_strip-shorter :
    (a : ℕ) (more : List ℕ) (piece : ℕ) (bytes cwp tbyte cdt1 : List ℕ) (dlen1 : ℕ) (w : Worked)
    → 0 < dlen1
    → from_strip (a ∷ more) piece bytes cwp tbyte cdt1 dlen1 ≡ some w
    → (ltb 0 (w.parsed).ca_size || (w.parsed).beat) ≡ true
    → (w.parsed).src_len < dlen1
from_strip-shorter a more piece bytes cwp tbyte cdt1 dlen1 w pos e found =
    let ((cdt2, dlen2, beat), e1, r1) =
      >>=-some (strip (suc dlen1) (a ∷ more) cdt1 dlen1 false)
        (λ x. from_cut piece bytes cwp tbyte x.2 x.0 x.1) w e in
    let h = from_cut-Has piece bytes cwp tbyte beat cdt2 dlen2 w r1 in
    let (le, lt) = strip-Shorter (suc dlen1) a more cdt1 cdt2 dlen1 dlen2 false beat e1 in
    shorter dlen1 dlen2 (w.parsed).ca_size (w.parsed).src_len (w.parsed).beat pos le
      (λ b. lt pos refl (sym h.alive ∙ b)) h.left found

parse-from_strip :
    (alive : List ℕ) (piece : ℕ) (bytes cwp cdt tbyte cdt1 : List ℕ) (src_len : ℕ)
    → (src_len == 0) ≡ false
    → copy_loop src_len 0 bytes cdt ≡ some cdt1
    → parse alive none piece bytes cwp cdt tbyte src_len
      ≡ from_strip alive piece bytes cwp tbyte cdt1 src_len
unfolding parse plain_text
parse-from_strip alive piece bytes cwp cdt tbyte cdt1 src_len filled c = rw (filled, c) refl

parse-none :
    (alive : List ℕ) (piece : ℕ) (bytes cwp cdt tbyte : List ℕ) (src_len : ℕ)
    → (src_len == 0) ≡ false
    → copy_loop src_len 0 bytes cdt ≡ none
    → parse alive none piece bytes cwp cdt tbyte src_len ≡ none
unfolding parse plain_text
parse-none alive piece bytes cwp cdt tbyte src_len filled c = rw (filled, c) refl

-- A packet that is not encrypted shrinks where it has a message or a heartbeat.
pub parse-shorter :
    (a : ℕ) (more : List ℕ) (piece : ℕ) (bytes cwp cdt tbyte : List ℕ) (src_len : ℕ) (w : Worked)
    → (src_len == 0) ≡ false
    → parse (a ∷ more) none piece bytes cwp cdt tbyte src_len ≡ some w
    → (ltb 0 (w.parsed).ca_size || (w.parsed).beat) ≡ true
    → (w.parsed).src_len < src_len
parse-shorter a more piece bytes cwp cdt tbyte src_len w filled e found =
    elim (Option-cases (copy_loop src_len 0 bytes cdt)) [
      | inl c ↦
          (let panics = parse-none (a ∷ more) piece bytes cwp cdt tbyte src_len filled c in
            absurd (ground arith))
      | inr (cdt1, c) ↦
          from_strip-shorter a more piece bytes cwp tbyte cdt1 src_len w (ground arith)
            (sym (parse-from_strip (a ∷ more) piece bytes cwp cdt tbyte cdt1 src_len filled c) ∙ e)
            found
    ]
