-- ===== src/Crypt/RoundTrip.antt =====
-- What was encrypted is decrypted.
use gitee_fork_gateway.Prelude.{
  ℕ, zero, suc, ◌+◌, ◌-◌, ◌*◌, ◌/◌, ◌%◌, ◌≤◌, ◌<◌, ◌≡◌, refl, sym, ap, ◌∙◌, true, false, some, List,
  [], ◌∷◌, ◌++◌, length, take, drop, replicate, set, ltb, if◌then◌else◌, arith, append-nil,
  append_assoc, length-set, length-append, length-take, length-drop,
}
use gitee_fork_gateway.Codec
use gitee_fork_gateway.Codec.{write_front, mix_four, de_mix_four}
use gitee_fork_gateway.Codec.Base64.{
  base64_encode, base64_decode, AllBytes, base64_decode-base64_encode,
}
use gitee_fork_gateway.Codec.Mix.{mixed, length-mixed, mix_four-mixed, de_mix_four-mix_four}
use gitee_fork_gateway.Crypt.{pad_loop, en_crypt, de_crypt, front_loop}

-- A text of whole groups of three bytes becomes whole groups of four.
pub length-base64_encode :
    (q : ℕ) (xs : List ℕ) → length xs ≡ q * 3 → length (base64_encode xs) ≡ q * 4
unfolding base64_encode
length-base64_encode zero [] h = refl
length-base64_encode zero (a ∷ xs) h = absurd (omega arith)
length-base64_encode (suc q) [] h = absurd (omega arith)
length-base64_encode (suc q) (a ∷ []) h = absurd (omega arith)
length-base64_encode (suc q) (a ∷ b ∷ []) h = absurd (omega arith)
length-base64_encode (suc q) (a ∷ b ∷ c ∷ xs) h =
    let ih = length-base64_encode q xs (omega arith) in omega arith

take-set_self :
    (m : ℕ) (xs : List ℕ) (v : ℕ)
    → m < length xs
    → take (m + 1) (set xs m v) ≡ take m xs ++ (v ∷ [])
take-set_self m [] v h = absurd (omega arith)
take-set_self zero (x ∷ xs) v h = ground arith
take-set_self (suc m) (x ∷ xs) v h = ground (arith, take-set_self m xs v (omega arith))

pub take_append_self : (n : ℕ) (xs ys : List ℕ) → length xs ≡ n → take n (xs ++ ys) ≡ xs
take_append_self zero [] ys h = refl
take_append_self zero (x ∷ xs) ys h = absurd (omega arith)
take_append_self (suc n) [] ys h = absurd (omega arith)
take_append_self (suc n) (x ∷ xs) ys h = ap (λ l. x ∷ l) (take_append_self n xs ys (omega arith))

-- The padding stands behind the first `n` bytes, which stay.
pub pad_loop_lem :
    (k i n : ℕ) (src : List ℕ)
    → n + i + k ≤ length src
    → (src' : List ℕ) × (pad_loop k i n src ≡ some src')
      × (take (n + i + k) src' ≡ take (n + i) src ++ replicate k 32)
      × (length src' ≡ length src)
unfolding pad_loop
pad_loop_lem zero i n src h =
    (src, refl, ap (λ z. take z src) (omega arith) ∙ sym (append-nil (take (n + i) src)), refl)
pad_loop_lem (suc k) i n src h =
    let l0 = length-set src (n + i) 32 in
    let (src', e, t, l) = pad_loop_lem k (i + 1) n (set src (n + i) 32) (omega arith) in
    let c : ltb (n + i) (length src) ≡ true = ground arith in
    let x : n + i + suc k ≡ n + (i + 1) + k = omega arith in
    let y : n + (i + 1) ≡ n + i + 1 = omega arith in
    (
      src',
      (rw c e),
      ap (λ z. take z src') x
          ∙ t
          ∙ ap (λ z. take z (set src (n + i) 32) ++ replicate k 32) y
          ∙ ap (λ z. z ++ replicate k 32) (take-set_self (n + i) src 32 (omega arith))
          ∙ append_assoc (take (n + i) src) (32 ∷ []) (replicate k 32),
      l ∙ l0,
    )

-- Whole groups of three bytes come back, with the rest of the slice that they are written to.
module _ (src dst dst2 : List ℕ) (q : ℕ) (bytes : AllBytes (take (q * 3) src))
    (room : q * 3 ≤ length src) (room1 : q * 4 ≤ length dst) (room2 : q * 3 ≤ length dst2) where
  abbrev enc : List ℕ
  enc = base64_encode (take (q * 3) src)

  abbrev sealed : List ℕ
  sealed = mixed (q * 4) (enc ++ drop (q * 4) dst)

  pub length-enc : length enc ≡ q * 4
  length-enc = length-base64_encode q (take (q * 3) src) (omega (arith, length-take (q * 3) src))

  length-front : length (enc ++ drop (q * 4) dst) ≡ length dst
  length-front =
      omega (arith, length-enc, length-append enc (drop (q * 4) dst), length-drop (q * 4) dst)

  mix_front : mix_four (enc ++ drop (q * 4) dst) (q * 4) ≡ some sealed
  mix_front = mix_four-mixed (enc ++ drop (q * 4) dst) (q * 4) (omega (arith, length-front))

  pub codec_seals : Codec.en_crypt src dst (q * 3) ≡ some (q * 4, sealed)
  unfolding Codec.en_crypt write_front
  codec_seals =
      let a : ltb (length src) (q * 3) ≡ false = ground arith in
      let b : ltb (length dst) (q * 4) ≡ false = ground arith in
      let c : q * 3 / 3 * 4 ≡ q * 4 = omega arith in rw (a, length-enc, b, c, mix_front) refl

  pub codec_opens :
      Codec.de_crypt sealed dst2 (q * 4)
      ≡ some (q * 3, enc ++ drop (q * 4) dst, take (q * 3) src ++ drop (q * 3) dst2)
  unfolding Codec.de_crypt write_front
  codec_opens =
      let front = enc ++ drop (q * 4) dst in
      let l : length sealed ≡ length dst = length-mixed (q * 4) front ∙ length-front in
      let a : ltb (length sealed) (q * 4) ≡ false = ground arith in
      let u : de_mix_four sealed (q * 4) ≡ some front =
        rw mix_front at (de_mix_four-mix_four front (q * 4) (omega (arith, length-front))) in
      let t = take_append_self (q * 4) enc (drop (q * 4) dst) length-enc in
      let d : base64_decode enc ≡ take (q * 3) src =
        unfold base64_decode in base64_decode-base64_encode (take (q * 3) src) bytes in
      let n : length (take (q * 3) src) ≡ q * 3 = omega (arith, length-take (q * 3) src) in
      let b : ltb (length dst2) (q * 3) ≡ false = ground arith in rw (a, u, t, d, n, b) refl

pub AllBytes-append : (xs ys : List ℕ) → AllBytes xs → AllBytes ys → AllBytes (xs ++ ys)
AllBytes-append [] ys h h' = h'
AllBytes-append (x ∷ xs) ys (hx, h) h' = (hx, AllBytes-append xs ys h h')

pub AllBytes-replicate : (k : ℕ) → AllBytes (replicate k 32)
AllBytes-replicate zero = omega arith
AllBytes-replicate (suc k) = (omega arith, AllBytes-replicate k)

-- The bytes that `EncryPt` adds to `n` bytes, to make whole groups of three.
abbrev pub added : ℕ → ℕ
added n = if ltb 0 (n % 3) then 3 - n % 3 else 0

ltb_ge : (a b : ℕ) → b ≤ a → ltb a b ≡ false
ltb_ge a b h = ground arith

pub added_whole : (n : ℕ) → n + added n ≡ (n + added n) / 3 * 3
added_whole n = ground arith

pub seals :
    (src dst src1 sealed : List ℕ) (n q dst_len : ℕ)
    → pad_loop (added n) 0 n src ≡ some src1
    → n + added n ≡ q * 3
    → Codec.en_crypt src1 dst (q * 3) ≡ some (q * 4, sealed)
    → q * 4 ≤ dst_len
    → en_crypt src dst n dst_len ≡ some (true, n + added n, q * 4, src1, sealed)
unfolding en_crypt
seals src dst src1 sealed n q dst_len e x s c =
    let y : Codec.en_crypt src1 dst (n + added n) ≡ some (q * 4, sealed) =
      ap (Codec.en_crypt src1 dst) x ∙ s in
    let b : ltb dst_len ((n + added n) * 4 / 3) ≡ false =
      ltb_ge dst_len ((n + added n) * 4 / 3) (omega arith) in
    rw (e, b, y) refl

pub opens :
    (sealed dst2 rest text : List ℕ) (q dst2_len : ℕ)
    → Codec.de_crypt sealed dst2 (q * 4) ≡ some (q * 3, rest, text)
    → q * 3 ≤ dst2_len
    → de_crypt sealed dst2 (q * 4) dst2_len ≡ some (true, 0, q * 3, rest, text)
unfolding de_crypt front_loop
opens sealed dst2 rest text q dst2_len e c =
    let x : q * 4 % 4 ≡ 0 = omega arith in
    let y : q * 4 - 0 ≡ q * 4 = omega arith in
    let b : ltb dst2_len (q * 4 * 3 / 4) ≡ false = ground arith in rw (b, x, y, e) refl

-- Where the three slices have room, `EncryPt` of `n` bytes succeeds, and `DeCrypt` of what it made
-- succeeds with nothing left over, and gives the bytes back, with spaces behind them up to a whole
-- group of three.
pub de_crypt-en_crypt :
    (src dst dst2 : List ℕ) (n dst_len dst2_len : ℕ)
    → AllBytes (take n src)
    → n + added n ≤ length src
    → (n + added n) / 3 * 4 ≤ length dst
    → (n + added n) / 3 * 4 ≤ dst_len
    → n + added n ≤ length dst2
    → n + added n ≤ dst2_len
    → (m : ℕ) × (padded_src sealed rest text : List ℕ) × (en_crypt src dst n dst_len
        ≡ some (true, n + added n, m, padded_src, sealed))
      × (de_crypt sealed dst2 m dst2_len ≡ some (true, 0, n + added n, rest, text))
      × (take (n + added n) text ≡ take n src ++ replicate (added n) 32)
de_crypt-en_crypt src dst dst2 n dst_len dst2_len h r r1 c1 r2 c2 =
    let (src1, e, t, l) = pad_loop_lem (added n) 0 n src (omega arith) in
    let q = (n + added n) / 3 in
    let x = added_whole n in
    let text : take (q * 3) src1 ≡ take n src ++ replicate (added n) 32 =
      ap (λ z. take z src1) (omega arith)
      ∙ t
      ∙ ap (λ z. take z src ++ replicate (added n) 32) (omega arith) in
    let b : AllBytes (take (q * 3) src1) =
      rw text
        (AllBytes-append (take n src) (replicate (added n) 32) h (AllBytes-replicate (added n))) in
    let s = codec_seals src1 dst dst2 q b (omega arith) (omega arith) (omega arith) in
    let o = codec_opens src1 dst dst2 q b (omega arith) (omega arith) (omega arith) in
    let g =
      take_append_self (q * 3) (take (q * 3) src1) (drop (q * 3) dst2)
        (omega (arith, length-take (q * 3) src1)) in
    let front = take (q * 3) src1 ++ drop (q * 3) dst2 in
    let rest = base64_encode (take (q * 3) src1) ++ drop (q * 4) dst in
    let w = opens (mixed (q * 4) rest) dst2 rest front q dst2_len o (omega arith) in
    (
      q * 4,
      src1,
      mixed (q * 4) rest,
      rest,
      front,
      seals src dst src1 (mixed (q * 4) rest) n q dst_len e x s (omega arith),
      w ∙ ap (λ z. some (true, 0, z, rest, front)) (sym x),
      ap (λ z. take z front) x ∙ g ∙ text,
    )
