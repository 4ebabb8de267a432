-- ===== src/Crypt/Cut.antt =====
-- What is sent is the front of the slice that `EncryPt` fills; it decrypts by itself.
use gitee_fork_gateway.Prelude.{
  ℕ, zero, suc, ◌+◌, ◌*◌, ◌/◌, ◌≤◌, ◌≡◌, refl, sym, ap, ◌∙◌, true, some, List, [], ◌∷◌, ◌++◌,
  length, take, drop, replicate, arith, append-nil, length-take, length-drop, length-append,
}
use gitee_fork_gateway.Codec
use gitee_fork_gateway.Codec.Base64.{base64_encode, AllBytes}
use gitee_fork_gateway.Codec.Mix.{mixed, mixed_short, length-mixed}
use gitee_fork_gateway.Crypt.{en_crypt, de_crypt}
use gitee_fork_gateway.Crypt.RoundTrip.{
  added, added_whole, take_append_self, pad_loop_lem, seals, opens, codec_seals, codec_opens,
  AllBytes-append, AllBytes-replicate, length-base64_encode,
}

take-mixed : (n : ℕ) (xs ys : List ℕ) → length xs ≡ n → take n (mixed n (xs ++ ys)) ≡ mixed n xs
unfolding mixed
take-mixed (suc (suc (suc (suc n)))) (a ∷ b ∷ c ∷ d ∷ xs) ys h =
    ap (λ l. d ∷ b ∷ a ∷ c ∷ l) (take-mixed n xs ys (omega arith))
take-mixed n xs ys h =
    let s = mixed_short n (xs ++ ys) (omega arith) in
    let t = mixed_short n xs (omega arith) in ap (take n) s ∙ take_append_self n xs ys h ∙ sym t

drop_all : (n : ℕ) (xs : List ℕ) → length xs ≤ n → drop n xs ≡ []
drop_all zero [] h = refl
drop_all zero (x ∷ xs) h = absurd (omega arith)
drop_all (suc n) [] h = refl
drop_all (suc n) (x ∷ xs) h = drop_all n xs (omega arith)

-- `EncryPt` of `n` bytes, and `DeCrypt` of what is sent of it.
pub record Sealed (src dst dst2 : List ℕ) (n dst_len : ℕ) : Type 0 where
  pub m : ℕ
  pub padded : List ℕ
  pub sealed : List ℕ
  pub rest : List ℕ
  pub text : List ℕ
  pub seal : en_crypt src dst n dst_len ≡ some (true, n + added n, m, padded, sealed)
  pub size : length sealed ≡ length dst
  pub fits : m ≤ length dst
  pub kept : length padded ≡ length src
  pub unseal :
      de_crypt (take m sealed) dst2 m (length dst2) ≡ some (true, 0, n + added n, rest, text)
  pub same : take (n + added n) text ≡ take n src ++ replicate (added n) 32

module _ (src1 dst dst2 : List ℕ) (q : ℕ) (bytes : AllBytes (take (q * 3) src1))
    (room : q * 3 ≤ length src1) (room1 : q * 4 ≤ length dst) (room2 : q * 3 ≤ length dst2) where
  abbrev enc : List ℕ
  enc = base64_encode (take (q * 3) src1)

  length-enc : length enc ≡ q * 4
  length-enc = length-base64_encode q (take (q * 3) src1) (omega (arith, length-take (q * 3) src1))

  cut_opens :
      Codec.de_crypt (take (q * 4) (mixed (q * 4) (enc ++ drop (q * 4) dst))) dst2 (q * 4)
      ≡ some (q * 3, enc, take (q * 3) src1 ++ drop (q * 3) dst2)
  cut_opens =
      let short = take (q * 4) dst in
      let l : length short ≡ q * 4 = omega (arith, length-take (q * 4) dst) in
      let o = codec_opens src1 short dst2 q bytes room (omega (arith, l)) room2 in
      let z : enc ++ drop (q * 4) short ≡ enc =
        ap (λ t. enc ++ t) (drop_all (q * 4) short (omega (arith, l))) ∙ append-nil enc in
      ap (λ t. Codec.de_crypt t dst2 (q * 4))
        (take-mixed (q * 4) enc (drop (q * 4) dst) length-enc ∙ sym (ap (mixed (q * 4)) z))
      ∙ o
      ∙ ap (λ t. some (q * 3, t, take (q * 3) src1 ++ drop (q * 3) dst2)) z

-- Where the slices have room.
pub en_crypt-Sealed :
    (src dst dst2 : List ℕ) (n dst_len : ℕ)
    → AllBytes (take n src)
    → n + added n ≤ length src
    → (n + added n) / 3 * 4 ≤ length dst
    → (n + added n) / 3 * 4 ≤ dst_len
    → n + added n ≤ length dst2
    → Sealed src dst dst2 n dst_len
en_crypt-Sealed src dst dst2 n dst_len h r r1 c1 r2 =
    let (src1, e, t, l) = pad_loop_lem (added n) 0 n src (omega arith) in
    let q = (n + added n) / 3 in
    let x = added_whole n in
    let text : take (q * 3) src1 ≡ take n src ++ replicate (added n) 32 =
      ap (λ z. take z src1) (omega arith)
      ∙ t
      ∙ ap (λ z. take z src ++ replicate (added n) 32) (omega arith) in
    let b : AllBytes (take (q * 3) src1) =
      rw text
        (AllBytes-append (take n src) (replicate (added n) 32) h (AllBytes-replicate (added n))) in
    let s = codec_seals src1 dst dst2 q b (omega arith) (omega arith) (omega arith) in
    let o = cut_opens src1 dst dst2 q b (omega arith) (omega arith) (omega arith) in
    let le = length-enc src1 dst dst2 q b (omega arith) (omega arith) (omega arith) in
    let enc1 = base64_encode (take (q * 3) src1) in
    let g =
      take_append_self (q * 3) (take (q * 3) src1) (drop (q * 3) dst2)
        (omega (arith, length-take (q * 3) src1)) in
    let front = take (q * 3) src1 ++ drop (q * 3) dst2 in
    let shut = mixed (q * 4) (enc1 ++ drop (q * 4) dst) in
    let w = opens (take (q * 4) shut) dst2 enc1 front q (length dst2) o (omega arith) in
    record {
      m = q * 4;
      padded = src1;
      sealed = shut;
      rest = enc1;
      text = front;
      seal = seals src dst src1 shut n q dst_len e x s (omega arith);
      size =
          length-mixed (q * 4) (enc1 ++ drop (q * 4) dst)
          ∙ omega (arith, le, length-append enc1 (drop (q * 4) dst), length-drop (q * 4) dst);
      fits = r1;
      kept = l;
      unseal = w ∙ ap (λ z. some (true, 0, z, enc1, front)) (sym x);
      same = ap (λ z. take z front) x ∙ g ∙ text;
    }
