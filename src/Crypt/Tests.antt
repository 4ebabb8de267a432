-- ===== src/Crypt/Tests.antt =====
-- `TTG1` encrypted and decrypted.
use gitee_fork_gateway.Prelude.{
  ℕ, ◌+◌, ◌≡◌, refl, true, some, List, [], ◌∷◌, ◌++◌, take, replicate, arith,
}
use gitee_fork_gateway.Codec
use gitee_fork_gateway.Codec.{mix_four, de_mix_four}
use gitee_fork_gateway.Codec.Base64.{base64_encode, base64_decode}
use gitee_fork_gateway.Crypt.{en_crypt, de_crypt}
use gitee_fork_gateway.Crypt.RoundTrip.{added, de_crypt-en_crypt}

abbrev text : List ℕ
text = 84 ∷ 84 ∷ 71 ∷ 49 ∷ 0 ∷ 0 ∷ 0 ∷ 0 ∷ []

-- `VFRHMSAg` with each group of four mixed: `HFVRgSMA`.
abbrev sealed_text : List ℕ
sealed_text = 72 ∷ 70 ∷ 86 ∷ 82 ∷ 103 ∷ 83 ∷ 77 ∷ 65 ∷ []

sealed :
    en_crypt text (replicate 8 0) 4 8
    ≡ some (true, 6, 8, 84 ∷ 84 ∷ 71 ∷ 49 ∷ 32 ∷ 32 ∷ 0 ∷ 0 ∷ [], sealed_text)
unfolding en_crypt Codec.en_crypt mix_four base64_encode
sealed = refl

-- One byte too many is kept for the next packet.
opened :
    de_crypt (sealed_text ++ (7 ∷ [])) (replicate 8 0) 9 8
    ≡ some (
      true,
      1,
      6,
      7 ∷ 70 ∷ 82 ∷ 72 ∷ 77 ∷ 83 ∷ 65 ∷ 103 ∷ 7 ∷ [],
      84 ∷ 84 ∷ 71 ∷ 49 ∷ 32 ∷ 32 ∷ 0 ∷ 0 ∷ [],
    )
unfolding de_crypt Codec.de_crypt de_mix_four base64_decode
opened = refl

de_crypt-en_crypt_example :
    (m : ℕ) × (padded_src sealed rest out : List ℕ) × (en_crypt text (replicate 8 0) 4 8
      ≡ some (true, 4 + added 4, m, padded_src, sealed))
    × (de_crypt sealed (replicate 9 1) m 9 ≡ some (true, 0, 4 + added 4, rest, out))
    × (take (4 + added 4) out ≡ take 4 text ++ replicate (added 4) 32)
de_crypt-en_crypt_example =
    de_crypt-en_crypt text (replicate 8 0) (replicate 9 1) 4 8 9 (omega arith) (omega arith)
      (omega arith) (omega arith) (omega arith) (omega arith)
