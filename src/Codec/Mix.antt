-- ===== src/Codec/Mix.antt =====
-- `MixFour` permutes each group of four bytes, and `DeMixFour` undoes it.
use gitee_fork_gateway.Prelude.{
  ℕ, zero, suc, ◌+◌, ◌≤◌, ◌<◌, ◌≡◌, refl, sym, ap, ◌∙◌, true, false, some, List, [], ◌∷◌, ◌++◌,
  length, get_elem?, set, ltb, ◌>>=◌, arith, length-append, append_assoc, length-gt_of_get_elem?,
  length-set,
}
use gitee_fork_gateway.Bytes.Slices.{get_elem?-append_right, set-append_right}
use gitee_fork_gateway.Codec.{swap, mix_loop, mix_four, de_mix_loop, de_mix_four}

-- The groups of four among the first `n` bytes, each permuted.
unfoldable pub mixed : ℕ → List ℕ → List ℕ
mixed (suc (suc (suc (suc n)))) (a ∷ b ∷ c ∷ d ∷ xs) = d ∷ b ∷ a ∷ c ∷ mixed n xs
mixed _ xs = xs

unfoldable pub unmixed : ℕ → List ℕ → List ℕ
unmixed (suc (suc (suc (suc n)))) (a ∷ b ∷ c ∷ d ∷ xs) = c ∷ b ∷ d ∷ a ∷ unmixed n xs
unmixed _ xs = xs

-- Behind a prefix, a swap is that of the rest.
swap-append :
    (pre rest : List ℕ) (i j k m a b : ℕ)
    → i ≡ length pre + k
    → j ≡ length pre + m
    → get_elem? rest k ≡ some a
    → get_elem? rest m ≡ some b
    → swap (pre ++ rest) i j ≡ some (pre ++ set (set rest k b) m a)
unfolding swap
swap-append pre rest i j k m a b ei ej ga gb =
    let gi = get_elem?-append_right pre rest i k ei in
    let gj = get_elem?-append_right pre rest j m ej in
    let lk = length-gt_of_get_elem? rest k a ga in
    let lm = length-gt_of_get_elem? rest m b gb in
    let l = length-append pre rest in
    let s1 = set-append_right pre rest i k b ei in
    let l1 = length-append pre (set rest k b) in
    let l2 = length-set rest k b in
    let s2 = set-append_right pre (set rest k b) j m a ej in
    let ti : ltb i (length (pre ++ rest)) ≡ true = ground arith in
    let tj : ltb j (length (pre ++ set rest k b)) ≡ true = ground arith in
    rw (gi, ga, gj, gb, ti, s1, tj, s2) refl

pub mixed_short : (m : ℕ) (xs : List ℕ) → m < 4 → mixed m xs ≡ xs
unfolding mixed
mixed_short zero xs h = refl
mixed_short (suc zero) xs h = refl
mixed_short (suc (suc zero)) xs h = refl
mixed_short (suc (suc (suc zero))) xs h = refl
mixed_short (suc (suc (suc (suc m)))) xs h = absurd (omega arith)

-- The loop at the end of a prefix permutes the groups of the rest.
mix_loop-mixed :
    (rounds : ℕ) (pre rest : List ℕ) (i n m : ℕ)
    → i ≡ length pre
    → n ≡ i + m
    → m ≤ length rest
    → m ≤ rounds
    → mix_loop rounds i (pre ++ rest) n ≡ some (pre ++ mixed m rest)
unfolding mix_loop mixed
mix_loop-mixed zero pre rest i n m ei en h h' =
    (let s = mixed_short m rest (omega arith) in rw s refl)
mix_loop-mixed (suc rounds) pre (a ∷ b ∷ c ∷ d ∷ xs) i n (suc (suc (suc (suc m)))) ei en h h' =
    let s1 =
      swap-append pre (a ∷ b ∷ c ∷ d ∷ xs) (i + 2) (i + 3) 2 3 c d (omega arith) (omega arith) refl
        refl in
    let s2 =
      swap-append pre (a ∷ b ∷ d ∷ c ∷ xs) i (i + 2) 0 2 a d (omega arith) (omega arith) refl
        refl in
    let rest =
      mix_loop-mixed rounds (pre ++ (d ∷ b ∷ a ∷ c ∷ [])) xs (i + 4) n m
        (omega (arith, length-append pre (d ∷ b ∷ a ∷ c ∷ []))) (omega arith) (omega arith)
        (omega arith) in
    let t : ltb (i + 3) n ≡ true = ground arith in
    rw (t, s1, s2)
      (ap (λ l. mix_loop rounds (i + 4) l n) (sym (append_assoc pre (d ∷ b ∷ a ∷ c ∷ []) xs))
        ∙ rest
        ∙ ap some (append_assoc pre (d ∷ b ∷ a ∷ c ∷ []) (mixed m xs)))
mix_loop-mixed (suc rounds) pre rest i n m ei en h h' =
    let s = mixed_short m rest (omega arith) in
    let t : ltb (i + 3) n ≡ false = ground arith in rw (t, s) refl

unmixed_short : (m : ℕ) (xs : List ℕ) → m < 4 → unmixed m xs ≡ xs
unfolding unmixed
unmixed_short zero xs h = refl
unmixed_short (suc zero) xs h = refl
unmixed_short (suc (suc zero)) xs h = refl
unmixed_short (suc (suc (suc zero))) xs h = refl
unmixed_short (suc (suc (suc (suc m)))) xs h = absurd (omega arith)

-- The loop at the end of a prefix restores the groups of the rest.
de_mix_loop-unmixed :
    (rounds : ℕ) (pre rest : List ℕ) (i n m : ℕ)
    → i ≡ length pre
    → n ≡ i + m
    → m ≤ length rest
    → m ≤ rounds
    → de_mix_loop rounds i (pre ++ rest) n ≡ some (pre ++ unmixed m rest)
unfolding de_mix_loop unmixed
de_mix_loop-unmixed zero pre rest i n m ei en h h' =
    (let s = unmixed_short m rest (omega arith) in rw s refl)
de_mix_loop-unmixed (suc rounds) pre (a ∷ b ∷ c ∷ d ∷ xs) i n (suc (suc (suc (suc m)))) ei en h h' =
    let s1 =
      swap-append pre (a ∷ b ∷ c ∷ d ∷ xs) i (i + 2) 0 2 a c (omega arith) (omega arith) refl
        refl in
    let s2 =
      swap-append pre (c ∷ b ∷ a ∷ d ∷ xs) (i + 2) (i + 3) 2 3 a d (omega arith) (omega arith) refl
        refl in
    let rest =
      de_mix_loop-unmixed rounds (pre ++ (c ∷ b ∷ d ∷ a ∷ [])) xs (i + 4) n m
        (omega (arith, length-append pre (c ∷ b ∷ d ∷ a ∷ []))) (omega arith) (omega arith)
        (omega arith) in
    let t : ltb (i + 3) n ≡ true = ground arith in
    rw (t, s1, s2)
      (ap (λ l. de_mix_loop rounds (i + 4) l n) (sym (append_assoc pre (c ∷ b ∷ d ∷ a ∷ []) xs))
        ∙ rest
        ∙ ap some (append_assoc pre (c ∷ b ∷ d ∷ a ∷ []) (unmixed m xs)))
de_mix_loop-unmixed (suc rounds) pre rest i n m ei en h h' =
    let s = unmixed_short m rest (omega arith) in
    let t : ltb (i + 3) n ≡ false = ground arith in rw (t, s) refl

unmixed-mixed : (m : ℕ) (xs : List ℕ) → unmixed m (mixed m xs) ≡ xs
unfolding mixed unmixed
unmixed-mixed (suc (suc (suc (suc m)))) (a ∷ b ∷ c ∷ d ∷ xs) =
    ap (λ l. a ∷ b ∷ c ∷ d ∷ l) (unmixed-mixed m xs)
unmixed-mixed m xs = refl

pub length-mixed : (m : ℕ) (xs : List ℕ) → length (mixed m xs) ≡ length xs
unfolding mixed
length-mixed (suc (suc (suc (suc m)))) (a ∷ b ∷ c ∷ d ∷ xs) = omega (arith, length-mixed m xs)
length-mixed m xs = refl

-- `MixFour` on the first `n` bytes of a slice does not panic, and turns each whole group of four
-- bytes a, b, c, d into d, b, a, c; it changes nothing else.
pub mix_four-mixed : (src : List ℕ) (n : ℕ) → n ≤ length src → mix_four src n ≡ some (mixed n src)
unfolding mix_four
mix_four-mixed src n h = mix_loop-mixed n [] src 0 n n refl (omega arith) h (omega arith)

-- `DeMixFour` of what `MixFour` made, with the same length, is the slice as it was.
pub de_mix_four-mix_four :
    (src : List ℕ) (n : ℕ) → n ≤ length src → (mix_four src n >>= λ s. de_mix_four s n) ≡ some src
unfolding de_mix_four
de_mix_four-mix_four src n h =
    let d =
      de_mix_loop-unmixed n [] (mixed n src) 0 n n refl (omega arith)
        (omega (arith, length-mixed n src)) (omega arith) in
    let u = unmixed-mixed n src in rw (mix_four-mixed src n h, d, u) refl
