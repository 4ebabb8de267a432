-- ===== src/Brick/Memory.antt =====
-- The slices of two pieces do not overlap.
use gitee_fork_gateway.Prelude.{
  ℕ, zero, suc, ◌+◌, ◌-◌, ◌*◌, ◌≤◌, ◌<◌, ◌≡◌, refl, ap, ◌≢◌, some, List, [], ◌∷◌, ◌++◌, length,
  take, drop, arith, length-append, take-take_le, length-take, length-drop, ◌==◌, if◌then◌else◌,
}
use native.Mathlib.Decide.{dec_lt}
use gitee_fork_gateway.Brick.{MemBrick, load_mem, store_mem}

module _ {ℓ} {A : Type ℓ} where
  -- The window of `n` items at `i`.
  abbrev window : ℕ → ℕ → List A → List A
  window i n xs = take n (drop i xs)

  -- A list with the window at `i` overwritten.
  abbrev splice : ℕ → List A → ℕ → List A → List A
  splice i ys j xs = take i xs ++ (ys ++ drop j xs)

  take-append_length : (n : ℕ) (ys zs : List A) → length ys ≡ n → take n (ys ++ zs) ≡ ys
  take-append_length zero [] zs h = refl
  take-append_length zero (y ∷ ys) zs h = absurd (omega arith)
  take-append_length (suc n) [] zs h = absurd (omega arith)
  take-append_length (suc n) (y ∷ ys) zs h =
      ap (λ t. y ∷ t) (take-append_length n ys zs (omega arith))

  take-append_le : (n : ℕ) (ys zs : List A) → n ≤ length ys → take n (ys ++ zs) ≡ take n ys
  take-append_le zero ys zs h = refl
  take-append_le (suc n) [] zs h = absurd (omega arith)
  take-append_le (suc n) (y ∷ ys) zs h = ap (λ t. y ∷ t) (take-append_le n ys zs (omega arith))

  drop-append_ge : (i k : ℕ) (ys zs : List A) → i ≡ length ys + k → drop i (ys ++ zs) ≡ drop k zs
  drop-append_ge i k [] zs h = ap (λ t. drop t zs) (omega arith)
  drop-append_ge zero k (y ∷ ys) zs h = absurd (omega arith)
  drop-append_ge (suc i) k (y ∷ ys) zs h = drop-append_ge i k ys zs (omega arith)

  drop-append_le : (i : ℕ) (ys zs : List A) → i ≤ length ys → drop i (ys ++ zs) ≡ drop i ys ++ zs
  drop-append_le zero ys zs h = refl
  drop-append_le (suc i) [] zs h = absurd (omega arith)
  drop-append_le (suc i) (y ∷ ys) zs h = drop-append_le i ys zs (omega arith)

  drop-take : (i n k : ℕ) (xs : List A) → k ≡ i + n → drop i (take k xs) ≡ take n (drop i xs)
  drop-take zero n k xs h = ap (λ t. take t xs) (omega arith)
  drop-take (suc i) n zero xs h = absurd (omega arith)
  drop-take (suc i) zero (suc k) [] h = refl
  drop-take (suc i) (suc n) (suc k) [] h = refl
  drop-take (suc i) n (suc k) (x ∷ xs) h = drop-take i n k xs (omega arith)

  drop-drop : (i j k : ℕ) (xs : List A) → k ≡ i + j → drop i (drop j xs) ≡ drop k xs
  drop-drop i zero k xs h = ap (λ t. drop t xs) (omega arith)
  drop-drop i (suc j) zero xs h = absurd (omega arith)
  drop-drop zero (suc j) (suc k) [] h = refl
  drop-drop (suc i) (suc j) (suc k) [] h = refl
  drop-drop i (suc j) (suc k) (x ∷ xs) h = drop-drop i j k xs (omega arith)

  window-splice_self :
      (i n j : ℕ) (xs ys : List A)
      → length ys ≡ n
      → j ≡ i + n
      → j ≤ length xs
      → window i n (splice i ys j xs) ≡ ys
  window-splice_self i n j xs ys h e le =
      rw (drop-append_ge i 0 (take i xs) (ys ++ drop j xs) (omega (arith, length-take i xs)))
        (take-append_length n ys (drop j xs) h)

  window-splice_after :
      (i n j k : ℕ) (xs ys : List A)
      → length ys ≡ n
      → j ≡ i + n
      → j ≤ length xs
      → j ≤ k
      → window k n (splice i ys j xs) ≡ window k n xs
  window-splice_after i n j k xs ys h e le after = rw (
    drop-append_ge k (k - i) (take i xs) (ys ++ drop j xs) (omega (arith, length-take i xs)),
    drop-append_ge (k - i) (k - j) ys (drop j xs) (omega arith),
    drop-drop (k - j) j k xs (omega arith),
  )

  window-splice_before :
      (i n j k : ℕ) (xs ys : List A)
      → length ys ≡ n
      → j ≡ i + n
      → j ≤ length xs
      → k + n ≤ i
      → window k n (splice i ys j xs) ≡ window k n xs
  window-splice_before i n j k xs ys h e le before = rw (
    drop-append_le k (take i xs) (ys ++ drop j xs) (omega (arith, length-take i xs)),
    drop-take k (i - k) i xs (omega arith),
    take-append_le n (take (i - k) (drop k xs)) (ys ++ drop j xs)
        (omega (arith, length-take (i - k) (drop k xs), length-drop k xs)),
    take-take_le n (i - k) (drop k xs) (omega arith),
  )

-- A brick's bytes are as many as its pieces need.
abbrev pub IsWhole : MemBrick → Type 0
IsWhole m = length m.alloc_bytes ≡ length m.alloc_piece_index * m.each_size

-- A row of a table is inside it.
pub row_fits : (i c s : ℕ) → i < c → i * s + s ≤ c * s
row_fits i c s h = grind arith

module _ (m : MemBrick) (i : ℕ) (bytes : List ℕ) (w : IsWhole m)
    (hi : i < length m.alloc_piece_index) (h : length bytes ≡ m.each_size) where
  pub length-store_mem : length (store_mem m i bytes).alloc_bytes ≡ length m.alloc_bytes
  unfolding store_mem
  length-store_mem = omega (
    arith,
    row_fits i (length m.alloc_piece_index) m.each_size hi,
    length-append (take (i * m.each_size) m.alloc_bytes)
        (bytes ++ drop (i * m.each_size + m.each_size) m.alloc_bytes),
    length-append bytes (drop (i * m.each_size + m.each_size) m.alloc_bytes),
    length-take (i * m.each_size) m.alloc_bytes,
    length-drop (i * m.each_size + m.each_size) m.alloc_bytes,
  )

  each_size-store_mem : (store_mem m i bytes).each_size ≡ m.each_size
  unfolding store_mem
  each_size-store_mem = refl

  window-store_mem :
      (j : ℕ)
      → (window (i * m.each_size) m.each_size (store_mem m i bytes).alloc_bytes ≡ bytes)
        × (i ≢ j
            → window (j * m.each_size) m.each_size (store_mem m i bytes).alloc_bytes
              ≡ window (j * m.each_size) m.each_size m.alloc_bytes)
  unfolding store_mem
  window-store_mem j =
      (window-splice_self (i * s) s (i * s + s) m.alloc_bytes bytes h refl fits, other)
    where
      s : ℕ
      s = m.each_size

      fits : i * m.each_size + m.each_size ≤ length m.alloc_bytes
      fits = omega (arith, row_fits i (length m.alloc_piece_index) m.each_size hi)

      other :
          i ≢ j
          → window (j * m.each_size) m.each_size (store_mem m i bytes).alloc_bytes
            ≡ window (j * m.each_size) m.each_size m.alloc_bytes
      other ne = elim (dec_lt i j) [
        | yes lt ↦
            window-splice_after (i * s) s (i * s + s) (j * s) m.alloc_bytes bytes h refl fits
              (row_fits i j m.each_size lt)
        | no ge ↦
            window-splice_before (i * s) s (i * s + s) (j * s) m.alloc_bytes bytes h refl fits
              (row_fits j i m.each_size (omega arith))
      ]

  -- Writing the slice of one piece and then loading a piece gives what was written, if it is the
  -- same piece, and else what was there before: the slices of two pieces share no byte.
  pub load_mem-store_mem :
      (j : ℕ)
      → j < length m.alloc_piece_index
      → load_mem (store_mem m i bytes) j
        ≡ (if i == j then some (bytes, m.each_size) else load_mem m j)
  unfolding load_mem
  load_mem-store_mem j hj = ground (
    arith,
    window-store_mem j,
    length-store_mem,
    each_size-store_mem,
    row_fits i (length m.alloc_piece_index) m.each_size hi,
    row_fits j (length m.alloc_piece_index) m.each_size hj,
  )
