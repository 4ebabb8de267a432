-- ===== src/Bytes/Slices.antt =====
-- Reading a slice back after a write, and its parts by index.
use gitee_fork_gateway.Prelude.{
  ℕ, zero, suc, ◌+◌, ◌-◌, ◌<◌, ◌≡◌, none, some, List, [], ◌∷◌, ◌++◌, length, get_elem?, set, take,
  ltb, ◌==◌, if◌then◌else◌, arith,
}

module _ {ℓ} {A : Type ℓ} where
  pub get_elem?-set :
      (xs : List A) (i j : ℕ) (v : A)
      → i < length xs
      → get_elem? (set xs i v) j ≡ (if j == i then some v else get_elem? xs j)
  get_elem?-set [] i j v h = absurd (omega arith)
  get_elem?-set (x ∷ xs) zero zero v h = ground arith
  get_elem?-set (x ∷ xs) zero (suc j) v h = ground arith
  get_elem?-set (x ∷ xs) (suc i) zero v h = ground arith
  get_elem?-set (x ∷ xs) (suc i) (suc j) v h = ground (arith, get_elem?-set xs i j v (omega arith))

  pub get_elem?-take :
      (n : ℕ) (xs : List A) (i : ℕ)
      → get_elem? (take n xs) i ≡ (if ltb i n then get_elem? xs i else none)
  get_elem?-take zero xs i = ground arith
  get_elem?-take (suc n) [] i = ground arith
  get_elem?-take (suc n) (x ∷ xs) zero = ground arith
  get_elem?-take (suc n) (x ∷ xs) (suc i) = ground (arith, get_elem?-take n xs i)

  pub get_elem?-append :
      (xs ys : List A) (i : ℕ)
      → get_elem? (xs ++ ys) i
        ≡ (if ltb i (length xs) then get_elem? xs i else get_elem? ys (i - length xs))
  get_elem?-append [] ys i = ground arith
  get_elem?-append (x ∷ xs) ys zero = ground arith
  get_elem?-append (x ∷ xs) ys (suc i) = ground (arith, get_elem?-append xs ys i)

  -- Behind a prefix, reading and writing are those of the rest.
  pub get_elem?-append_right :
      (xs ys : List A) (i k : ℕ) → i ≡ length xs + k → get_elem? (xs ++ ys) i ≡ get_elem? ys k
  get_elem?-append_right [] ys i k h = ground arith
  get_elem?-append_right (x ∷ xs) ys zero k h = absurd (omega arith)
  get_elem?-append_right (x ∷ xs) ys (suc i) k h = get_elem?-append_right xs ys i k (omega arith)

  pub set-append_right :
      (xs ys : List A) (i k : ℕ) (v : A) → i ≡ length xs + k → set (xs ++ ys) i v ≡ xs ++ set ys k v
  set-append_right [] ys i k v h = ground arith
  set-append_right (x ∷ xs) ys zero k v h = absurd (omega arith)
  set-append_right (x ∷ xs) ys (suc i) k v h =
      ground (arith, set-append_right xs ys i k v (omega arith))
