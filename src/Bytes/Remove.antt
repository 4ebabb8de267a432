-- ===== src/Bytes/Remove.antt =====
-- `removeBytes` and `trimLeft` of new/main.go: a copy to the left within the same slice.
use gitee_fork_gateway.Prelude.{
  ℕ, zero, suc, ◌+◌, ◌-◌, ◌≤◌, ◌<◌, ◌≡◌, refl, ap, ◌∙◌, Option, some, List, [], ◌∷◌, ◌++◌, length,
  get_elem?, set, take, drop, ltb, ◌==◌, if◌then◌else◌, arith, get_elem?_lt, get_elem?_ext,
  get_elem?-drop, length-set, length-take, length-drop, Bool-cases, inl, inr,
}
use native.Mathlib.Decide.{dec_lt}
use gitee_fork_gateway.Bytes.Slices.{get_elem?-set, get_elem?-take, get_elem?-append}
use gitee_fork_gateway.Bytes.{remove_loop, remove_bytes, trim_loop, trim_left}

-- What stands at `k` once the bytes from `i + sub` on have moved to `i`.
abbrev moved : ℕ → ℕ → ℕ → List ℕ → ℕ → Option ℕ
moved i size sub src k =
    if ltb k i
    then get_elem? src k
    else if ltb k (size - sub)
    then get_elem? src (k + sub)
    else get_elem? src k

-- `dst` is `src` with the bytes from `i + sub` to `size` moved to `i`.
abbrev Moved : ℕ → ℕ → ℕ → List ℕ → List ℕ → Type 0
Moved i size sub src dst =
    (length dst ≡ length src) × ((k : ℕ) → get_elem? dst k ≡ moved i size sub src k)

remove_loop-Moved :
    (rounds i size sub : ℕ) (src : List ℕ)
    → rounds + i ≡ size
    → size ≤ length src
    → (dst : List ℕ) × (remove_loop rounds i src size sub ≡ some dst) × Moved i size sub src dst
unfolding remove_loop
remove_loop-Moved zero i size sub src e h = (src, refl, (refl, λ k. ground arith))
remove_loop-Moved (suc rounds) i size sub src e h = elim (dec_lt i (size - sub)) [
  | yes p ↦
      (let (v, ev) = get_elem?_lt src (i + sub) (omega arith) in
        let (dst, ed, (el, g)) =
          remove_loop-Moved rounds (i + 1) size sub (set src i v) (omega arith)
            (omega (arith, length-set src i v)) in
        (
          dst,
          ground arith,
          (
            el ∙ length-set src i v,
            λ k.
                let gk = g k in
                let s0 = get_elem?-set src i k v (omega arith) in
                let s1 = get_elem?-set src i (k + sub) v (omega arith) in ground arith,
          ),
        ))
  | no p ↦
      (let (dst, ed, (el, g)) = remove_loop-Moved rounds (i + 1) size sub src (omega arith) h in
        (dst, ground arith, (el, λ k. let gk = g k in ground arith)))
]

-- The window that the two calls leave in front.
Moved-take :
    (i size sub : ℕ) (src dst : List ℕ)
    → Moved i size sub src dst
    → i + sub ≤ size
    → size ≤ length src
    → take (size - sub) dst ≡ take i src ++ drop (i + sub) (take size src)
Moved-take i size sub src dst (el, g) h h' =
    get_elem?_ext (take (size - sub) dst) (take i src ++ drop (i + sub) (take size src)) (λ k.
      let gk = g k in
      let t0 = get_elem?-take (size - sub) dst k in
      let l : length (take i src) ≡ i = omega (arith, length-take i src) in
      let t1 = get_elem?-append (take i src) (drop (i + sub) (take size src)) k in
      let t2 = get_elem?-take i src k in
      let t3 = get_elem?-drop (i + sub) (take size src) (k - length (take i src)) in
      let t4 = get_elem?-take size src (i + sub + (k - length (take i src))) in
      elim (dec_lt k i) [
        | yes p ↦ (rw (t0, t1, l, t2) ground arith)
        | no p ↦
            (let x : i + sub + (k - i) ≡ k + sub = omega arith in
              rw (t0, t1, t3, t4, l, x) ground arith)
      ])

-- `removeBytes` does not panic, keeps the slice's length, and leaves in front what was before and
-- behind the bytes that it removes; what was behind `src_size` stays where it was.
pub remove_bytes_lem :
    (src : List ℕ) (index src_size sub_size : ℕ)
    → index + sub_size ≤ src_size
    → src_size ≤ length src
    → (dst : List ℕ) × (remove_bytes src index src_size sub_size ≡ some dst)
      × (length dst ≡ length src)
      × (take (src_size - sub_size) dst
          ≡ take index src ++ drop (index + sub_size) (take src_size src))
unfolding remove_bytes
remove_bytes_lem src index src_size sub_size h h' =
    let (dst, e, m) =
      remove_loop-Moved (src_size - index) index src_size sub_size src (omega arith) h' in
    (dst, e, m.0, Moved-take index src_size sub_size src dst m h h')

-- The bytes from the first one that is not `ch` on.
unfoldable pub drop_while : ℕ → List ℕ → List ℕ
drop_while ch [] = []
drop_while ch (x ∷ xs) = let rest = drop_while ch xs in if x == ch then rest else x ∷ xs

-- The loop counts the bytes that `drop_while` leaves out.
trim_loop-drop :
    (rounds i m : ℕ) (src : List ℕ) (ch : ℕ) (text : List ℕ)
    → rounds ≡ length text
    → ((k : ℕ) → k < rounds → get_elem? src (i + k) ≡ get_elem? text k)
    → (n : ℕ) × (trim_loop rounds i src ch m ≡ some (m + n))
      × (n ≤ rounds)
      × (drop n text ≡ drop_while ch text)
unfolding trim_loop drop_while
trim_loop-drop zero i m src ch [] e et = (0, ground arith, omega arith, refl)
trim_loop-drop zero i m src ch (x ∷ text) e et = absurd (omega arith)
trim_loop-drop (suc rounds) i m src ch [] e et = absurd (omega arith)
trim_loop-drop (suc rounds) i m src ch (x ∷ text) e et =
    let (n, en, le, d) =
      trim_loop-drop rounds (i + 1) (m + 1) src ch text (omega arith)
        (λ k h. ap (get_elem? src) (omega arith) ∙ et (suc k) (omega arith)) in
    let i0 : i ≡ i + 0 = omega arith in
    let here : get_elem? src i ≡ some x = ap (get_elem? src) i0 ∙ et 0 (omega arith) in
    elim (Bool-cases (x == ch)) [
      | inl y ↦
          (let z : m + 1 + n ≡ m + suc n = omega arith in
            (suc n, (rw (here, y, en, z) refl), omega arith, (rw y d)))
      | inr y ↦ (0, (rw (here, y) ground arith), omega arith, (rw y refl))
    ]

-- `trimLeft` does not panic; the length that it returns and the bytes in front are those of the
-- buffer's first `src_len` bytes without the leading ones that are `ch`.
pub trim_left_lem :
    (src : List ℕ) (src_len ch : ℕ)
    → src_len ≤ length src
    → (n : ℕ) × (dst : List ℕ) × (trim_left src src_len ch ≡ some (n, dst))
      × (length dst ≡ length src)
      × (take n dst ≡ drop_while ch (take src_len src))
      × (n ≡ length (drop_while ch (take src_len src)))
unfolding trim_left
trim_left_lem src src_len ch h =
    let l = length-take src_len src in
    let (m, em, le, d) =
      trim_loop-drop src_len 0 0 src ch (take src_len src) (omega arith)
        (λ k h'. let t = get_elem?-take src_len src k in ground arith) in
    let e : trim_loop src_len 0 src ch 0 ≡ some m = em ∙ ap some (omega arith) in
    let (dst, ed, el, t) = remove_bytes_lem src 0 src_len m (omega arith) h in
    let d' : take (src_len - m) dst ≡ drop_while ch (take src_len src) =
      t ∙ ap (λ k. drop k (take src_len src)) (omega arith) ∙ d in
    let e' : trim_left src src_len ch ≡ some (src_len - m, dst) = rw (e, ed) refl in
    let n : src_len - m ≡ length (drop_while ch (take src_len src)) =
      omega (arith, length-drop m (take src_len src), ap length d) in
    (src_len - m, dst, e', el, d', n)
