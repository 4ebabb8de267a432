-- ===== src/Bytes/Copy.antt =====
-- What the copying loop that the parsers share leaves.
use gitee_fork_gateway.Prelude.{
  ℕ, zero, suc, ◌+◌, ◌≤◌, ◌<◌, ◌≡◌, refl, ◌∙◌, true, false, none, some, List, length, get_elem?,
  set, take, drop, ltb, leb, ◌&&◌, if◌then◌else◌, arith, get_elem?_lt, get_elem?_ext,
  get_elem?-drop, length-set,
}
use native.Mathlib.Decide.{dec_lt}
use gitee_fork_gateway.Bytes.Slices.{get_elem?-set, get_elem?-take}
use gitee_fork_gateway.Bytes.{copy_loop}

-- `r` has the bytes of `src` from `i` to `i + n`, and those of `dst` elsewhere.
abbrev Copied : ℕ → ℕ → List ℕ → List ℕ → List ℕ → Type 0
Copied n i src dst r =
    (length r ≡ length dst)
    × ((k : ℕ)
        → get_elem? r k ≡ (if leb i k && ltb k (i + n) then get_elem? src k else get_elem? dst k))

copy_loop-Copied :
    (n i : ℕ) (src dst : List ℕ)
    → i + n ≤ length src
    → i + n ≤ length dst
    → (r : List ℕ) × (copy_loop n i src dst ≡ some r) × Copied n i src dst r
unfolding copy_loop
copy_loop-Copied zero i src dst h h' = (dst, refl, (refl, λ k. ground arith))
copy_loop-Copied (suc n) i src dst h h' =
    let (v, ev) = get_elem?_lt src i (omega arith) in
    let (r, er, (l, g)) =
      copy_loop-Copied n (i + 1) src (set dst i v) (omega arith)
        (omega (arith, length-set dst i v)) in
    let t : ltb i (length dst) ≡ true = ground arith in
    (
      r,
      (rw (ev, t) er),
      (
        l ∙ length-set dst i v,
        λ k. let gk = g k in let s = get_elem?-set dst i k v (omega arith) in ground arith,
      ),
    )

-- The loop from 0 copies the first `n` bytes and leaves the others.
pub copy_loop_lem :
    (n : ℕ) (src dst : List ℕ)
    → n ≤ length src
    → n ≤ length dst
    → (r : List ℕ) × (copy_loop n 0 src dst ≡ some r)
      × (length r ≡ length dst)
      × (take n r ≡ take n src)
      × (drop n r ≡ drop n dst)
copy_loop_lem n src dst h h' =
    let (r, e, (l, g)) = copy_loop-Copied n 0 src dst (omega arith) (omega arith) in
    (
      r,
      e,
      l,
      get_elem?_ext (take n r) (take n src) (λ k.
          let gk = g k in
          let a = get_elem?-take n r k in let b = get_elem?-take n src k in ground arith),
      get_elem?_ext (drop n r) (drop n dst) (λ k.
          let gk = g (n + k) in rw (get_elem?-drop n r k, get_elem?-drop n dst k) ground arith),
    )

-- Past the end of the destination the loop panics.
pub copy_loop-none :
    (n i : ℕ) (src dst : List ℕ)
    → i + n ≤ length src
    → i ≤ length dst
    → length dst < i + n
    → copy_loop n i src dst ≡ none
unfolding copy_loop
copy_loop-none zero i src dst h h' l = absurd (omega arith)
copy_loop-none (suc n) i src dst h h' l =
    let (v, ev) = get_elem?_lt src i (omega arith) in
    elim (dec_lt i (length dst)) [
      | yes p ↦
          (let t : ltb i (length dst) ≡ true = ground arith in
            let e = length-set dst i v in
            rw (ev, t)
              (copy_loop-none n (i + 1) src (set dst i v) (omega arith) (omega arith)
                (omega arith)))
      | no p ↦ (let t : ltb i (length dst) ≡ false = ground arith in rw (ev, t) refl)
    ]
