-- ===== src/Bytes/Search.antt =====
-- `contains` of new/main.go finds the first place of a pattern.
use gitee_fork_gateway.Prelude.{
  ℕ, zero, suc, ◌+◌, ◌-◌, ◌≤◌, ◌<◌, ◌≡◌, refl, ap, ◌∙◌, Bool, true, false, ◌&&◌, Option, none, some,
  List, [], ◌∷◌, length, get_elem?, take, drop, ◌==◌, if◌then◌else◌, ◌>>=◌, arith, get_elem?_lt,
  drop-get_elem?, length-drop, length-take,
}
use native.Mathlib.Decide.{dec_lt}
use gitee_fork_gateway.Bytes.Slices.{get_elem?-take}
use gitee_fork_gateway.Bytes.{match_loop, contains_loop, contains}

-- Does the text start with the pattern?
unfoldable pub starts : List ℕ → List ℕ → Bool
starts [] ys = true
starts (x ∷ xs) [] = false
starts (x ∷ xs) (y ∷ ys) = (y == x) && starts xs ys

abbrev shift : Option ℕ → Option ℕ
shift none = none
shift (some i) = some (suc i)

-- The first place in the text at which the pattern stands.
unfoldable pub find : List ℕ → List ℕ → Option ℕ
unfolding starts
find xs [] = if starts xs [] then some 0 else none
find xs (y ∷ ys) = let rest = find xs ys in if starts xs (y ∷ ys) then some 0 else shift rest

-- The answer for a place found from `i` on.
abbrev pub answer : ℕ → Option ℕ → Bool × ℕ
answer i none = (false, 0)
answer i (some k) = (true, i + k)

starts_short : (xs ys : List ℕ) → length ys < length xs → starts xs ys ≡ false
unfolding starts
starts_short [] ys h = absurd (omega arith)
starts_short (x ∷ xs) [] h = refl
starts_short (x ∷ xs) (y ∷ ys) h = ground (arith, starts_short xs ys (omega arith))

pub find_short : (xs ys : List ℕ) → length ys < length xs → find xs ys ≡ none
unfolding find
find_short xs [] h = rw (starts_short xs [] h) refl
find_short xs (y ∷ ys) h =
    ground (arith, starts_short xs (y ∷ ys) h, find_short xs ys (omega arith))

drop_all : (xs : List ℕ) (n : ℕ) → length xs ≤ n → drop n xs ≡ []
drop_all [] zero h = refl
drop_all [] (suc n) h = refl
drop_all (x ∷ xs) zero h = absurd (omega arith)
drop_all (x ∷ xs) (suc n) h = drop_all xs n (omega arith)

if-and : (a b : Bool) → ◌≡◌ {A = Option Bool} (if a then some b else some false) (some (a && b))
if-and true b = refl
if-and false b = refl

step_answer :
    (i : ℕ) (d s : Bool) (o : Option ℕ)
    → ◌≡◌ {A = Option (Bool × ℕ)}
        ((if d then some s else some false) >>= λ ret.
          if ret then some (true, i) else some (answer (i + 1) o))
        (some (answer i (if d && s then some 0 else shift o)))
step_answer i true true o = ground arith
step_answer i true false none = refl
step_answer i true false (some k) = ground arith
step_answer i false s none = refl
step_answer i false s (some k) = ground arith

-- `text` is the part of the buffer `src` that is searched.
module _ (src substr text : List ℕ) (text_len : ℕ) (prefix : text ≡ take text_len src) where
  get_elem?-text : (i : ℕ) → i < text_len → get_elem? src i ≡ get_elem? text i
  get_elem?-text i h = rw prefix (ground (arith, get_elem?-take text_len src i))

  match_loop-starts :
      (rounds i j : ℕ)
      → rounds + j ≡ length substr
      → i + length substr ≤ text_len
      → i + length substr ≤ length text
      → match_loop rounds i j src substr ≡ some (starts (drop j substr) (drop (i + j) text))
  unfolding match_loop starts
  match_loop-starts zero i j e h h' = let d = drop_all substr j (omega arith) in rw d refl
  match_loop-starts (suc rounds) i j e h h' =
      let (a, ea) = get_elem?_lt text (i + j) (omega arith) in
      let (b, eb) = get_elem?_lt substr j (omega arith) in
      let da = drop-get_elem? text (i + j) a ea in
      let db = drop-get_elem? substr j b eb in
      let es = get_elem?-text (i + j) (omega arith) in
      let rest = match_loop-starts rounds i (j + 1) (omega arith) h h' in
      let dx : drop (i + (j + 1)) text ≡ drop (i + j + 1) text =
        ap (λ n. drop n text) (omega arith) in
      rw (es ∙ ea, eb, da, db, rest, dx)
        (if-and (a == b) (starts (drop (j + 1) substr) (drop (i + j + 1) text)))

module _ (src : List ℕ) (b : ℕ) (bs text : List ℕ) (text_len : ℕ)
    (prefix : text ≡ take text_len src) where
  -- The loop from `i` on answers with the first place from `i` on.
  contains_loop-find :
      (rounds i : ℕ)
      → rounds + i + length (b ∷ bs) ≡ text_len + 1
      → length text ≡ text_len
      → contains_loop rounds i src (b ∷ bs) (length (b ∷ bs))
        ≡ some (answer i (find (b ∷ bs) (drop i text)))
  unfolding contains_loop find starts
  contains_loop-find zero i e h =
      let n = find_short (b ∷ bs) (drop i text) (omega (arith, length-drop i text)) in rw n refl
  contains_loop-find (suc rounds) i e h =
      let (a, ea) = get_elem?_lt text i (omega arith) in
      let da = drop-get_elem? text i a ea in
      let es = get_elem?-text src (b ∷ bs) text text_len prefix i (omega arith) in
      let inner =
        match_loop-starts src (b ∷ bs) text text_len prefix (length bs) i 1 (omega arith)
          (omega arith) (omega arith) in
      let rest = contains_loop-find rounds (i + 1) (omega arith) h in
      let n : suc (length bs) - 1 ≡ length bs = omega arith in
      rw (es ∙ ea, n, inner, rest, da)
        (step_answer i (a == b) (starts bs (drop (i + 1) text)) (find (b ∷ bs) (drop (i + 1) text)))

-- `contains` of a buffer's first `src_len` bytes and a pattern that is not empty does not panic; its
-- answer is the pattern's first place there, or that there is none.
pub contains-find :
    (src : List ℕ) (src_len b : ℕ) (bs : List ℕ)
    → src_len ≤ length src
    → contains src (b ∷ bs) src_len (length (b ∷ bs))
      ≡ some (answer 0 (find (b ∷ bs) (take src_len src)))
unfolding contains
contains-find src src_len b bs h =
    let l = length-take src_len src in
    let short = find_short (b ∷ bs) (take src_len src) in
    let long =
      contains_loop-find src b bs (take src_len src) src_len refl (src_len - length (b ∷ bs) + 1)
        0 in
    elim (dec_lt src_len (length (b ∷ bs))) [
      | yes p ↦ (let e = short (omega (arith, l)) in ground arith)
      | no p ↦ (let e = long (omega arith) (omega (arith, l)) in ground arith)
    ]
