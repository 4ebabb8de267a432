-- ===== src/Parser/Beats.antt =====
-- The parser removes every heartbeat from the text that it has decrypted.
use gitee_fork_gateway.Prelude.{
  ℕ, zero, suc, ◌+◌, ◌-◌, ◌≤◌, ◌≡◌, refl, sym, ap, ◌∙◌, Bool, true, false, none, some, List, [],
  ◌∷◌, ◌++◌, length, take, drop, arith, length-append, length-drop, length-take, take-take_le,
  Option-cases, Bool-cases, inl, inr,
}
use gitee_fork_gateway.Bytes.{contains, remove_bytes}
use gitee_fork_gateway.Bytes.Search.{find, starts, answer, contains-find, find_short}
use gitee_fork_gateway.Bytes.Remove.{remove_bytes_lem}
use gitee_fork_gateway.Parser.{strip}

-- The text without the pattern's first place, as often as it is found, `rounds` times at most, and
-- whether it was found.
unfoldable pub without : ℕ → List ℕ → List ℕ → Bool → List ℕ × Bool
unfolding find
without zero pattern text seen = (text, seen)
without (suc rounds) pattern text seen = elim (find pattern text) [
  | none ↦ (text, seen)
  | some i ↦ without rounds pattern (take i text ++ drop (i + length pattern) text) true
]

starts_long : (xs ys : List ℕ) → starts xs ys ≡ true → length xs ≤ length ys
unfolding starts
starts_long [] ys h = omega arith
starts_long (x ∷ xs) [] h = ground arith
starts_long (x ∷ xs) (y ∷ ys) h = elim (Bool-cases (starts xs ys)) [
  | inl e ↦ (let r = starts_long xs ys e in omega arith)
  | inr e ↦ absurd (ground arith)
]

-- A place that is found is within the text.
find_bounds : (xs ys : List ℕ) (i : ℕ) → find xs ys ≡ some i → i + length xs ≤ length ys
unfolding find
find_bounds xs [] i h = elim (Bool-cases (starts xs [])) [
  | inl e ↦ (let r = starts_long xs [] e in ground arith)
  | inr e ↦ absurd (ground arith)
]
find_bounds xs (y ∷ ys) i h = elim (Bool-cases (starts xs (y ∷ ys))) [
  | inl e ↦ (let r = starts_long xs (y ∷ ys) e in ground arith)
  | inr e ↦ elim (Option-cases (find xs ys)) [
    | inl f ↦ absurd (ground arith)
    | inr (k, f) ↦ (let r = find_bounds xs ys k f in ground arith)
  ]
]

strip_found :
    (rounds : ℕ) (alive cdt cdt' : List ℕ) (dlen i : ℕ) (beat : Bool)
    → contains cdt alive dlen (length alive) ≡ some (true, i)
    → remove_bytes cdt i dlen (length alive) ≡ some cdt'
    → strip (suc rounds) alive cdt dlen beat ≡ strip rounds alive cdt' (dlen - length alive) true
unfolding strip
strip_found rounds alive cdt cdt' dlen i beat c r = rw (c, r) refl

without_found :
    (rounds : ℕ) (pattern text rest : List ℕ) (i : ℕ) (seen : Bool)
    → find pattern text ≡ some i
    → rest ≡ take i text ++ drop (i + length pattern) text
    → without (suc rounds) pattern text seen ≡ without rounds pattern rest true
unfolding without
without_found rounds pattern text rest i seen f e = rw (e, f, without) refl

strip-without :
    (rounds b : ℕ) (bs cdt : List ℕ) (dlen : ℕ) (beat : Bool)
    → dlen ≤ length cdt
    → (cdt' : List ℕ) × (dlen' : ℕ) × (strip rounds (b ∷ bs) cdt dlen beat
        ≡ some (cdt', dlen', (without rounds (b ∷ bs) (take dlen cdt) beat).1))
      × (take dlen' cdt' ≡ (without rounds (b ∷ bs) (take dlen cdt) beat).0)
      × (length cdt' ≡ length cdt)
      × (dlen' ≤ dlen)
unfolding strip without
strip-without zero b bs cdt dlen beat h = (cdt, dlen, refl, refl, refl, omega arith)
strip-without (suc rounds) b bs cdt dlen beat h =
    let c = contains-find cdt dlen b bs h in
    elim (Option-cases (find (b ∷ bs) (take dlen cdt))) [
      | inl e ↦ (cdt, dlen, (rw (c, e, without) refl), (rw (without, e) refl), refl, omega arith)
      | inr (i, e) ↦
          (let l = length-take dlen cdt in
            let k = find_bounds (b ∷ bs) (take dlen cdt) i e in
            let (cdt1, e1, l1, t1) =
              remove_bytes_lem cdt i dlen (length (b ∷ bs)) (omega arith) h in
            let (cdt2, dlen2, e2, t2, l2, le2) =
              strip-without rounds b bs cdt1 (dlen - length (b ∷ bs)) true (omega arith) in
            let c' : contains cdt (b ∷ bs) dlen (length (b ∷ bs)) ≡ some (true, i) =
              c ∙ ap (λ o. some (answer 0 o)) e ∙ ap (λ z. some (true, z)) (omega arith) in
            let s = strip_found rounds (b ∷ bs) cdt cdt1 dlen i beat c' e1 in
            let x =
              t1
              ∙ ap (λ z. z ++ drop (i + length (b ∷ bs)) (take dlen cdt))
                  (sym (take-take_le i dlen cdt (omega arith))) in
            let w =
              without_found rounds (b ∷ bs) (take dlen cdt) (take (dlen - length (b ∷ bs)) cdt1) i
                beat e x in
            (
              cdt2,
              dlen2,
              s ∙ e2 ∙ ap (λ z. some (cdt2, dlen2, z.1)) (sym w),
              t2 ∙ ap (λ z. z.0) (sym w),
              l2 ∙ l1,
              omega arith,
            ))
    ]

-- As many rounds as the text has bytes leave none of the pattern's places.
find-without :
    (rounds b : ℕ) (bs text : List ℕ) (seen : Bool)
    → length text ≤ rounds
    → find (b ∷ bs) (without rounds (b ∷ bs) text seen).0 ≡ none
unfolding without
find-without zero b bs text seen h = find_short (b ∷ bs) text (omega arith)
find-without (suc rounds) b bs text seen h = elim (Option-cases (find (b ∷ bs) text)) [
  | inl e ↦ (rw (e, without) e)
  | inr (i, e) ↦
      (let k = find_bounds (b ∷ bs) text i e in
        let rest = take i text ++ drop (i + length (b ∷ bs)) text in
        let l : length rest ≤ rounds = omega (
          arith,
          length-append (take i text) (drop (i + length (b ∷ bs)) text),
          length-take i text,
          length-drop (i + length (b ∷ bs)) text,
        ) in
        let w = without_found rounds (b ∷ bs) text rest i seen e refl in
        ap (λ z. find (b ∷ bs) z.0) w ∙ find-without rounds b bs rest true l)
]

-- For a heartbeat that is not empty and a text that lies within its slice the parser's loop does not
-- panic, and as many rounds as the text has bytes, or more, are enough for it: no heartbeat is left, and what is left is the text without its
-- heartbeats, each removed at its first place, in turn.
pub strip_lem :
    (rounds b : ℕ) (bs cdt : List ℕ) (dlen : ℕ)
    → dlen ≤ rounds
    → dlen ≤ length cdt
    → (cdt' : List ℕ) × (dlen' : ℕ) × (strip rounds (b ∷ bs) cdt dlen false
        ≡ some (cdt', dlen', (without rounds (b ∷ bs) (take dlen cdt) false).1))
      × (take dlen' cdt' ≡ (without rounds (b ∷ bs) (take dlen cdt) false).0)
      × (length cdt' ≡ length cdt)
      × (dlen' ≤ dlen)
      × (find (b ∷ bs) (take dlen' cdt') ≡ none)
strip_lem rounds b bs cdt dlen enough h =
    let (cdt', dlen', e, t, l, le) = strip-without rounds b bs cdt dlen false h in
    let f = find-without rounds b bs (take dlen cdt) false (omega (arith, length-take dlen cdt)) in
    (cdt', dlen', e, t, l, le, ap (find (b ∷ bs)) t ∙ f)
