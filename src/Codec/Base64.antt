-- ===== src/Codec/Base64.antt =====
-- The standard base64 of the Go library, as new/mix_base64.go uses it: padding by `=`, and a decoder
-- that passes over line breaks and ends at the first byte that does not fit, with what it has.
use gitee_fork_gateway.Prelude.{
  ℕ, ◌+◌, ◌-◌, ◌*◌, ◌/◌, ◌%◌, ◌<◌, ◌≡◌, refl, ap, ◌∙◌, Bool, ◌&&◌, ◌||◌, Option, none, some, List,
  [], ◌∷◌, ◌++◌, ltb, leb, ◌==◌, if◌then◌else◌, arith,
}

unfoldable pub base64_char : ℕ → ℕ
base64_char i =
    if ltb i 26
    then i + 65
    else if ltb i 52
    then i + 71
    else if ltb i 62
    then i - 4
    else if i == 62
    then 43
    else 47

unfoldable pub base64_value : ℕ → Option ℕ
base64_value c =
    if leb 65 c && leb c 90
    then some (c - 65)
    else if leb 97 c && leb c 122
    then some (c - 71)
    else if leb 48 c && leb c 57
    then some (c + 4)
    else if c == 43
    then some 62
    else if c == 47
    then some 63
    else none

-- Three bytes are four characters; one or two left over are padded by `=`, which is 61.
unfoldable pub base64_encode : List ℕ → List ℕ
unfolding base64_char
base64_encode [] = []
base64_encode (a ∷ []) = base64_char (a / 4) ∷ base64_char (a % 4 * 16) ∷ 61 ∷ 61 ∷ []
base64_encode (a ∷ b ∷ []) =
    base64_char (a / 4) ∷ base64_char (a % 4 * 16 + b / 16) ∷ base64_char (b % 16 * 4) ∷ 61 ∷ []
base64_encode (a ∷ b ∷ c ∷ xs) =
    base64_char (a / 4)
    ∷ base64_char (a % 4 * 16 + b / 16)
    ∷ base64_char (b % 16 * 4 + c / 64)
    ∷ base64_char (c % 64)
    ∷ base64_encode xs

-- What a value adds to the output, and which values wait after it; at most three wait.
unfoldable pub emitted : List ℕ → ℕ → List ℕ
emitted (i ∷ j ∷ k ∷ _) l = (i * 4 + j / 16) ∷ (j % 16 * 16 + k / 4) ∷ (k % 4 * 64 + l) ∷ []
emitted _ l = []

unfoldable pub waiting : List ℕ → ℕ → List ℕ
waiting (i ∷ j ∷ k ∷ _) l = []
waiting p l = p ++ (l ∷ [])

abbrev pub is_break : ℕ → Bool
is_break c = (c == 10) || (c == 13)

-- Does a second `=` follow, past line breaks?
unfoldable pub padded : List ℕ → Bool
padded [] = Bool.false
padded (c ∷ cs) = let rest = padded cs in if is_break c then rest else c == 61

-- What `=` adds, by the values that wait.
unfoldable pub at_padding : List ℕ → List ℕ → List ℕ
unfolding padded
at_padding (i ∷ j ∷ []) cs = if padded cs then (i * 4 + j / 16) ∷ [] else []
at_padding (i ∷ j ∷ k ∷ []) cs = (i * 4 + j / 16) ∷ (j % 16 * 16 + k / 4) ∷ []
at_padding _ cs = []

unfoldable pub advance : List ℕ → Option ℕ → List ℕ
advance p none = p
advance p (some l) = waiting p l

-- The output from a byte on, by its value and the output from the next byte on.
unfoldable pub decode_byte : List ℕ → ℕ → List ℕ → List ℕ → Option ℕ → List ℕ
decode_byte p c cs rest none = if is_break c then rest else if c == 61 then at_padding p cs else []
decode_byte p c cs rest (some l) = emitted p l ++ rest

unfoldable pub decode_from : List ℕ → List ℕ → List ℕ
decode_from p [] = []
decode_from p (c ∷ cs) =
    decode_byte p c cs (decode_from (advance p (base64_value c)) cs) (base64_value c)

unfoldable pub base64_decode : List ℕ → List ℕ
unfolding decode_from decode_byte advance base64_value emitted waiting at_padding
base64_decode cs = decode_from [] cs

base64_value-base64_char : (i : ℕ) → i < 64 → base64_value (base64_char i) ≡ some i
unfolding base64_value base64_char
base64_value-base64_char i h = ground arith

decode_char :
    (p : List ℕ) (i : ℕ) (cs : List ℕ)
    → i < 64
    → decode_from p (base64_char i ∷ cs) ≡ emitted p i ++ decode_from (waiting p i) cs
unfolding decode_from decode_byte advance
decode_char p i cs h = rw (base64_value-base64_char i h) refl

abbrev pub AllBytes : List ℕ → Type 0
AllBytes [] = Unit {0}
AllBytes (x ∷ xs) = (x < 256) × AllBytes xs

-- Four characters are three bytes.
decode_four :
    (i j k l : ℕ) (cs : List ℕ)
    → i < 64
    → j < 64
    → k < 64
    → l < 64
    → decode_from [] (base64_char i ∷ base64_char j ∷ base64_char k ∷ base64_char l ∷ cs)
      ≡ (i * 4 + j / 16) ∷ (j % 16 * 16 + k / 4) ∷ (k % 4 * 64 + l) ∷ decode_from [] cs
unfolding emitted waiting
decode_four i j k l cs hi hj hk hl =
    decode_char [] i (base64_char j ∷ base64_char k ∷ base64_char l ∷ cs) hi
    ∙ decode_char (i ∷ []) j (base64_char k ∷ base64_char l ∷ cs) hj
    ∙ decode_char (i ∷ j ∷ []) k (base64_char l ∷ cs) hk
    ∙ decode_char (i ∷ j ∷ k ∷ []) l cs hl

-- The end of a text that is padded.
decode_padding : (p cs : List ℕ) → decode_from p (61 ∷ cs) ≡ at_padding p cs
unfolding decode_from decode_byte base64_value
decode_padding p cs = refl

-- Decoding what was encoded gives the bytes back.
pub base64_decode-base64_encode :
    (xs : List ℕ) → AllBytes xs → decode_from [] (base64_encode xs) ≡ xs
unfolding base64_encode emitted waiting at_padding padded
base64_decode-base64_encode [] h = (unfold decode_from in refl)
base64_decode-base64_encode (a ∷ []) (ha, h) =
    decode_char [] (a / 4) (base64_char (a % 4 * 16) ∷ 61 ∷ 61 ∷ []) (omega arith)
    ∙ decode_char (a / 4 ∷ []) (a % 4 * 16) (61 ∷ 61 ∷ []) (omega arith)
    ∙ decode_padding (a / 4 ∷ (a % 4 * 16) ∷ []) (61 ∷ [])
    ∙ ap (λ z. z ∷ []) (omega arith)
base64_decode-base64_encode (a ∷ b ∷ []) (ha, (hb, h)) =
    decode_char [] (a / 4) (base64_char (a % 4 * 16 + b / 16) ∷ base64_char (b % 16 * 4) ∷ 61 ∷ [])
      (omega arith)
    ∙ decode_char (a / 4 ∷ []) (a % 4 * 16 + b / 16) (base64_char (b % 16 * 4) ∷ 61 ∷ [])
        (omega arith)
    ∙ decode_char (a / 4 ∷ (a % 4 * 16 + b / 16) ∷ []) (b % 16 * 4) (61 ∷ []) (omega arith)
    ∙ decode_padding (a / 4 ∷ (a % 4 * 16 + b / 16) ∷ b % 16 * 4 ∷ []) []
    ∙ (let x : a / 4 * 4 + (a % 4 * 16 + b / 16) / 16 ≡ a = omega arith in
        let y : (a % 4 * 16 + b / 16) % 16 * 16 + b % 16 * 4 / 4 ≡ b = omega arith in
        rw (x, y) refl)
base64_decode-base64_encode (a ∷ b ∷ c ∷ xs) (ha, (hb, (hc, hs))) =
    let ih = base64_decode-base64_encode xs hs in
    let f =
      decode_four (a / 4) (a % 4 * 16 + b / 16) (b % 16 * 4 + c / 64) (c % 64) (base64_encode xs)
        (omega arith) (omega arith) (omega arith) (omega arith) in
    let x : a / 4 * 4 + (a % 4 * 16 + b / 16) / 16 ≡ a = omega arith in
    let y : (a % 4 * 16 + b / 16) % 16 * 16 + (b % 16 * 4 + c / 64) / 4 ≡ b = omega arith in
    let z : (b % 16 * 4 + c / 64) % 4 * 64 + c % 64 ≡ c = omega arith in f ∙ (rw (x, y, z, ih) refl)
