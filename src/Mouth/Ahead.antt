-- ===== src/Mouth/Ahead.antt =====
-- Reading ahead: the characters left on the line, and what `^^` notation means on them.
use rus_te_x.Prelude.{
  ℕ, zero, suc, ◌+◌, ◌&&◌, Option, none, some, List, [], ◌∷◌, ◌≡◌, refl, arith, ltb, ◌==◌, ◌>>=◌,
  ◌*◌, ◌%◌, if◌then◌else◌, length, get_elem?, drop,
}
use native.Mathlib.Numerals.{add-one}
use rus_te_x.Mouth.Input.{InputTokenizer, get_char, back}
use rus_te_x.Mouth.Superscript.{digit, is_hex, hex_value, shifted, maybe_superscript}

-- the characters left on the line
abbrev pub ahead : InputTokenizer → List ℕ
ahead t = drop t.col t.current_line

get_elem?-drop_cons :
    (xs : List ℕ) (n : ℕ) {c : ℕ} {cs : List ℕ}
    → drop n xs ≡ c ∷ cs
    → (get_elem? xs n ≡ some c) × (drop (suc n) xs ≡ cs) × (suc n + length cs ≡ length xs)
get_elem?-drop_cons [] zero h = cc
get_elem?-drop_cons [] (suc n) h = cc
get_elem?-drop_cons (x ∷ xs) zero {c} {cs} h = ground arith
get_elem?-drop_cons (x ∷ xs) (suc n) {c} {cs} h =
    let (p, q, r) = get_elem?-drop_cons xs n h in (p, q, omega (arith, r))

get_elem?-drop_nil : (xs : List ℕ) (n : ℕ) → drop n xs ≡ [] → get_elem? xs n ≡ none
get_elem?-drop_nil [] zero h = refl
get_elem?-drop_nil [] (suc n) h = refl
get_elem?-drop_nil (x ∷ xs) zero h = cc
get_elem?-drop_nil (x ∷ xs) (suc n) h = get_elem?-drop_nil xs n h

abbrev pub at_col : InputTokenizer → ℕ → InputTokenizer
at_col t n = record t { col = n }

pub get_char-cons :
    (t : InputTokenizer) {c : ℕ} {cs : List ℕ}
    → ahead t ≡ c ∷ cs
    → get_char t ≡ some (c, at_col t (t.col + 1))
unfolding get_char
get_char-cons t h = rw ((get_elem?-drop_cons t.current_line t.col h).0, get_char) refl

pub get_char-nil : (t : InputTokenizer) → ahead t ≡ [] → get_char t ≡ none
unfolding get_char
get_char-nil t h = rw (get_elem?-drop_nil t.current_line t.col h, get_char) refl

pub ahead-cons :
    (t : InputTokenizer) {c : ℕ} {cs : List ℕ}
    → ahead t ≡ c ∷ cs
    → (ahead (at_col t (t.col + 1)) ≡ cs) × (t.col + 1 + length cs ≡ length t.current_line)
ahead-cons t h =
    let e = get_elem?-drop_cons t.current_line t.col h in (rw add-one e.1, omega (arith, e.2))

-- The place of a character in a list is its value as a digit.
unfoldable pub place_in : ℕ → List ℕ → Option ℕ
place_in x [] = none
place_in x (d ∷ ds) = if x == d then some 0 else (place_in x ds >>= λ n. some (n + 1))

-- the digits, and the letters from `a` to `f`
unfoldable pub digit_of : ℕ → Option ℕ
unfolding place_in
digit_of x =
    place_in x
      (48 ∷ 49 ∷ 50 ∷ 51 ∷ 52 ∷ 53 ∷ 54 ∷ 55 ∷ 56 ∷ 57 ∷ 97 ∷ 98 ∷ 99 ∷ 100 ∷ 101 ∷ 102 ∷ [])

-- Two digits stand for the byte that they write.
unfoldable pub byte_of : Option ℕ → Option ℕ → Option ℕ
byte_of (some m) (some n) = some (16 * m + n)
byte_of _ _ = none

-- An ASCII character stands for the one that is 64 away in the circle of 128.
unfoldable pub opposite : ℕ → Option ℕ × ℕ
opposite x = if ltb x 128 then (some ((x + 64) % 128), 2) else (none, 0)

-- a byte in two digits, else the character `x` alone
unfoldable pub byte_or_opposite : Option ℕ → ℕ → Option ℕ × ℕ
unfolding opposite
byte_or_opposite (some n) x = (some n, 3)
byte_or_opposite none x = opposite x

-- `^^` notation behind a superscript character `sup`, on the characters that follow it: the character
-- that it stands for, and how many characters it takes.
unfoldable pub notation : ℕ → List ℕ → Option ℕ × ℕ
unfolding byte_or_opposite digit_of byte_of
notation sup (c ∷ x ∷ y ∷ rest) =
    if c == sup then byte_or_opposite (byte_of (digit_of x) (digit_of y)) x else (none, 0)
notation sup (c ∷ x ∷ []) = if c == sup then opposite x else (none, 0)
notation sup (c ∷ []) = (none, 0)
notation sup [] = (none, 0)

digit_of_lem : (x : ℕ) → digit_of x ≡ (if is_hex x then some (digit x) else none)
unfolding digit_of place_in is_hex
digit_of_lem x = ground arith

byte_of_lem :
    (x y : ℕ)
    → byte_of (digit_of x) (digit_of y)
      ≡ (if is_hex x && is_hex y then some (hex_value x y) else none)
unfolding byte_of hex_value
byte_of_lem x y = rw (digit_of_lem x, digit_of_lem y) (ground arith)

opposite_lem : (x : ℕ) → opposite x ≡ (if ltb x 128 then (some (shifted x), 2) else (none, 0))
unfolding opposite shifted
opposite_lem x = ground arith

byte_or_opposite_lem :
    (x y : ℕ)
    → byte_or_opposite (byte_of (digit_of x) (digit_of y)) x ≡ (
        if is_hex x && is_hex y
        then (some (hex_value x y), 3)
        else if ltb x 128
        then (some (shifted x), 2)
        else (none, 0))
unfolding byte_or_opposite
byte_or_opposite_lem x y = rw (byte_of_lem x y) (ground (arith, opposite_lem x))

maybe_superscript-ahead :
    (sup : ℕ) (t : InputTokenizer) (cs : List ℕ)
    → ahead t ≡ cs
    → maybe_superscript sup t ≡ some ((notation sup cs).0, at_col t (t.col + (notation sup cs).1))
unfolding maybe_superscript notation back
maybe_superscript-ahead sup t [] h = ground (arith, get_char-nil t h)
maybe_superscript-ahead sup t (c ∷ []) h =
    ground (arith, get_char-cons t h, get_char-nil (at_col t (t.col + 1)) (ahead-cons t h).0)
maybe_superscript-ahead sup t (c ∷ x ∷ []) h =
    let t1 = at_col t (t.col + 1) in
    let h1 : ahead t1 ≡ x ∷ [] = (ahead-cons t h).0 in
    let h2 : ahead (at_col t (t.col + 1 + 1)) ≡ [] = (ahead-cons t1 h1).0 in
    ground (
      arith,
      get_char-cons t h,
      get_char-cons t1 h1,
      get_char-nil (at_col t (t.col + 1 + 1)) h2,
      opposite_lem x,
    )
maybe_superscript-ahead sup t (c ∷ x ∷ y ∷ cs) h =
    let t1 = at_col t (t.col + 1) in
    let t2 = at_col t (t.col + 1 + 1) in
    let h1 : ahead t1 ≡ x ∷ y ∷ cs = (ahead-cons t h).0 in
    let h2 : ahead t2 ≡ y ∷ cs = (ahead-cons t1 h1).0 in
    rw (notation, byte_or_opposite_lem x y)
      (ground (arith, get_char-cons t h, get_char-cons t1 h1, get_char-cons t2 h2))

-- maybe_superscript never panics. Where the superscript character and then two of the digits 0 to
-- 9 and a to f come next on the line, it takes these and gives the byte that they write; else,
-- where the superscript character and a character below 128 come next, it takes these and gives
-- the character that is 64 away modulo 128; else it gives none and leaves the tokenizer as it was.
pub maybe_superscript-notation :
    (sup : ℕ) (t : InputTokenizer)
    → maybe_superscript sup t
      ≡ some ((notation sup (ahead t)).0, at_col t (t.col + (notation sup (ahead t)).1))
maybe_superscript-notation sup t = maybe_superscript-ahead sup t (ahead t) refl
