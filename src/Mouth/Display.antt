-- ===== src/Mouth/Display.antt =====
-- tex/characters.rs: `display_fmt` of bytes, and what the tokenizer makes of its text.
use rus_te_x.Prelude.{
  ℕ, ◌+◌, ◌-◌, ◌/◌, ◌%◌, ◌≤◌, ◌<◌, ◌⊎◌, ◌≡◌, ap, refl, ◌∙◌, arith, ltb, ◌&&◌, if◌then◌else◌, some,
  List, [], ◌∷◌, ◌++◌, drop,
}
use rus_te_x.Mouth.Input.{InputTokenizer}
use rus_te_x.Mouth.Superscript.{maybe_superscript}
use rus_te_x.Mouth.Ahead.{
  ahead, at_col, notation, digit_of, place_in, byte_of, byte_or_opposite, opposite,
  maybe_superscript-notation,
}

-- a digit of `{:x}`
unfoldable pub hex_digit : ℕ → ℕ
hex_digit n = if ltb n 10 then 48 + n else 87 + n

-- the bytes that `display_fmt` writes
unfoldable pub display_fmt : ℕ → List ℕ
unfolding hex_digit
display_fmt c =
    if ltb c 128
    then c ∷ []
    else if ltb 128 c && ltb (c - 64) 128
    then b'^' ∷ b'^' ∷ (c - 64) ∷ []
    else b'^' ∷ b'^' ∷ hex_digit (c / 16) ∷ hex_digit (c % 16) ∷ []

digit_of-hex_digit : (n : ℕ) → n < 16 → digit_of (hex_digit n) ≡ some n
unfolding hex_digit digit_of place_in
digit_of-hex_digit n h = ground arith

read_hex :
    (c : ℕ) (rest : List ℕ)
    → c < 256
    → notation b'^' (b'^' ∷ hex_digit (c / 16) ∷ hex_digit (c % 16) ∷ rest) ≡ (some c, 3)
unfolding notation byte_of byte_or_opposite
read_hex c rest h =
    rw (digit_of-hex_digit (c / 16) (omega arith), digit_of-hex_digit (c % 16) (omega arith))
      (ap (λ n. (some n, 3)) (omega arith))

notation-display_fmt :
    (c : ℕ) (rest : List ℕ)
    → (c ≡ 128) ⊎ (192 ≤ c)
    → c < 256
    → notation b'^' (drop 1 (display_fmt c) ++ rest) ≡ (some c, 3)
unfolding display_fmt
notation-display_fmt c rest h b = ground (arith, read_hex c rest b)

-- For the byte 128 and the bytes from 192 on, where the line goes on behind a ^ with the rest of
-- the text that display_fmt writes for the byte, then with anything: maybe_superscript gives the
-- byte and takes exactly that text.
pub maybe_superscript-display_fmt :
    (c : ℕ) (rest : List ℕ) (t : InputTokenizer)
    → (c ≡ 128) ⊎ (192 ≤ c)
    → c < 256
    → ahead t ≡ drop 1 (display_fmt c) ++ rest
    → maybe_superscript b'^' t ≡ some (some c, at_col t (t.col + 3))
maybe_superscript-display_fmt c rest t h b e =
    maybe_superscript-notation b'^' t ∙ rw (e, notation-display_fmt c rest h b) refl

notation-display_fmt_low :
    (c : ℕ) → 128 < c → c < 192 → notation b'^' (drop 1 (display_fmt c)) ≡ (some (c - 128), 2)
unfolding display_fmt notation opposite
notation-display_fmt_low c h b = ground arith

-- For the bytes from 129 to 191, where the line goes on behind a ^ with the rest of the text that
-- display_fmt writes for the byte, and ends there: maybe_superscript takes that text and gives the
-- byte that is smaller by 128.
pub maybe_superscript-display_fmt_low :
    (c : ℕ) (t : InputTokenizer)
    → 128 < c
    → c < 192
    → ahead t ≡ drop 1 (display_fmt c)
    → maybe_superscript b'^' t ≡ some (some (c - 128), at_col t (t.col + 2))
maybe_superscript-display_fmt_low c t h b e =
    maybe_superscript-notation b'^' t ∙ rw (e, notation-display_fmt_low c h b) refl
