-- ===== src/Mouth/Superscript.antt =====
-- engine/mouth/strings.rs: `maybe_superscript`, which reads `^^` notation over bytes.
use rus_te_x.Prelude.{
  ℕ, ◌+◌, ◌-◌, ◌*◌, Bool, ◌&&◌, ◌||◌, Option, none, some, leb, ltb, ◌==◌, if◌then◌else◌, ◌>>=◌,
}
use rus_te_x.Mouth.Input.{InputTokenizer, get_char, back}

-- `cond`: a digit or a letter from a to f
unfoldable pub is_hex : ℕ → Bool
is_hex i = (leb 48 i && leb i 57) || (leb 97 i && leb i 102)

-- `u8::from_str_radix` on two such characters
abbrev pub digit : ℕ → ℕ
digit i = if leb i 57 then i - 48 else i - 87

unfoldable pub hex_value : ℕ → ℕ → ℕ
hex_value first second = digit first * 16 + digit second

-- `if u < 64 { u + 64 } else { u - 64 }`
unfoldable pub shifted : ℕ → ℕ
shifted u = if ltb u 64 then u + 64 else u - 64

-- no character is read
abbrev give_up : ℕ → InputTokenizer → Option (Option ℕ × InputTokenizer)
give_up n t = do t' ← back n t; some (none, t')

-- with two equal characters and the third, `first`, read
third : ℕ → InputTokenizer → Option (ℕ × InputTokenizer) → Option (Option ℕ × InputTokenizer)
third first t none = if ltb first 128 then some (some (shifted first), t) else give_up 2 t
third first t (some (second, t')) =
    if is_hex first && is_hex second then some (some (hex_value first second), t') else (do
      t'' ← back 1 t'
      if ltb first 128 then some (some (shifted first), t'') else give_up 2 t'')

-- with two equal characters read
second : InputTokenizer → Option (ℕ × InputTokenizer) → Option (Option ℕ × InputTokenizer)
unfolding third
second t none = give_up 1 t
second t (some (first, t')) = third first t' (get_char t')

first : ℕ → InputTokenizer → Option (ℕ × InputTokenizer) → Option (Option ℕ × InputTokenizer)
unfolding second
first firstsup t none = some (none, t)
first firstsup t (some (c, t')) = if c == firstsup then second t' (get_char t') else give_up 1 t'

unfoldable pub maybe_superscript : ℕ → InputTokenizer → Option (Option ℕ × InputTokenizer)
unfolding first
maybe_superscript firstsup t = first firstsup t (get_char t)
