-- ===== src/Gullet/HexDigits.antt =====
-- Hexadecimal literals: `read_hex_int` of engine/gullet/methods.rs.
use rus_te_x.Prelude.{
  ℕ, zero, suc, ◌+◌, ◌*◌, ◌≤◌, ◌<◌, Bool, true, false, Option, none, some, List, ◌∷◌, ◌≡◌, refl,
  arith, length, ltb, if◌then◌else◌, ◌⊎◌, inl, inr, leb,
}
use rus_te_x.Tex.Numbers.{ℤ}
use rus_te_x.Tex.Catcodes.{CommandCode}
use rus_te_x.Tex.Tokens.{Token}
use rus_te_x.Gullet.Result.{TeXError, Result, ok, err, panic, ◌>>=◌}
use rus_te_x.Gullet.Integers.{
  Resolved, tk, char_command, undefined_command, other_command, Expansion, signed, is_ascii_digit,
  is_ascii_hex_digit, hex_to_num, largest_long, appended, narrowed, narrowed_at, hex_digit_or,
  hex_at, hex_go, hex_loop, read_hex_int, space_skipped,
}
use rus_te_x.Gullet.Radix.{
  weight, numeral, AllBelow, DigitsAt, decides, digits_fit, digits_overflow,
}

-- A hexadecimal number in front of this is complete.
abbrev pub IsHexStop : Option (Token × Resolved) → Type 0
IsHexStop none = Unit {0}
IsHexStop (some (t, tk c CommandCode.other)) = is_ascii_hex_digit c ≡ false
IsHexStop (some (t, tk c CommandCode.letter)) = is_ascii_hex_digit c ≡ false
IsHexStop (some (t, r)) = Unit {0}

-- `0` to `9` and `A` to `F`
abbrev pub hex_char : ℕ → ℕ
hex_char d = if ltb d 10 then 48 + d else 55 + d

-- what a digit looks like
abbrev pub IsHexDigit : ℕ → Resolved → Type 0
IsHexDigit d r = (r ≡ tk (hex_char d) CommandCode.other) ⊎ (r ≡ tk (hex_char d) CommandCode.letter)

hex_digit : (d : ℕ) → d < 16 → is_ascii_hex_digit (hex_char d) ≡ true
unfolding is_ascii_hex_digit is_ascii_digit
hex_digit d h = ground arith

hex_value : (d : ℕ) → d < 16 → hex_to_num (hex_char d) ≡ d
unfolding hex_to_num is_ascii_digit
hex_value d h = ground arith

-- Whether the number with this sign is an `i32`.
abbrev pub in_range : Bool → ℕ → Bool
in_range true v = leb v 2147483648
in_range false v = leb v 2147483647

module _ (E : Expansion) where
  hex_stop_at :
      (rec : Bool → ℕ → E.State → Result (ℤ × E.State)) (neg : Bool) (ret : ℕ) (t : Token)
      (r : Resolved) (s : E.State)
      → IsHexStop (some (t, r))
      → hex_at E rec neg false ret t r s ≡ narrowed_at E neg ret (space_skipped E (some (t, r), s))
  unfolding hex_at hex_digit_or space_skipped
  hex_stop_at rec neg ret t (tk c CommandCode.escape) s h = refl
  hex_stop_at rec neg ret t (tk c CommandCode.begin_group) s h = refl
  hex_stop_at rec neg ret t (tk c CommandCode.end_group) s h = refl
  hex_stop_at rec neg ret t (tk c CommandCode.math_shift) s h = refl
  hex_stop_at rec neg ret t (tk c CommandCode.alignment_tab) s h = refl
  hex_stop_at rec neg ret t (tk c CommandCode.eof) s h = refl
  hex_stop_at rec neg ret t (tk c CommandCode.parameter) s h = refl
  hex_stop_at rec neg ret t (tk c CommandCode.superscript) s h = refl
  hex_stop_at rec neg ret t (tk c CommandCode.subscript) s h = refl
  hex_stop_at rec neg ret t (tk c CommandCode.primitive) s h = refl
  hex_stop_at rec neg ret t (tk c CommandCode.space) s h = refl
  hex_stop_at rec neg ret t (tk c CommandCode.letter) s h = rw h refl
  hex_stop_at rec neg ret t (tk c CommandCode.other) s h = rw h refl
  hex_stop_at rec neg ret t (tk c CommandCode.active) s h = refl
  hex_stop_at rec neg ret t (tk c CommandCode.argument) s h = refl
  hex_stop_at rec neg ret t (char_command c CommandCode.escape) s h = refl
  hex_stop_at rec neg ret t (char_command c CommandCode.begin_group) s h = refl
  hex_stop_at rec neg ret t (char_command c CommandCode.end_group) s h = refl
  hex_stop_at rec neg ret t (char_command c CommandCode.math_shift) s h = refl
  hex_stop_at rec neg ret t (char_command c CommandCode.alignment_tab) s h = refl
  hex_stop_at rec neg ret t (char_command c CommandCode.eof) s h = refl
  hex_stop_at rec neg ret t (char_command c CommandCode.parameter) s h = refl
  hex_stop_at rec neg ret t (char_command c CommandCode.superscript) s h = refl
  hex_stop_at rec neg ret t (char_command c CommandCode.subscript) s h = refl
  hex_stop_at rec neg ret t (char_command c CommandCode.primitive) s h = refl
  hex_stop_at rec neg ret t (char_command c CommandCode.space) s h = refl
  hex_stop_at rec neg ret t (char_command c CommandCode.letter) s h = refl
  hex_stop_at rec neg ret t (char_command c CommandCode.other) s h = refl
  hex_stop_at rec neg ret t (char_command c CommandCode.active) s h = refl
  hex_stop_at rec neg ret t (char_command c CommandCode.argument) s h = refl
  hex_stop_at rec neg ret t undefined_command s h = refl
  hex_stop_at rec neg ret t other_command s h = refl

  hex_step :
      (neg empty : Bool) (fuel ret d : ℕ) (t : Token) (r : Resolved) (s s1 : E.State)
      → d < 16
      → IsHexDigit d r
      → E.next s ≡ ok (some (t, r), s1)
      → hex_loop E (suc fuel) neg empty ret s
        ≡ (appended largest_long 16 ret d >>= λ ret'. hex_loop E fuel neg false ret' s1)
  unfolding hex_loop hex_go hex_at hex_digit_or
  hex_step neg empty fuel ret d t r s s1 b (inl sh) e =
      rw (e, sh, hex_digit d b, hex_value d b) refl
  hex_step neg empty fuel ret d t r s s1 b (inr sh) e =
      rw (e, sh, hex_digit d b, hex_value d b) refl

  hex_end :
      (neg : Bool) (fuel ret : ℕ) (n : Option (Token × Resolved)) (s s1 : E.State)
      → 1 ≤ fuel
      → E.next s ≡ ok (n, s1)
      → IsHexStop n
      → hex_loop E fuel neg false ret s ≡ narrowed_at E neg ret (space_skipped E (n, s1))
  unfolding hex_loop hex_go space_skipped
  hex_end neg zero ret n s s1 l e stop = absurd (omega arith)
  hex_end neg (suc fuel) ret none s s1 l e stop = rw e refl
  hex_end neg (suc fuel) ret (some (t, r)) s s1 l e stop =
      rw e (hex_stop_at (hex_loop E fuel neg) neg ret t r s1 stop)

  ranged : Bool → ℕ → E.State → Result (ℤ × E.State)
  ranged neg v s = if in_range neg v then ok (signed neg v, s) else err TeXError.general

  narrowed_lem : (neg : Bool) (v : ℕ) (s : E.State) → narrowed_at E neg v s ≡ ranged neg v s
  unfolding narrowed ranged
  narrowed_lem true v s = ground arith
  narrowed_lem false v s = ground arith

  -- the result where the literal has this value
  abbrev pub range_checked : Bool → ℕ → E.State → Result (ℤ × E.State)
  range_checked neg v s =
      if ltb largest_long v
      then panic
      else if in_range neg v
      then ok (signed neg v, s)
      else err TeXError.general

  -- On one or more hexadecimal digits, with the letters in upper case, then what is no digit, with
  -- more fuel than digits: read_hex_int gives the value of the digits with its sign and takes one
  -- space behind them, if the result is from -2^31 to 2^31 - 1; outside of that it throws an
  -- error, and for values above 2^63 - 1 the sum overflows and panics.
  pub read_hex_int-numeral :
      (d : ℕ) (ds : List ℕ) (neg : Bool) (fuel : ℕ) (s s' : E.State) (n : Option (Token × Resolved))
      (s1 : E.State)
      → AllBelow 16 (d ∷ ds)
      → DigitsAt E IsHexDigit (d ∷ ds) s s'
      → E.next s' ≡ ok (n, s1)
      → IsHexStop n
      → length (d ∷ ds) < fuel
      → read_hex_int E fuel neg s
        ≡ range_checked neg (numeral 16 (d ∷ ds)) (space_skipped E (n, s1))
  unfolding read_hex_int hex_loop appended ranged
  read_hex_int-numeral d ds neg zero s s' n s1 b at e stop l = absurd (omega arith)
  read_hex_int-numeral d ds neg (suc fuel) s s' n s1 (b, bs) (t, r, s2, sh, e2, at) e stop l =
      let v = d * weight 16 ds + numeral 16 ds in
      let small : ltb largest_long (16 * 0 + d) ≡ false = ground arith in
      let value : 16 * 0 + d ≡ d = omega arith in
      elim (decides (ltb largest_long v)) [
        | inl over ↦
            rw (hex_step neg true fuel 0 d t r s s2 b sh e2, small, value, over)
              (digits_overflow E 16 largest_long (omega arith) IsHexDigit
                (λ f. hex_loop E f neg false) (λ ret u. refl) (hex_step neg false) ds d fuel s2 s'
                bs at (omega arith) (ground arith))
        | inr fits ↦
            let (left, le, eq) =
              digits_fit E 16 largest_long (omega arith) IsHexDigit (λ f. hex_loop E f neg false)
                (λ ret u. refl) (hex_step neg false) ds d fuel s2 s' bs at (ground arith)
                (omega arith) in
            rw
              (
                hex_step neg true fuel 0 d t r s s2 b sh e2,
                small,
                value,
                fits,
                eq,
                hex_end neg left v n s' s1 le e stop,
              )
              (narrowed_lem neg v (space_skipped E (n, s1)))
      ]
