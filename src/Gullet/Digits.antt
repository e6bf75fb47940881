-- ===== src/Gullet/Digits.antt =====
-- Decimal and octal literals: `read_dec_int` and `read_oct_int` of engine/gullet/methods.rs.
use rus_te_x.Prelude.{
  ℕ, zero, suc, ◌+◌, ◌-◌, ◌*◌, ◌≤◌, ◌<◌, Bool, true, false, Option, none, some, List, ◌∷◌, ◌≡◌,
  refl, arith, length, ltb, if◌then◌else◌, inl, inr,
}
use rus_te_x.Tex.Numbers.{ℤ}
use rus_te_x.Tex.Catcodes.{CommandCode}
use rus_te_x.Tex.Tokens.{Token}
use rus_te_x.Gullet.Result.{Result, ok, panic, ◌>>=◌}
use rus_te_x.Gullet.Conditionals.{largest}
use rus_te_x.Gullet.Integers.{
  Resolved, tk, char_command, undefined_command, other_command, Expansion, signed, is_ascii_digit,
  is_ascii_oct_digit, appended, dec_at, dec_go, dec_loop, read_dec_int, oct_at, oct_go, oct_loop,
  read_oct_int, space_skipped,
}
use rus_te_x.Gullet.Radix.{
  weight, numeral, AllBelow, DigitsAt, decides, digits_fit, digits_overflow,
}

-- A number in front of this is complete.
abbrev pub IsStop : (ℕ → Bool) → Option (Token × Resolved) → Type 0
IsStop is_digit none = Unit {0}
IsStop is_digit (some (t, tk c CommandCode.other)) = is_digit c ≡ false
IsStop is_digit (some (t, r)) = Unit {0}

-- what a digit looks like
abbrev pub IsDecimal : ℕ → Resolved → Type 0
IsDecimal d r = r ≡ tk (48 + d) CommandCode.other

dec_digit : (d : ℕ) → d < 10 → is_ascii_digit (48 + d) ≡ true
unfolding is_ascii_digit
dec_digit d h = ground arith

oct_digit : (d : ℕ) → d < 8 → is_ascii_oct_digit (48 + d) ≡ true
unfolding is_ascii_oct_digit
oct_digit d h = ground arith

module _ (E : Expansion) where
  stop_at :
      (rec : ℕ → E.State → Result (ℤ × E.State)) (neg : Bool) (ret : ℕ) (t : Token) (r : Resolved)
      (s : E.State)
      → IsStop is_ascii_digit (some (t, r))
      → dec_at E rec neg ret t r s ≡ ok (signed neg ret, space_skipped E (some (t, r), s))
  unfolding dec_at space_skipped
  stop_at rec neg ret t (tk c CommandCode.escape) s h = refl
  stop_at rec neg ret t (tk c CommandCode.begin_group) s h = refl
  stop_at rec neg ret t (tk c CommandCode.end_group) s h = refl
  stop_at rec neg ret t (tk c CommandCode.math_shift) s h = refl
  stop_at rec neg ret t (tk c CommandCode.alignment_tab) s h = refl
  stop_at rec neg ret t (tk c CommandCode.eof) s h = refl
  stop_at rec neg ret t (tk c CommandCode.parameter) s h = refl
  stop_at rec neg ret t (tk c CommandCode.superscript) s h = refl
  stop_at rec neg ret t (tk c CommandCode.subscript) s h = refl
  stop_at rec neg ret t (tk c CommandCode.primitive) s h = refl
  stop_at rec neg ret t (tk c CommandCode.space) s h = refl
  stop_at rec neg ret t (tk c CommandCode.letter) s h = refl
  stop_at rec neg ret t (tk c CommandCode.other) s h = rw h refl
  stop_at rec neg ret t (tk c CommandCode.active) s h = refl
  stop_at rec neg ret t (tk c CommandCode.argument) s h = refl
  stop_at rec neg ret t (char_command c CommandCode.escape) s h = refl
  stop_at rec neg ret t (char_command c CommandCode.begin_group) s h = refl
  stop_at rec neg ret t (char_command c CommandCode.end_group) s h = refl
  stop_at rec neg ret t (char_command c CommandCode.math_shift) s h = refl
  stop_at rec neg ret t (char_command c CommandCode.alignment_tab) s h = refl
  stop_at rec neg ret t (char_command c CommandCode.eof) s h = refl
  stop_at rec neg ret t (char_command c CommandCode.parameter) s h = refl
  stop_at rec neg ret t (char_command c CommandCode.superscript) s h = refl
  stop_at rec neg ret t (char_command c CommandCode.subscript) s h = refl
  stop_at rec neg ret t (char_command c CommandCode.primitive) s h = refl
  stop_at rec neg ret t (char_command c CommandCode.space) s h = refl
  stop_at rec neg ret t (char_command c CommandCode.letter) s h = refl
  stop_at rec neg ret t (char_command c CommandCode.other) s h = refl
  stop_at rec neg ret t (char_command c CommandCode.active) s h = refl
  stop_at rec neg ret t (char_command c CommandCode.argument) s h = refl
  stop_at rec neg ret t undefined_command s h = refl
  stop_at rec neg ret t other_command s h = refl

  stop_go :
      (rec : ℕ → E.State → Result (ℤ × E.State)) (neg : Bool) (ret : ℕ)
      (n : Option (Token × Resolved)) (s : E.State)
      → IsStop is_ascii_digit n
      → dec_go E rec neg ret (n, s) ≡ ok (signed neg ret, space_skipped E (n, s))
  unfolding dec_go space_skipped
  stop_go rec neg ret none s h = refl
  stop_go rec neg ret (some (t, r)) s h = stop_at rec neg ret t r s h

  dec_step :
      (neg : Bool) (fuel ret d : ℕ) (t : Token) (r : Resolved) (s s1 : E.State)
      → d < 10
      → IsDecimal d r
      → E.next s ≡ ok (some (t, r), s1)
      → dec_loop E (suc fuel) neg ret s
        ≡ (appended largest 10 ret d >>= λ ret'. dec_loop E fuel neg ret' s1)
  unfolding dec_loop dec_go dec_at
  dec_step neg fuel ret d t r s s1 b sh e =
      let value : (48 + d) - 48 ≡ d = omega arith in rw (e, sh, dec_digit d b, value) refl

  dec_end :
      (neg : Bool) (fuel ret : ℕ) (n : Option (Token × Resolved)) (s s1 : E.State)
      → 1 ≤ fuel
      → E.next s ≡ ok (n, s1)
      → IsStop is_ascii_digit n
      → dec_loop E fuel neg ret s ≡ ok (signed neg ret, space_skipped E (n, s1))
  unfolding dec_loop
  dec_end neg zero ret n s s1 l e stop = absurd (omega arith)
  dec_end neg (suc fuel) ret n s s1 l e stop =
      rw e (stop_go (dec_loop E fuel neg) neg ret n s1 stop)

  -- the result where the literal has this value
  abbrev pub checked : Bool → ℕ → E.State → Result (ℤ × E.State)
  checked neg v s = if ltb largest v then panic else ok (signed neg v, s)

  pub read_dec_int-numeral :
      (d : ℕ) (ds : List ℕ) (neg : Bool) (fuel : ℕ) (s s' : E.State) (n : Option (Token × Resolved))
      (s1 : E.State)
      → AllBelow 10 (d ∷ ds)
      → DigitsAt E IsDecimal ds s s'
      → E.next s' ≡ ok (n, s1)
      → IsStop is_ascii_digit n
      → length ds < fuel
      → read_dec_int E fuel neg (48 + d) s
        ≡ checked neg (numeral 10 (d ∷ ds)) (space_skipped E (n, s1))
  unfolding read_dec_int dec_loop
  read_dec_int-numeral d ds neg fuel s s' n s1 (b, bs) at e stop l =
      let value : (48 + d) - 48 ≡ d = omega arith in
      let v = d * weight 10 ds + numeral 10 ds in
      elim (decides (ltb largest v)) [
        | inl over ↦
            rw (value, over)
              (digits_overflow E 10 largest (omega arith) IsDecimal (λ f. dec_loop E f neg)
                (λ ret u. refl) (dec_step neg) ds d fuel s s' bs at (omega arith) (ground arith))
        | inr fits ↦
            let (left, le, eq) =
              digits_fit E 10 largest (omega arith) IsDecimal (λ f. dec_loop E f neg)
                (λ ret u. refl) (dec_step neg) ds d fuel s s' bs at (ground arith) l in
            rw (value, fits, eq) (dec_end neg left v n s' s1 le e stop)
      ]

  oct_step :
      (neg empty : Bool) (fuel ret d : ℕ) (t : Token) (r : Resolved) (s s1 : E.State)
      → d < 8
      → IsDecimal d r
      → E.next s ≡ ok (some (t, r), s1)
      → oct_loop E (suc fuel) neg empty ret s
        ≡ (appended largest 8 ret d >>= λ ret'. oct_loop E fuel neg false ret' s1)
  unfolding oct_loop oct_go oct_at
  oct_step neg empty fuel ret d t r s s1 b sh e =
      let value : (48 + d) - 48 ≡ d = omega arith in rw (e, sh, oct_digit d b, value) refl

  oct_stop_at :
      (rec : Bool → ℕ → E.State → Result (ℤ × E.State)) (neg : Bool) (ret : ℕ) (t : Token)
      (r : Resolved) (s : E.State)
      → IsStop is_ascii_oct_digit (some (t, r))
      → oct_at E rec neg false ret t r s ≡ ok (signed neg ret, space_skipped E (some (t, r), s))
  unfolding oct_at space_skipped
  oct_stop_at rec neg ret t (tk c CommandCode.escape) s h = refl
  oct_stop_at rec neg ret t (tk c CommandCode.begin_group) s h = refl
  oct_stop_at rec neg ret t (tk c CommandCode.end_group) s h = refl
  oct_stop_at rec neg ret t (tk c CommandCode.math_shift) s h = refl
  oct_stop_at rec neg ret t (tk c CommandCode.alignment_tab) s h = refl
  oct_stop_at rec neg ret t (tk c CommandCode.eof) s h = refl
  oct_stop_at rec neg ret t (tk c CommandCode.parameter) s h = refl
  oct_stop_at rec neg ret t (tk c CommandCode.superscript) s h = refl
  oct_stop_at rec neg ret t (tk c CommandCode.subscript) s h = refl
  oct_stop_at rec neg ret t (tk c CommandCode.primitive) s h = refl
  oct_stop_at rec neg ret t (tk c CommandCode.space) s h = refl
  oct_stop_at rec neg ret t (tk c CommandCode.letter) s h = refl
  oct_stop_at rec neg ret t (tk c CommandCode.other) s h = rw h refl
  oct_stop_at rec neg ret t (tk c CommandCode.active) s h = refl
  oct_stop_at rec neg ret t (tk c CommandCode.argument) s h = refl
  oct_stop_at rec neg ret t (char_command c CommandCode.escape) s h = refl
  oct_stop_at rec neg ret t (char_command c CommandCode.begin_group) s h = refl
  oct_stop_at rec neg ret t (char_command c CommandCode.end_group) s h = refl
  oct_stop_at rec neg ret t (char_command c CommandCode.math_shift) s h = refl
  oct_stop_at rec neg ret t (char_command c CommandCode.alignment_tab) s h = refl
  oct_stop_at rec neg ret t (char_command c CommandCode.eof) s h = refl
  oct_stop_at rec neg ret t (char_command c CommandCode.parameter) s h = refl
  oct_stop_at rec neg ret t (char_command c CommandCode.superscript) s h = refl
  oct_stop_at rec neg ret t (char_command c CommandCode.subscript) s h = refl
  oct_stop_at rec neg ret t (char_command c CommandCode.primitive) s h = refl
  oct_stop_at rec neg ret t (char_command c CommandCode.space) s h = refl
  oct_stop_at rec neg ret t (char_command c CommandCode.letter) s h = refl
  oct_stop_at rec neg ret t (char_command c CommandCode.other) s h = refl
  oct_stop_at rec neg ret t (char_command c CommandCode.active) s h = refl
  oct_stop_at rec neg ret t (char_command c CommandCode.argument) s h = refl
  oct_stop_at rec neg ret t undefined_command s h = refl
  oct_stop_at rec neg ret t other_command s h = refl

  oct_end :
      (neg : Bool) (fuel ret : ℕ) (n : Option (Token × Resolved)) (s s1 : E.State)
      → 1 ≤ fuel
      → E.next s ≡ ok (n, s1)
      → IsStop is_ascii_oct_digit n
      → oct_loop E fuel neg false ret s ≡ ok (signed neg ret, space_skipped E (n, s1))
  unfolding oct_loop oct_go space_skipped
  oct_end neg zero ret n s s1 l e stop = absurd (omega arith)
  oct_end neg (suc fuel) ret none s s1 l e stop = rw e refl
  oct_end neg (suc fuel) ret (some (t, r)) s s1 l e stop =
      rw e (oct_stop_at (oct_loop E fuel neg) neg ret t r s1 stop)

  -- On one or more octal digits, then what is no digit, with more fuel than digits: read_oct_int
  -- gives the value of the digits with its sign and takes one space behind them, if the value is
  -- at most 2^31 - 1; beyond that the sum overflows and panics.
  pub read_oct_int-numeral :
      (d : ℕ) (ds : List ℕ) (neg : Bool) (fuel : ℕ) (s s' : E.State) (n : Option (Token × Resolved))
      (s1 : E.State)
      → AllBelow 8 (d ∷ ds)
      → DigitsAt E IsDecimal (d ∷ ds) s s'
      → E.next s' ≡ ok (n, s1)
      → IsStop is_ascii_oct_digit n
      → length (d ∷ ds) < fuel
      → read_oct_int E fuel neg s ≡ checked neg (numeral 8 (d ∷ ds)) (space_skipped E (n, s1))
  unfolding read_oct_int oct_loop appended
  read_oct_int-numeral d ds neg zero s s' n s1 b at e stop l = absurd (omega arith)
  read_oct_int-numeral d ds neg (suc fuel) s s' n s1 (b, bs) (t, r, s2, sh, e2, at) e stop l =
      let v = d * weight 8 ds + numeral 8 ds in
      let small : ltb largest (8 * 0 + d) ≡ false = ground arith in
      let value : 8 * 0 + d ≡ d = omega arith in
      elim (decides (ltb largest v)) [
        | inl over ↦
            rw (oct_step neg true fuel 0 d t r s s2 b sh e2, small, value, over)
              (digits_overflow E 8 largest (omega arith) IsDecimal (λ f. oct_loop E f neg false)
                (λ ret u. refl) (oct_step neg false) ds d fuel s2 s' bs at (omega arith)
                (ground arith))
        | inr fits ↦
            let (left, le, eq) =
              digits_fit E 8 largest (omega arith) IsDecimal (λ f. oct_loop E f neg false)
                (λ ret u. refl) (oct_step neg false) ds d fuel s2 s' bs at (ground arith)
                (omega arith) in
            rw (oct_step neg true fuel 0 d t r s s2 b sh e2, small, value, fits, eq)
              (oct_end neg left v n s' s1 le e stop)
      ]
