-- ===== src/Gullet/Signs.antt =====
-- `read_int` of engine/gullet/methods.rs on a decimal literal with signs.
use rus_te_x.Prelude.{
  ℕ, zero, suc, ◌+◌, ◌<◌, Bool, true, false, not, Option, some, List, [], ◌∷◌, ◌≡◌, refl, arith,
  length, ◌==◌,
}
use rus_te_x.Tex.Numbers.{ℤ}
use rus_te_x.Tex.Catcodes.{CommandCode}
use rus_te_x.Tex.Tokens.{Token}
use rus_te_x.Gullet.Result.{Result, ok}
use rus_te_x.Gullet.Integers.{
  Resolved, tk, Expansion, is_ascii_digit, read_int_byte, space_skipped, read_dec_int,
}
use rus_te_x.Gullet.Numeric.{
  byte, numeric_other, numeric_char, is_noexpand, numeric_at, numeric_step, numeric_go,
  numeric_loop, read_numeric, int_from, read_int, literal,
}
use rus_te_x.Gullet.Radix.{AllBelow, DigitsAt, numeral}
use rus_te_x.Gullet.Digits.{IsStop, IsDecimal, checked, read_dec_int-numeral}

pub data Sign : Type 0 where
  plus minus equals : Sign
  blank : ℕ → Sign

abbrev pub shown : Sign → Resolved
shown plus = tk 43 CommandCode.other
shown minus = tk 45 CommandCode.other
shown equals = tk 61 CommandCode.other
shown (blank c) = tk c CommandCode.space

-- whether an odd number of minus signs stands there
abbrev pub is_negative : Bool → List Sign → Bool
is_negative neg [] = neg
is_negative neg (minus ∷ ss) = is_negative (not neg) ss
is_negative neg (s ∷ ss) = is_negative neg ss

-- An equals sign stands there at most once, and not where there has been one.
abbrev pub EqualsOnce : Bool → List Sign → Type 0
EqualsOnce had [] = Unit {0}
EqualsOnce had (equals ∷ ss) = (had ≡ false) × EqualsOnce true ss
EqualsOnce had (s ∷ ss) = EqualsOnce had ss

digit_test : (d : ℕ) → d < 10 → is_ascii_digit (48 + d) ≡ true
unfolding is_ascii_digit
digit_test d h = ground arith

module _ (ne : ℕ) (E : Expansion) where
  -- the next tokens are the signs, up to a state
  abbrev pub SignsAt : List Sign → E.State → E.State → Type 0
  SignsAt [] s s' = s ≡ s'
  SignsAt (x ∷ xs) s s' =
      (t : Token) × (s1 : E.State) × (E.next s ≡ ok (some (t, shown x), s1))
      × (is_noexpand ne t ≡ false)
      × SignsAt xs s1 s'

  -- the byte that begins the literal
  digit_lem : (neg had : Bool) (d : ℕ) → d < 10 → numeric_other neg had (48 + d) ≡ literal (48 + d)
  unfolding numeric_other
  digit_lem neg had d h =
      let eq : ((48 + d) == 61) ≡ false = ground arith in
      let minus_sign : ((48 + d) == 45) ≡ false = ground arith in
      let plus_sign : ((48 + d) == 43) ≡ false = ground arith in rw (eq, minus_sign, plus_sign) refl

  signs_lem :
      (xs : List Sign) (neg had : Bool) (fuel : ℕ) (s s1 s2 : E.State) (t : Token) (d : ℕ)
      → EqualsOnce had xs
      → SignsAt xs s s1
      → d < 10
      → E.next s1 ≡ ok (some (t, tk (48 + d) CommandCode.other), s2)
      → is_noexpand ne t ≡ false
      → length xs < fuel
      → numeric_loop ne E fuel neg had s ≡ ok (is_negative neg xs, byte (48 + d), s2)
  unfolding numeric_loop numeric_go numeric_at numeric_char numeric_step
  signs_lem xs neg had zero s s1 s2 t d once at b e x l = absurd (omega arith)
  signs_lem [] neg had (suc fuel) s s1 s2 t d once at b e x l =
      rw (at, e, x, digit_lem neg had d b) refl
  signs_lem (plus ∷ xs) neg had (suc fuel) s s1 s2 t d once (u, s', e', x', at) b e x l =
      rw (e', x') (signs_lem xs neg had fuel s' s1 s2 t d once at b e x (omega arith))
  signs_lem (minus ∷ xs) neg had (suc fuel) s s1 s2 t d once (u, s', e', x', at) b e x l =
      rw (e', x') (signs_lem xs (not neg) had fuel s' s1 s2 t d once at b e x (omega arith))
  signs_lem (equals ∷ xs) neg had (suc fuel) s s1 s2 t d (h, once) (u, s', e', x', at) b e x l =
      rw (e', x', h) (signs_lem xs neg true fuel s' s1 s2 t d once at b e x (omega arith))
  signs_lem (blank c ∷ xs) neg had (suc fuel) s s1 s2 t d once (u, s', e', x', at) b e x l =
      rw (e', x') (signs_lem xs neg had fuel s' s1 s2 t d once at b e x (omega arith))

  byte_lem :
      (fuel d : ℕ) (neg : Bool) (s : E.State)
      → d < 10
      → read_int_byte E fuel neg (48 + d) s ≡ read_dec_int E fuel neg (48 + d) s
  unfolding read_int_byte
  byte_lem fuel d neg s h =
      let hex : ((48 + d) == 34) ≡ false = ground arith in
      let oct : ((48 + d) == 39) ≡ false = ground arith in
      let char : ((48 + d) == 96) ≡ false = ground arith in
      let digit : is_ascii_digit (48 + d) ≡ true = digit_test d h in rw (hex, oct, char, digit) refl

  -- On signs, spaces and at most one = where one may stand, then decimal digits, then what is no
  -- digit, with more fuel than signs and than digits: read_int gives the value of the digits,
  -- negated for an odd number of minus signs, and takes one space behind them, if the value is at
  -- most 2^31 - 1; beyond that the sum overflows and panics.
  pub read_int-numeral :
      (from_command : Bool → Token → E.State → Result (ℤ × E.State)) (skip_eq : Bool)
      (xs : List Sign) (t : Token) (d : ℕ) (ds : List ℕ) (n : Option (Token × Resolved)) (fuel : ℕ)
      (s s1 s2 s3 s4 : E.State)
      → EqualsOnce (not skip_eq) xs
      → SignsAt xs s s1
      → E.next s1 ≡ ok (some (t, tk (48 + d) CommandCode.other), s2)
      → is_noexpand ne t ≡ false
      → AllBelow 10 (d ∷ ds)
      → DigitsAt E IsDecimal ds s2 s3
      → E.next s3 ≡ ok (n, s4)
      → IsStop is_ascii_digit n
      → length xs < fuel
      → length ds < fuel
      → read_int ne E fuel from_command skip_eq s
        ≡ checked E (is_negative false xs) (numeral 10 (d ∷ ds)) (space_skipped E (n, s4))
  unfolding read_int read_numeric int_from
  read_int-numeral from_command skip_eq xs t d ds n fuel s s1 s2 s3 s4 once at e x (b, bs) dat e'
        stop l l' =
      rw
        (
          signs_lem xs false (not skip_eq) fuel s s1 s2 t d once at b e x l,
          byte_lem fuel d (is_negative false xs) s2 b,
        )
        (read_dec_int-numeral E d ds (is_negative false xs) fuel s2 s3 n s4 (b, bs) dat e' stop l')
