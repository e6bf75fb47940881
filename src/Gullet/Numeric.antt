-- ===== src/Gullet/Numeric.antt =====
-- engine/gullet/methods.rs: `read_numeric` and `read_int`, outside alignments.
use rus_te_x.Prelude.{
  ℕ, zero, suc, Bool, true, false, not, ◌&&◌, Option, none, some, ◌==◌, if◌then◌else◌,
}
use rus_te_x.Tex.Numbers.{ℤ}
use rus_te_x.Tex.Catcodes.{CommandCode}
use rus_te_x.Tex.Tokens.{Token, primitive}
use rus_te_x.Gullet.Result.{TeXError, Result, ok, err, panic, ◌>>=◌}
use rus_te_x.Gullet.Integers.{
  Resolved, tk, char_command, undefined_command, other_command, Expansion, read_int_byte,
}

-- `NumContinuation`: a byte, or the token of a command
pub data Continuation : Type 0 where
  byte : ℕ → Continuation
  command : Token → Continuation

-- what `read_numeric` does with a character
pub data NumericStep : Type 0 where
  -- go on, with `is_negative` and `had_eq`
  again : Bool → Bool → NumericStep
  literal : ℕ → NumericStep
  unexpected : NumericStep

unfoldable pub numeric_other : Bool → Bool → ℕ → NumericStep
numeric_other neg had_eq c =
    if c == 61 && not had_eq
    then again neg true
    else if c == 45
    then again (not neg) had_eq
    else if c == 43
    then again neg had_eq
    else literal c

unfoldable pub numeric_char : Bool → Bool → ℕ → CommandCode → NumericStep
unfolding numeric_other
numeric_char neg had_eq c CommandCode.space = again neg had_eq
numeric_char neg had_eq c CommandCode.other = numeric_other neg had_eq c
numeric_char neg had_eq c code = unexpected

-- `is_primitive() == Some(PRIMITIVES.noexpand)`
unfoldable pub is_noexpand : ℕ → Token → Bool
is_noexpand ne (primitive id) = id == ne
is_noexpand ne t = false

-- `ne` is the number of the primitive \noexpand.
module _ (ne : ℕ) (E : Expansion) where
  unfoldable pub numeric_step :
      (Bool → Bool → E.State → Result (Bool × Continuation × E.State))
      → Bool
      → NumericStep
      → E.State
      → Result (Bool × Continuation × E.State)
  numeric_step rec neg (again neg' had_eq) s = rec neg' had_eq s
  numeric_step rec neg (literal c) s = ok (neg, byte c, s)
  numeric_step rec neg unexpected s = err TeXError.general

  unfoldable pub numeric_at :
      (Bool → Bool → E.State → Result (Bool × Continuation × E.State))
      → Bool
      → Bool
      → Token
      → Resolved
      → E.State
      → Result (Bool × Continuation × E.State)
  unfolding numeric_step numeric_char
  numeric_at rec neg had_eq t (tk c code) s =
      numeric_step rec neg (numeric_char neg had_eq c code) s
  numeric_at rec neg had_eq t (char_command c code) s =
      numeric_step rec neg (numeric_char neg had_eq c code) s
  numeric_at rec neg had_eq t undefined_command s = err TeXError.undefined
  numeric_at rec neg had_eq t other_command s = ok (neg, command t, s)

  unfoldable pub numeric_go :
      (Bool → Bool → E.State → Result (Bool × Continuation × E.State))
      → Bool
      → Bool
      → Option (Token × Resolved) × E.State
      → Result (Bool × Continuation × E.State)
  unfolding numeric_at is_noexpand
  numeric_go rec neg had_eq (none, s) = err TeXError.file_ended_while_scanning_use_of
  numeric_go rec neg had_eq (some (t, r), s) =
      if is_noexpand ne t then rec neg had_eq s else numeric_at rec neg had_eq t r s

  unfoldable pub numeric_loop : ℕ → Bool → Bool → E.State → Result (Bool × Continuation × E.State)
  unfolding numeric_go
  numeric_loop zero neg had_eq s = panic
  numeric_loop (suc fuel) neg had_eq s = E.next s >>= numeric_go (numeric_loop fuel) neg had_eq

  unfoldable pub read_numeric : ℕ → Bool → E.State → Result (Bool × Continuation × E.State)
  unfolding numeric_loop
  read_numeric fuel skip_eq s = numeric_loop fuel false (not skip_eq) s

  -- `from_command` is `read_int_command` on the command of the token.
  unfoldable pub int_from :
      ℕ
      → (Bool → Token → E.State → Result (ℤ × E.State))
      → Bool × Continuation × E.State
      → Result (ℤ × E.State)
  unfolding read_int_byte
  int_from fuel from_command (neg, byte b, s) = read_int_byte E fuel neg b s
  int_from fuel from_command (neg, command t, s) = from_command neg t s

  unfoldable pub read_int :
      ℕ → (Bool → Token → E.State → Result (ℤ × E.State)) → Bool → E.State → Result (ℤ × E.State)
  unfolding read_numeric int_from
  read_int fuel from_command skip_eq s = read_numeric fuel skip_eq s >>= int_from fuel from_command
