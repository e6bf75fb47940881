-- ===== src/Gullet/Integers.antt =====
-- engine/gullet/methods.rs: `read_int_byte` and the functions that read integer literals, outside
-- alignments. A sum that does not fit its machine integer is `panic`, as overflow checks make it.
use rus_te_x.Prelude.{
  ℕ, zero, suc, ◌+◌, ◌-◌, ◌*◌, Bool, true, false, ◌&&◌, ◌||◌, Option, none, some, [], ◌∷◌, ltb, leb,
  ◌==◌, if◌then◌else◌,
}
use rus_te_x.Tex.Numbers.{ℤ, pos, negsuc}
use rus_te_x.Tex.Catcodes.{CommandCode}
use rus_te_x.Tex.Tokens.{Token, control_sequence, character}
use rus_te_x.Gullet.Result.{TeXError, Result, ok, err, panic, ◌>>=◌}
use rus_te_x.Gullet.Conditionals.{largest}

-- what the functions tell apart in a token that is not expandable
pub data Resolved : Type 0 where
  -- `ResolvedToken::Tk`
  tk : ℕ → CommandCode → Resolved
  -- `TeXCommand::Char`, no command, and any other command
  char_command : ℕ → CommandCode → Resolved
  undefined_command other_command : Resolved

-- The engine as these functions use it: `get_next` with the expansion of what it gives, `get_next` of the
-- mouth alone, and `requeue`.
pub record Expansion : Type 1 where
  pub State : Type 0
  pub next : State → Result (Option (Token × Resolved) × State)
  pub unexpanded : State → Result (Option Token × State)
  pub requeue : Token → State → State

-- `-ret` or `ret`
abbrev pub negated : ℕ → ℤ
negated zero = pos 0
negated (suc n) = negsuc n

abbrev pub signed : Bool → ℕ → ℤ
signed true n = negated n
signed false n = pos n

unfoldable pub is_ascii_digit : ℕ → Bool
is_ascii_digit b = leb 48 b && leb b 57

unfoldable pub is_ascii_oct_digit : ℕ → Bool
is_ascii_oct_digit b = leb 48 b && leb b 55

unfoldable pub is_ascii_hex_digit : ℕ → Bool
unfolding is_ascii_digit
is_ascii_hex_digit b = is_ascii_digit b || leb 65 b && leb b 70 || leb 97 b && leb b 102

unfoldable pub hex_to_num : ℕ → ℕ
unfolding is_ascii_digit
hex_to_num b = if is_ascii_digit b then b - 48 else if leb b 70 then 10 + b - 65 else 10 + b - 97

-- the largest `i64`
abbrev pub largest_long : ℕ
largest_long = 9223372036854775807

-- `base*ret + digit` in a machine integer
unfoldable pub appended : ℕ → ℕ → ℕ → ℕ → Result ℕ
appended top base ret digit =
    if ltb top (base * ret + digit) then panic else ok (base * ret + digit)

-- `ret.try_into()`
unfoldable pub narrowed : Bool → ℕ → Result ℤ
narrowed true ret = if ltb (suc largest) ret then err TeXError.general else ok (negated ret)
narrowed false ret = if ltb largest ret then err TeXError.general else ok (pos ret)

module _ (E : Expansion) where
  -- the token is put back
  abbrev back : Token → ℤ → E.State → Result (ℤ × E.State)
  back t n s = ok (n, E.requeue t s)

  unfoldable pub dec_at :
      (ℕ → E.State → Result (ℤ × E.State))
      → Bool
      → ℕ
      → Token
      → Resolved
      → E.State
      → Result (ℤ × E.State)
  unfolding is_ascii_digit appended
  dec_at rec neg ret t (tk c CommandCode.other) s =
      if is_ascii_digit c
      then (do ret' ← appended largest 10 ret (c - 48); rec ret' s)
      else back t (signed neg ret) s
  dec_at rec neg ret t (tk c CommandCode.space) s = ok (signed neg ret, s)
  dec_at rec neg ret t (char_command c CommandCode.space) s = ok (signed neg ret, s)
  dec_at rec neg ret t r s = back t (signed neg ret) s

  unfoldable pub dec_go :
      (ℕ → E.State → Result (ℤ × E.State))
      → Bool
      → ℕ
      → Option (Token × Resolved) × E.State
      → Result (ℤ × E.State)
  unfolding dec_at
  dec_go rec neg ret (none, s) = ok (signed neg ret, s)
  dec_go rec neg ret (some (t, r), s) = dec_at rec neg ret t r s

  unfoldable pub dec_loop : ℕ → Bool → ℕ → E.State → Result (ℤ × E.State)
  unfolding dec_go
  dec_loop zero neg ret s = panic
  dec_loop (suc fuel) neg ret s = E.next s >>= dec_go (dec_loop fuel neg) neg ret

  unfoldable pub read_dec_int : ℕ → Bool → ℕ → E.State → Result (ℤ × E.State)
  unfolding dec_loop
  read_dec_int fuel neg first s = dec_loop fuel neg (first - 48) s

  -- With no digit read, a number is missing.
  abbrev or_missing : Bool → Result (ℤ × E.State) → Result (ℤ × E.State)
  or_missing true m = err TeXError.missing_number
  or_missing false m = m

  unfoldable pub oct_at :
      (Bool → ℕ → E.State → Result (ℤ × E.State))
      → Bool
      → Bool
      → ℕ
      → Token
      → Resolved
      → E.State
      → Result (ℤ × E.State)
  unfolding is_ascii_oct_digit appended
  oct_at rec neg empty ret t (tk c CommandCode.other) s =
      if is_ascii_oct_digit c
      then (do ret' ← appended largest 8 ret (c - 48); rec false ret' s)
      else or_missing empty (back t (signed neg ret) s)
  oct_at rec neg empty ret t (tk c CommandCode.space) s = or_missing empty (ok (signed neg ret, s))
  oct_at rec neg empty ret t (char_command c CommandCode.space) s =
      or_missing empty (ok (signed neg ret, s))
  oct_at rec neg empty ret t r s = or_missing empty (back t (signed neg ret) s)

  unfoldable pub oct_go :
      (Bool → ℕ → E.State → Result (ℤ × E.State))
      → Bool
      → Bool
      → ℕ
      → Option (Token × Resolved) × E.State
      → Result (ℤ × E.State)
  unfolding oct_at
  oct_go rec neg empty ret (none, s) = or_missing empty (ok (signed neg ret, s))
  oct_go rec neg empty ret (some (t, r), s) = oct_at rec neg empty ret t r s

  unfoldable pub oct_loop : ℕ → Bool → Bool → ℕ → E.State → Result (ℤ × E.State)
  unfolding oct_go
  oct_loop zero neg empty ret s = panic
  oct_loop (suc fuel) neg empty ret s = E.next s >>= oct_go (oct_loop fuel neg) neg empty ret

  unfoldable pub read_oct_int : ℕ → Bool → E.State → Result (ℤ × E.State)
  unfolding oct_loop
  read_oct_int fuel neg s = oct_loop fuel neg true 0 s

  -- the end of a hexadecimal number
  abbrev pub narrowed_at : Bool → ℕ → E.State → Result (ℤ × E.State)
  narrowed_at neg ret s = do n ← narrowed neg ret; ok (n, s)

  unfoldable pub hex_digit_or :
      (Bool → ℕ → E.State → Result (ℤ × E.State))
      → Bool
      → Bool
      → ℕ
      → ℕ
      → Token
      → E.State
      → Result (ℤ × E.State)
  unfolding is_ascii_hex_digit hex_to_num appended narrowed
  hex_digit_or rec neg empty ret c t s =
      if is_ascii_hex_digit c
      then (do ret' ← appended largest_long 16 ret (hex_to_num c); rec false ret' s)
      else or_missing empty (narrowed_at neg ret (E.requeue t s))

  -- A space ends the number, also where no digit has been read.
  unfoldable pub hex_at :
      (Bool → ℕ → E.State → Result (ℤ × E.State))
      → Bool
      → Bool
      → ℕ
      → Token
      → Resolved
      → E.State
      → Result (ℤ × E.State)
  unfolding hex_digit_or narrowed
  hex_at rec neg empty ret t (tk c CommandCode.other) s = hex_digit_or rec neg empty ret c t s
  hex_at rec neg empty ret t (tk c CommandCode.letter) s = hex_digit_or rec neg empty ret c t s
  hex_at rec neg empty ret t (tk c CommandCode.space) s = narrowed_at neg ret s
  hex_at rec neg empty ret t (char_command c CommandCode.space) s = narrowed_at neg ret s
  hex_at rec neg empty ret t r s = or_missing empty (narrowed_at neg ret (E.requeue t s))

  unfoldable pub hex_go :
      (Bool → ℕ → E.State → Result (ℤ × E.State))
      → Bool
      → Bool
      → ℕ
      → Option (Token × Resolved) × E.State
      → Result (ℤ × E.State)
  unfolding hex_at narrowed
  hex_go rec neg empty ret (none, s) = or_missing empty (narrowed_at neg ret s)
  hex_go rec neg empty ret (some (t, r), s) = hex_at rec neg empty ret t r s

  unfoldable pub hex_loop : ℕ → Bool → Bool → ℕ → E.State → Result (ℤ × E.State)
  unfolding hex_go
  hex_loop zero neg empty ret s = panic
  hex_loop (suc fuel) neg empty ret s = E.next s >>= hex_go (hex_loop fuel neg) neg empty ret

  unfoldable pub read_hex_int : ℕ → Bool → E.State → Result (ℤ × E.State)
  unfolding hex_loop
  read_hex_int fuel neg s = hex_loop fuel neg true 0 s

  -- the character behind a backtick
  unfoldable pub char_number : Option Token → Result ℕ
  char_number (some (character c code)) =
      if ltb largest c then err TeXError.missing_number else ok c
  char_number (some (control_sequence (c ∷ []))) = ok c
  char_number t = err TeXError.missing_number

  -- one space behind it
  unfoldable pub space_skipped : Option (Token × Resolved) × E.State → E.State
  space_skipped (none, s) = s
  space_skipped (some (t, tk c CommandCode.space), s) = s
  space_skipped (some (t, char_command c CommandCode.space), s) = s
  space_skipped (some (t, r), s) = E.requeue t s

  unfoldable pub read_int_char : Bool → E.State → Result (ℤ × E.State)
  unfolding char_number space_skipped
  read_int_char neg s = do
    (t, s') ← E.unexpanded s
    c ← char_number t
    n ← E.next s'
    ok (signed neg c, space_skipped n)

  unfoldable pub read_int_byte : ℕ → Bool → ℕ → E.State → Result (ℤ × E.State)
  unfolding read_hex_int read_oct_int read_int_char read_dec_int is_ascii_digit
  read_int_byte fuel neg b s =
      if b == 34
      then read_hex_int fuel neg s
      else if b == 39
      then read_oct_int fuel neg s
      else if b == 96
      then read_int_char neg s
      else if is_ascii_digit b
      then read_dec_int fuel neg b s
      else err TeXError.missing_number
