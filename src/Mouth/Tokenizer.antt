-- ===== src/Mouth/Tokenizer.antt =====
-- engine/mouth/strings.rs: `get_next`, `check_char` and `return_endline`. The recursion through `^^`
-- and over characters that give nothing takes fuel.
use rus_te_x.Prelude.{ℕ, zero, suc, Option, none, some, [], ◌∷◌, if◌then◌else◌, ◌>>=◌}
use rus_te_x.Tex.Catcodes.{CategoryCode, CommandCode, CategoryCodeScheme, to_command}
use rus_te_x.Tex.Tokens.{Token, control_sequence, character, space_token}
use rus_te_x.Mouth.Input.{
  MouthState, new_line, skip_blank, mid_line, InputTokenizer, get_char, next_line, do_par,
}
use rus_te_x.Mouth.Superscript.{maybe_superscript}
use rus_te_x.Mouth.Names.{in_state, get_escape}

-- what a character gives: a token, nothing, or `InvalidCharacter`
pub data Read : Type 0 where
  token : Token → Read
  nothing : Read
  invalid : ℕ → Read

-- `handler.par()`
abbrev pub par : Token
par = control_sequence (b'p' ∷ b'a' ∷ b'r' ∷ [])

-- the remaining case of `check_char` and `return_endline`
abbrev char_token : ℕ → CategoryCode → Option Token
char_token c cat = do code ← to_command cat; some (character c code)

-- the arms of `return_endline` for the end-of-line character `c`, after `next_line`
unfoldable pub endline_token :
    CategoryCode → MouthState → ℕ → InputTokenizer → Option (Read × InputTokenizer)
endline_token CategoryCode.space skip_blank c t = some (nothing, t)
endline_token CategoryCode.eol skip_blank c t = some (nothing, t)
endline_token CategoryCode.space new_line c t = some (nothing, t)
endline_token CategoryCode.eol new_line c t = some (token par, do_par t)
endline_token CategoryCode.eol mid_line c t = some (token space_token, t)
endline_token CategoryCode.ignored m c t = some (nothing, t)
endline_token CategoryCode.invalid m c t = some (nothing, t)
endline_token CategoryCode.comment m c t = some (nothing, t)
endline_token o m c t = do tk ← char_token c o; some (token tk, t)

module _ (cc : CategoryCodeScheme) (endline : Option ℕ) where
  unfoldable pub end_line : Option ℕ → InputTokenizer → Option (Read × InputTokenizer)
  unfolding endline_token
  end_line none t = some (nothing, t)
  end_line (some c) t = endline_token (cc c) t.state c t

  unfoldable pub return_endline : InputTokenizer → Option (Read × InputTokenizer)
  unfolding end_line next_line
  return_endline t = do (r, t') ← end_line endline (next_line t); some (r, in_state new_line t')

  -- the guards on the state in `check_char`
  unfoldable pub check_eol : MouthState → InputTokenizer → Option (Read × InputTokenizer)
  unfolding return_endline do_par
  check_eol new_line t = some (token par, do_par (next_line t))
  check_eol _ t = return_endline t

  unfoldable pub check_space : MouthState → InputTokenizer → Option (Read × InputTokenizer)
  check_space mid_line t = some (token space_token, in_state skip_blank t)
  check_space _ t = some (nothing, t)

  unfoldable pub check_sup :
      (ℕ → InputTokenizer → Option (Read × InputTokenizer))
      → ℕ
      → Option ℕ
      → InputTokenizer
      → Option (Read × InputTokenizer)
  check_sup rec c (some c') t = rec c' t
  check_sup rec c none t = some (token (character c CommandCode.superscript), in_state mid_line t)

  unfoldable pub check_at :
      (ℕ → InputTokenizer → Option (Read × InputTokenizer))
      → ℕ
      → CategoryCode
      → ℕ
      → InputTokenizer
      → Option (Read × InputTokenizer)
  unfolding check_eol check_space check_sup get_escape
  check_at rec fuel CategoryCode.eol c t = check_eol t.state t
  check_at rec fuel CategoryCode.space c t = check_space t.state t
  check_at rec fuel CategoryCode.ignored c t = some (nothing, t)
  check_at rec fuel CategoryCode.comment c t = some (nothing, in_state new_line (next_line t))
  check_at rec fuel CategoryCode.invalid c t = some (invalid c, t)
  check_at rec fuel CategoryCode.escape c t = do
    (tk, t') ← get_escape cc endline fuel t
    some (token tk, t')
  check_at rec fuel CategoryCode.superscript c t = do
    (r, t') ← maybe_superscript c t
    check_sup rec c r t'
  check_at rec fuel cat c t = do tk ← char_token c cat; some (token tk, in_state mid_line t)

  unfoldable pub check_char : ℕ → ℕ → InputTokenizer → Option (Read × InputTokenizer)
  unfolding check_at
  check_char zero c t = none
  check_char (suc fuel) c t = check_at (check_char fuel) fuel (cc c) c t

  unfoldable pub next_go :
      (InputTokenizer → Option (Read × InputTokenizer))
      → Read
      → InputTokenizer
      → Option (Read × InputTokenizer)
  next_go rec nothing t = rec t
  next_go rec r t = some (r, t)

  -- At the end of the file there is no token.
  unfoldable pub next_at :
      (InputTokenizer → Option (Read × InputTokenizer))
      → ℕ
      → Option (ℕ × InputTokenizer)
      → InputTokenizer
      → Option (Read × InputTokenizer)
  unfolding next_go return_endline check_char
  next_at rec fuel none t =
      if t.eof then some (nothing, t) else (do (r, t') ← return_endline t; next_go rec r t')
  next_at rec fuel (some (c, t')) t = do (r, t'') ← check_char fuel c t'; next_go rec r t''

  unfoldable pub get_next : ℕ → InputTokenizer → Option (Read × InputTokenizer)
  unfolding next_at
  get_next zero t = none
  get_next (suc fuel) t = next_at (get_next fuel) fuel (get_char t) t
