-- ===== src/Mouth/ReadLoop.antt =====
-- engine/mouth/strings.rs: `read`, which gives the tokens of a line to a function. The model returns
-- the list of these tokens; `ingroups` is a `usize`, which must not go below zero.
use rus_te_x.Prelude.{
  ℕ, zero, suc, ◌+◌, ◌-◌, ◌||◌, Option, none, some, List, [], ◌∷◌, if◌then◌else◌, ◌>>=◌, ◌==◌, ltb,
}
use rus_te_x.Tex.Catcodes.{CommandCode, CategoryCodeScheme}
use rus_te_x.Tex.Tokens.{Token, character}
use rus_te_x.Mouth.Input.{InputTokenizer, get_char}
use rus_te_x.Mouth.Tokenizer.{Read, token, nothing, invalid, return_endline, check_char}

-- the tokens, the invalid character that is reported, if any, and the tokenizer
pub record Given : Type 0 where
  pub tokens : List Token
  pub error : Option ℕ
  pub after : InputTokenizer

given : Option ℕ → InputTokenizer → Given
given error t = record { tokens = []; error = error; after = t }

-- `f(tk)` before the rest
give : Token → Given → Given
give tk g = record g { tokens = tk ∷ g.tokens }

-- `ingroups` after a token
count : Token → ℕ → Option ℕ
count (character c CommandCode.begin_group) ingroups = some (ingroups + 1)
count (character c CommandCode.end_group) ingroups =
    if ingroups == 0 then none else some (ingroups - 1)
count _ ingroups = some ingroups

module _ (cc : CategoryCodeScheme) (endline : Option ℕ) where
  -- the end of the line
  read_end : Option ℕ → Read → InputTokenizer → Given
  unfolding given give
  read_end error (token tk) t = give tk (given error t)
  read_end error _ t = given error t

  read_go :
      (ℕ → Option ℕ → InputTokenizer → Option Given)
      → ℕ
      → ℕ
      → Option ℕ
      → Read
      → InputTokenizer
      → Option Given
  unfolding given give count
  read_go rec line ingroups error nothing t =
      if t.line == line || ltb 0 ingroups then rec ingroups error t else some (given error t)
  read_go rec line ingroups error (token tk) t = do
    ingroups' ← count tk ingroups
    g ← rec ingroups' error t
    some (give tk g)
  read_go rec line ingroups error (invalid c) t = do
    g ← rec ingroups (some c) t
    some (give (character c CommandCode.other) g)

  read_step :
      (ℕ → Option ℕ → InputTokenizer → Option Given)
      → ℕ
      → ℕ
      → ℕ
      → Option ℕ
      → Option (ℕ × InputTokenizer)
      → InputTokenizer
      → Option Given
  unfolding given read_end read_go return_endline check_char
  read_step rec fuel line ingroups error none t =
      if t.eof
      then some (given error t)
      else (do (r, t') ← return_endline cc endline t; some (read_end error r t'))
  read_step rec fuel line ingroups error (some (c, t')) t = do
    (r, t'') ← check_char cc endline fuel c t'
    read_go rec line ingroups error r t''

  -- the loop; the line on which it began is `line`
  unfoldable pub read_loop : ℕ → ℕ → ℕ → Option ℕ → InputTokenizer → Option Given
  unfolding given read_step
  read_loop zero line ingroups error t = none
  read_loop (suc fuel) line ingroups error t =
      let next = read_step (read_loop fuel line) fuel line ingroups error (get_char t) t in
      if t.line == line || ltb 0 ingroups then next else some (given error t)

  unfoldable pub read : ℕ → InputTokenizer → Option Given
  unfolding read_loop
  read fuel t = read_loop fuel t.line 0 none t
