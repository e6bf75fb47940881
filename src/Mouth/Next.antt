-- ===== src/Mouth/Next.antt =====
-- engine/mouth.rs: `get_next` of `DefaultMouth`. `none` is a panic or the end of the fuel.
use rus_te_x.Prelude.{ℕ, zero, suc, Option, none, some, List, [], ◌∷◌, ◌>>=◌}
use rus_te_x.Tex.Catcodes.{CategoryCodeScheme}
use rus_te_x.Tex.Tokens.{Token}
use rus_te_x.Mouth.Tokenizer.{Read, token, nothing, invalid}
use rus_te_x.Mouth.Tokenizer
use rus_te_x.Mouth.Inputs.{
  TokenSource, string, file, tokens, DefaultMouth, with_inputs, push_string, end_file,
}

-- the result: a token, the end of all input, or an invalid character that nothing recovers from
pub data Next : Type 0 where
  a_token : Token → Next
  no_input : Next
  failed : ℕ → Next

-- what the state and the error handler give: the category codes, the character at the end of lines,
-- the tokens of `\everyeof`, and the answer to an invalid character: an error, nothing, or lines
pub record Settings : Type 0 where
  pub catcodes : CategoryCodeScheme
  pub endline : Option ℕ
  pub everyeof : List Token
  pub invalid_character : ℕ → Option (Option (List (List ℕ)))

-- `recover`
recovered : ℕ → Option (Option (List (List ℕ))) → DefaultMouth → Option DefaultMouth
unfolding push_string
recovered c none m = none
recovered c (some none) m = some m
recovered c (some (some s)) m = some (push_string s m)

-- a token, or a pair like it, as the result
abbrev as_next : Token × DefaultMouth → Next × DefaultMouth
as_next (t, m) = (a_token t, m)

-- `at_end` is what happens where a tokenizer has come to its end.
module _ (settings : Settings) (at_end : DefaultMouth → Option (Next × DefaultMouth)) where
  -- after a tokenizer: its read, and the mouth with the tokenizer written back
  after_read :
      (DefaultMouth → Option (Next × DefaultMouth))
      → Read
      → DefaultMouth
      → Option (Next × DefaultMouth)
  unfolding recovered
  after_read rec (token t) m = some (a_token t, m)
  after_read rec nothing m = at_end m
  after_read rec (invalid c) m = elim (recovered c (settings.invalid_character c) m) [
    | none ↦ some (failed c, m)
    | some m' ↦ rec m'
  ]

  unfoldable pub next_from :
      (DefaultMouth → Option (Next × DefaultMouth))
      → ℕ
      → List TokenSource
      → DefaultMouth
      → Option (Next × DefaultMouth)
  unfolding after_read Tokenizer.get_next
  next_from rec fuel [] m = some (no_input, m)
  next_from rec fuel (tokens (t ∷ ts) ∷ rest) m = some (a_token t, with_inputs (tokens ts ∷ rest) m)
  next_from rec fuel (tokens [] ∷ rest) m = rec (record m { inputs = rest; vecs = [] ∷ m.vecs })
  next_from rec fuel (string s ∷ rest) m = do
    (r, s') ← Tokenizer.get_next settings.catcodes settings.endline fuel s
    after_read rec r (with_inputs (string s' ∷ rest) m)
  next_from rec fuel (file s id ∷ rest) m = do
    (r, s') ← Tokenizer.get_next settings.catcodes settings.endline fuel s
    after_read rec r (with_inputs (file s' id ∷ rest) m)

  unfoldable pub loop_next : ℕ → DefaultMouth → Option (Next × DefaultMouth)
  unfolding next_from
  loop_next zero m = none
  loop_next (suc fuel) m = next_from (loop_next fuel) fuel m.inputs m

module _ (settings : Settings) where
  unfoldable pub end_of_file : DefaultMouth → Option (Next × DefaultMouth)
  unfolding end_file
  end_of_file m = do x ← end_file settings.everyeof m; some (as_next x)

  -- At the end of a file, `get_next` goes on behind it.
  unfoldable pub get_next : ℕ → DefaultMouth → Option (Next × DefaultMouth)
  unfolding loop_next end_of_file
  get_next = loop_next settings end_of_file

  -- the next token that `iterate` hands to its function. At the end of a file it calls `eof`.
  unfoldable pub iterate_next : ℕ → DefaultMouth → Option (Next × DefaultMouth)
  unfolding loop_next
  iterate_next = loop_next settings (λ m. some (no_input, m))
