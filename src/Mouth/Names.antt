-- ===== src/Mouth/Names.antt =====
-- engine/mouth/strings.rs: `get_escape`, `check_escape` and `get_cs_name`, which read the name of a
-- control sequence. The recursion through `^^` and the loop take fuel.
use rus_te_x.Prelude.{
  ℕ, zero, suc, Bool, true, false, Option, none, some, List, [], ◌∷◌, ◌++◌, if◌then◌else◌, ◌>>=◌,
}
use rus_te_x.Tex.Catcodes.{CategoryCode, CategoryCodeScheme}
use rus_te_x.Tex.Tokens.{Token, control_sequence}
use rus_te_x.Mouth.Input.{
  MouthState, skip_blank, mid_line, InputTokenizer, get_char, back, next_line,
}
use rus_te_x.Mouth.Superscript.{maybe_superscript}

abbrev pub in_state : MouthState → InputTokenizer → InputTokenizer
in_state m t = record t { state = m }

abbrev pub is_letter : CategoryCode → Bool
is_letter CategoryCode.letter = true
is_letter _ = false

-- the name at the end of a line
abbrev pub endline_name : Option ℕ → List ℕ
endline_name none = []
endline_name (some c) = c ∷ []

module _ (cc : CategoryCodeScheme) (endline : Option ℕ) where
  -- what `get_cs_name` does with the result of `maybe_superscript`; `t` is the state before it
  unfoldable pub cs_sup :
      Option ℕ → InputTokenizer → InputTokenizer → Option (Option ℕ × InputTokenizer)
  cs_sup none t t' = do u ← back 1 (record t' { col = t.col }); some (none, u)
  cs_sup (some c) t t' =
      if is_letter (cc c)
      then some (some c, t')
      else (do u ← back 1 (record t' { col = t.col }); some (none, u))

  -- one round of the loop in `get_cs_name`, on a character that was read: the letter found, if any
  unfoldable pub cs_letter : CategoryCode → ℕ → InputTokenizer → Option (Option ℕ × InputTokenizer)
  unfolding cs_sup
  cs_letter CategoryCode.letter next t = some (some next, t)
  cs_letter CategoryCode.superscript next t = do (r, t') ← maybe_superscript next t; cs_sup r t t'
  cs_letter _ next t = do t' ← back 1 t; some (none, t')

  unfoldable pub cs_round :
      Option (ℕ × InputTokenizer) → InputTokenizer → Option (Option ℕ × InputTokenizer)
  unfolding cs_letter
  cs_round none t = some (none, t)
  cs_round (some (next, t')) t = cs_letter (cc next) next t'

  unfoldable pub cs_go :
      (List ℕ → InputTokenizer → Option (List ℕ × InputTokenizer))
      → List ℕ
      → Option ℕ
      → InputTokenizer
      → Option (List ℕ × InputTokenizer)
  cs_go rec tempstr none t = some (tempstr, t)
  cs_go rec tempstr (some c) t = rec (tempstr ++ c ∷ []) t

  -- the loop of `get_cs_name`
  unfoldable pub cs_loop : ℕ → List ℕ → InputTokenizer → Option (List ℕ × InputTokenizer)
  unfolding cs_round cs_go
  cs_loop zero tempstr t = none
  cs_loop (suc fuel) tempstr t = do
    (r, t') ← cs_round (get_char t) t
    cs_go (cs_loop fuel) tempstr r t'

  unfoldable pub get_cs_name : ℕ → ℕ → InputTokenizer → Option (List ℕ × InputTokenizer)
  unfolding cs_loop
  get_cs_name fuel letter t = cs_loop fuel (letter ∷ []) (in_state skip_blank t)

  -- a control sequence of one character
  abbrev single : ℕ → InputTokenizer → List ℕ × InputTokenizer
  single next t = (next ∷ [], in_state mid_line t)

  unfoldable pub escape_sup :
      (ℕ → InputTokenizer → Option (List ℕ × InputTokenizer))
      → ℕ
      → Option ℕ
      → InputTokenizer
      → Option (List ℕ × InputTokenizer)
  escape_sup rec next (some c) t = rec c t
  escape_sup rec next none t = some (single next t)

  unfoldable pub escape_at :
      (ℕ → InputTokenizer → Option (List ℕ × InputTokenizer))
      → ℕ
      → CategoryCode
      → ℕ
      → InputTokenizer
      → Option (List ℕ × InputTokenizer)
  unfolding escape_sup get_cs_name
  escape_at rec fuel CategoryCode.superscript next t = do
    (r, t') ← maybe_superscript next t
    escape_sup rec next r t'
  escape_at rec fuel CategoryCode.letter next t = get_cs_name fuel next t
  escape_at rec fuel _ next t = some (single next t)

  unfoldable pub check_escape : ℕ → ℕ → InputTokenizer → Option (List ℕ × InputTokenizer)
  unfolding escape_at
  check_escape zero next t = none
  check_escape (suc fuel) next t = escape_at (check_escape fuel) fuel (cc next) next t

  unfoldable pub escape_from :
      ℕ → Option (ℕ × InputTokenizer) → InputTokenizer → Option (List ℕ × InputTokenizer)
  unfolding check_escape next_line
  escape_from fuel none t = some (endline_name endline, next_line t)
  escape_from fuel (some (next, t')) t = check_escape fuel next t'

  unfoldable pub get_escape : ℕ → InputTokenizer → Option (Token × InputTokenizer)
  unfolding escape_from
  get_escape fuel t = do
    (name, t') ← escape_from fuel (get_char t) t
    some (control_sequence name, t')
