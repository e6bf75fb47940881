-- ===== src/Mouth/Input.antt =====
-- engine/mouth/strings.rs: the state of `InputTokenizer` and its moves over characters and lines.
-- A line source is the list of the lines that it has yet to give. The scratch vector `tempstr` is
-- no part of the state. In results `none` is a panic, or the end of the fuel.
use rus_te_x.Prelude.{
  ℕ, ◌+◌, ◌-◌, Bool, true, false, Option, none, some, List, [], ◌∷◌, ltb, if◌then◌else◌, length,
  get_elem?,
}

pub data MouthState : Type 0 where
  new_line skip_blank mid_line : MouthState

pub record InputTokenizer : Type 0 where
  pub state : MouthState
  pub line : ℕ
  pub col : ℕ
  pub current_line : List ℕ
  pub source : List (List ℕ)
  pub eof : Bool

-- `source.get_line().unwrap_or(TextLine::default())`
abbrev first_line : List (List ℕ) → List ℕ
first_line [] = []
first_line (l ∷ ls) = l

abbrev other_lines : List (List ℕ) → List (List ℕ)
other_lines [] = []
other_lines (l ∷ ls) = ls

unfoldable pub new : List (List ℕ) → InputTokenizer
new source = record {
  state = new_line;
  line = 1;
  col = 0;
  current_line = first_line source;
  source = other_lines source;
  eof = false;
}

-- `none` at the end of the line
unfoldable pub get_char : InputTokenizer → Option (ℕ × InputTokenizer)
get_char t = elim (get_elem? t.current_line t.col) [
  | none ↦ none
  | some c ↦ some (c, record t { col = t.col + 1 })
]

-- `self.col -= n` on a `usize`
unfoldable pub back : ℕ → InputTokenizer → Option InputTokenizer
back n t = if ltb t.col n then none else some (record t { col = t.col - n })

unfoldable pub next_line_from : List (List ℕ) → InputTokenizer → InputTokenizer
next_line_from [] t = record t { eof = true; col = length t.current_line; state = mid_line }
next_line_from (l ∷ ls) t = record t { current_line = l; line = t.line + 1; col = 0; source = ls }

unfoldable pub next_line : InputTokenizer → InputTokenizer
unfolding next_line_from
next_line t = next_line_from t.source t

-- the loop of `do_par`
unfoldable pub skip_empty : List (List ℕ) → InputTokenizer → InputTokenizer
skip_empty [] t = record t { source = [] }
skip_empty ([] ∷ ls) t = skip_empty ls (record t { line = t.line + 1 })
skip_empty ((c ∷ cs) ∷ ls) t = record t { line = t.line + 1; current_line = c ∷ cs; source = ls }

unfoldable pub do_par_at : List ℕ → InputTokenizer → InputTokenizer
do_par_at [] t = skip_empty t.source t
do_par_at (c ∷ cs) t = t

-- `do_par`; the token that it returns is the caller's `par`
unfoldable pub do_par : InputTokenizer → InputTokenizer
unfolding do_par_at skip_empty
do_par t = do_par_at t.current_line t
