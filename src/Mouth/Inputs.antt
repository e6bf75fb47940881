-- ===== src/Mouth/Inputs.antt =====
-- engine/mouth.rs: `DefaultMouth`, the stack of files, strings and token lists that are being read.
-- A `Vec` used as a stack is a list with its last element in front. The vector of arguments that is
-- handed out for reuse, and the closing of files, are left out.
use rus_te_x.Prelude.{ℕ, Option, none, some, List, [], ◌∷◌, ◌++◌, ◌>>=◌, get_elem?}
use rus_te_x.Tex.Catcodes.{CommandCode}
use rus_te_x.Tex.Tokens.{Token, character, is_argument_marker}
use rus_te_x.Mouth.Input.{InputTokenizer}
use rus_te_x.Mouth.Input

pub data TokenSource : Type 0 where
  string : InputTokenizer → TokenSource
  file : InputTokenizer → ℕ → TokenSource
  tokens : List Token → TokenSource

pub record SourceReference : Type 0 where
  pub file : ℕ
  pub line : ℕ
  pub column : ℕ

pub record DefaultMouth : Type 0 where
  pub inputs : List TokenSource
  pub start_ref : List SourceReference
  -- emptied vectors that are kept for reuse
  pub vecs : List (List Token)

abbrev pub eof_token : Token
eof_token = character 0 CommandCode.eof

abbrev pub with_inputs : List TokenSource → DefaultMouth → DefaultMouth
with_inputs i m = record m { inputs = i }

-- a reused vector, or a new one, under `f`
unfoldable pub reuse : (List Token → List Token) → List (List Token) → DefaultMouth → DefaultMouth
reuse f [] m = with_inputs (tokens (f []) ∷ m.inputs) m
reuse f (v ∷ vs) m = record m { inputs = tokens (f v) ∷ m.inputs; vecs = vs }

unfoldable pub with_list_at :
    (List Token → List Token) → List TokenSource → DefaultMouth → DefaultMouth
unfolding reuse
with_list_at f (tokens v ∷ rest) m = with_inputs (tokens (f v) ∷ rest) m
with_list_at f _ m = reuse f m.vecs m

unfoldable pub with_list : (List Token → List Token) → DefaultMouth → DefaultMouth
unfolding with_list_at
with_list f m = with_list_at f m.inputs m

unfoldable pub requeue : Token → DefaultMouth → DefaultMouth
unfolding with_list
requeue t = with_list (λ v. t ∷ v)

-- `v.extend(exp.iter().rev())`; `push_vec` is the same
unfoldable pub push_exp : List Token → DefaultMouth → DefaultMouth
unfolding with_list
push_exp exp = with_list (λ v. exp ++ v)

-- what `extend` does with tokens that are already in reverse
unfoldable pub extend : List Token → List Token → List Token
extend [] v = v
extend (t ∷ ts) v = extend ts (t ∷ v)

unfoldable pub push_slice_rev : List Token → DefaultMouth → DefaultMouth
unfolding with_list extend
push_slice_rev exp = with_list (extend exp)

-- `consume_rev`: the arguments stand for their markers. `none` is an index out of range.
unfoldable pub expand_marker : Option ℕ → List (List Token) → Token → Option (List Token)
expand_marker none args t = some (t ∷ [])
expand_marker (some i) args t = get_elem? args i

unfoldable pub consume_rev : List Token → List (List Token) → List Token → Option (List Token)
unfolding expand_marker is_argument_marker
consume_rev [] args v = some v
consume_rev (t ∷ ts) args v = do
  rest ← consume_rev ts args v
  e ← expand_marker (is_argument_marker t) args t
  some (e ++ rest)

-- `push_macro_exp`
unfoldable pub push_macro_exp : List Token → List (List Token) → DefaultMouth → Option DefaultMouth
unfolding consume_rev with_list
push_macro_exp exp args m = do ts ← consume_rev exp args []; some (with_list (λ v. ts ++ v) m)

unfoldable pub push_string : List (List ℕ) → DefaultMouth → DefaultMouth
unfolding Input.new
push_string s m = with_inputs (string (Input.new s) ∷ m.inputs) m

unfoldable pub push_file : ℕ → List (List ℕ) → DefaultMouth → DefaultMouth
unfolding Input.new
push_file id s m = record m {
  inputs = file (Input.new s) id ∷ m.inputs;
  start_ref = record { file = id; line = 0; column = 0 } ∷ m.start_ref;
}

abbrev without_last : {A : Type 0} → List A → List A
without_last [] = []
without_last (x ∷ xs) = xs

-- the source is popped; `none` is `unreachable!`
unfoldable pub close_source : List TokenSource → DefaultMouth → Option DefaultMouth
close_source (file f id ∷ rest) m =
    some (record m { inputs = rest; start_ref = without_last m.start_ref })
close_source (string s ∷ rest) m = some (with_inputs rest m)
close_source _ m = none

-- `v.pop().unwrap()` on the last source
unfoldable pub pop_token : List TokenSource → DefaultMouth → Option (Token × DefaultMouth)
pop_token (tokens (t ∷ ts) ∷ rest) m = some (t, with_inputs (tokens ts ∷ rest) m)
pop_token _ m = none

unfoldable pub every_eof : List Token → DefaultMouth → Option (Token × DefaultMouth)
unfolding requeue push_exp pop_token
every_eof [] m = some (eof_token, m)
every_eof (t ∷ ts) m = let m' = push_exp (t ∷ ts) (requeue eof_token m) in pop_token m'.inputs m'

-- `everyeof` is the value of `\everyeof`
unfoldable pub end_file : List Token → DefaultMouth → Option (Token × DefaultMouth)
unfolding every_eof close_source
end_file everyeof m = do m' ← close_source m.inputs m; every_eof everyeof m'

-- `line_number`
unfoldable pub line_number_from : List TokenSource → ℕ
line_number_from [] = 0
line_number_from (file s id ∷ rest) = s.line
line_number_from (_ ∷ rest) = line_number_from rest
