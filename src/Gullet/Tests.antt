-- ===== src/Gullet/Tests.antt =====
-- Runs of the gullet's functions on small inputs.
use rus_te_x.Prelude.{
  ℕ, true, false, none, some, List, [], ◌∷◌, ◌++◌, ◌≤◌, ◌≡◌, refl, arith, append-nil,
}
use rus_te_x.Tex.Catcodes.{CommandCode, default_scheme, as_byte}
use rus_te_x.Tex.Tokens
use rus_te_x.Tex.Tokens.{Token, control_sequence, character, primitive, is_argument_marker}
use rus_te_x.Mouth.Inputs.{DefaultMouth, tokens, consume_rev}
use rus_te_x.Mouth.Next.{Settings}
use rus_te_x.Mouth.Pending.{pending_in, below_in, Holds}
use rus_te_x.Gullet.Result.{ok}
use rus_te_x.Gullet.Source.{Mouth, default_mouth}
use rus_te_x.Gullet.Groups.{kind}
use rus_te_x.Gullet.Parser.{
  MacroParser, Macro, argument_marker, do_signature_token, do_expansion_token, close,
}
use rus_te_x.Gullet.Arguments.{same_token, same_tokens, ends_with, last_of, read_delimited_argument}
use rus_te_x.Gullet.Macros.{read_macro, do_macro}
use rus_te_x.Gullet.Pieces.{single, group}
use rus_te_x.Gullet.DelimitedText.{read_delimited_argument-Pieces}
use rus_te_x.Gullet.Calls.{Slot, AreSlots, undelimited, delimited}
use rus_te_x.Gullet.MacroCalls.{do_macro-Slots}
use rus_te_x.Gullet.Definitions.{BodyItem, body_token, body_parameter, brace, defined}
use rus_te_x.Gullet.MacroCalls.{substituted}
use rus_te_x.Gullet.Invariant.{After, IsParsed, token-IsParsed, consume_rev-IsParsed}
use rus_te_x.Gullet.RoundTrip.{read_macro-definition, do_macro-read_macro}

abbrev settings : Settings
settings = record {
  catcodes = default_scheme;
  endline = some 13;
  everyeof = [];
  invalid_character = λ c. none;
}

abbrev pub mouth : Mouth
mouth = default_mouth settings 3 [] []

-- a mouth that holds the tokens only
abbrev pub holding : List Token → DefaultMouth
holding ts = record { inputs = tokens ts ∷ []; start_ref = []; vecs = [] }

pub holding-Holds : (ts : List Token) → Holds (holding ts) ts [] []
unfolding pending_in below_in
holding-Holds ts = record { waits = append-nil ts; under = refl; located = refl; pool = tt }

abbrev hash : Token
hash = character 35 CommandCode.parameter

abbrev open_brace : Token
open_brace = character 123 CommandCode.begin_group

abbrev close_brace : Token
close_brace = character 125 CommandCode.end_group

abbrev space : Token
space = character 32 CommandCode.space

abbrev dot : Token
dot = character 46 CommandCode.other

abbrev letter : ℕ → Token
letter c = character c CommandCode.letter

-- `#1.#2{#2a#1}`
abbrev swap_delimiters : List (List Token)
swap_delimiters = (dot ∷ []) ∷ [] ∷ []

abbrev swap_body : List BodyItem
swap_body = body_parameter hash 1 ∷ body_token (letter b'a') ∷ body_parameter hash 0 ∷ []

-- `{x}. y`
abbrev swap_call : List Slot
swap_call =
    delimited (group open_brace (letter b'x' ∷ []) close_brace ∷ []) dot []
    ∷ undelimited (space ∷ []) (single (letter b'y'))
    ∷ []

abbrev swap_text : List Token
swap_text = open_brace ∷ letter b'x' ∷ close_brace ∷ dot ∷ space ∷ letter b'y' ∷ letter b'z' ∷ []

abbrev swap_definition : List Token
swap_definition =
    hash
    ∷ character 49 CommandCode.other
    ∷ dot
    ∷ hash
    ∷ character 50 CommandCode.other
    ∷ open_brace
    ∷ hash
    ∷ character 50 CommandCode.other
    ∷ letter b'a'
    ∷ hash
    ∷ character 49 CommandCode.other
    ∷ close_brace
    ∷ []

swap_call-AreSlots : AreSlots 7 false swap_call
unfolding kind is_argument_marker ends_with last_of same_tokens same_token as_byte
swap_call-AreSlots = (
  (((tt, tt), ((refl, (refl, refl, refl, (refl, tt))), tt), tt), (refl, tt)),
  (((refl, tt), refl), tt),
)

do_macro-read_macro_example :
    (m : Macro) × (s1 : DefaultMouth) × (s2 : DefaultMouth) × (read_macro 7 mouth 40 false false
        false
        (holding (swap_definition ++ swap_text))
      ≡ ok (m, s1))
    × (do_macro 7 mouth 40 m s1 ≡ ok s2)
    × Holds s2 (letter b'y' ∷ letter b'a' ∷ letter b'x' ∷ letter b'z' ∷ []) [] []
unfolding kind Tokens.command_code is_argument_marker same_tokens ends_with last_of same_token
do_macro-read_macro_example =
    do_macro-read_macro 7 mouth hash refl [] swap_delimiters (brace open_brace) swap_body false
      false false 40 close_brace [] [] swap_call (letter b'z' ∷ [])
      (holding (swap_definition ++ swap_text))
      (
        tt,
        ((tt, tt), (tt, tt)),
        refl,
        ((refl, omega arith), ((tt, refl), ((refl, omega arith), tt))),
        refl,
      )
      refl (refl, refl, omega arith, refl, tt, swap_call-AreSlots)
      (holding-Holds (swap_definition ++ swap_text)) (omega arith)

read_macro-definition_example :
    (s' : DefaultMouth) × (read_macro 7 mouth 20 true false false
        (holding (swap_definition ++ letter b'z' ∷ []))
      ≡ ok (defined true false false [] swap_delimiters (brace open_brace) swap_body, s'))
    × Holds s' (letter b'z' ∷ []) [] []
unfolding kind Tokens.command_code is_argument_marker
read_macro-definition_example =
    read_macro-definition 7 mouth hash refl [] swap_delimiters (brace open_brace) swap_body true
      false false 20 close_brace (letter b'z' ∷ []) (holding (swap_definition ++ letter b'z' ∷ []))
      (
        tt,
        ((tt, tt), (tt, tt)),
        refl,
        ((refl, omega arith), ((tt, refl), ((refl, omega arith), tt))),
        refl,
      )
      refl (holding-Holds (swap_definition ++ letter b'z' ∷ [])) (omega arith) (omega arith)

abbrev swap : Macro
swap = defined false false false [] swap_delimiters (brace open_brace) swap_body

do_macro-Slots_example :
    (s' : DefaultMouth) × (do_macro 7 mouth 20 swap (holding swap_text) ≡ ok s')
    × Holds s' (letter b'y' ∷ letter b'a' ∷ letter b'x' ∷ letter b'z' ∷ []) [] []
unfolding same_tokens is_argument_marker
do_macro-Slots_example =
    do_macro-Slots 7 mouth 20 swap [] [] swap_call (letter b'z' ∷ []) (holding swap_text) refl refl
      (omega arith) (omega arith, (tt, (omega arith, tt))) refl tt swap_call-AreSlots
      (holding-Holds swap_text) (omega arith)

-- `a{.}b.`, with the delimiter `.`
abbrev dotted : List Token
dotted = letter b'a' ∷ open_brace ∷ dot ∷ close_brace ∷ letter b'b' ∷ dot ∷ letter b'z' ∷ []

read_delimited_argument-Pieces_example :
    (s' : DefaultMouth) × (read_delimited_argument 7 mouth true 20 dot [] [] (holding dotted)
      ≡ ok (letter b'a' ∷ open_brace ∷ dot ∷ close_brace ∷ letter b'b' ∷ [], s'))
    × Holds s' (letter b'z' ∷ []) [] []
unfolding kind ends_with last_of same_tokens same_token as_byte
read_delimited_argument-Pieces_example =
    read_delimited_argument-Pieces 7 mouth true dot []
      (single (letter b'a') ∷ group open_brace (dot ∷ []) close_brace ∷ single (letter b'b') ∷ [])
      (letter b'z' ∷ []) 20 (holding dotted)
      ((tt, tt), (tt, ((refl, (refl, refl, refl, (refl, tt))), (tt, tt))), (refl, (refl, tt)))
      (holding-Holds dotted) (omega arith)

-- a digit behind `#` in the signature, and in the body
abbrev half_parsed : MacroParser
half_parsed = record {
  arity = 1;
  params = argument_marker 0 ∷ dot ∷ [];
  inparam = true;
  ends_with_brace = none;
  exp = letter b'a' ∷ argument_marker 0 ∷ [];
}

token-IsParsed_example :
    After
      (207 ≤ 1)
      (λ r. IsParsed r.1)
      (do_signature_token (character 50 CommandCode.other) half_parsed)
    × After ⊥ IsParsed (do_expansion_token (character 50 CommandCode.other) half_parsed)
unfolding is_argument_marker
token-IsParsed_example =
    token-IsParsed (character 50 CommandCode.other) half_parsed refl
      (refl, (tt, (omega arith, tt)), tt)

consume_rev-IsParsed_example :
    consume_rev (close false false false half_parsed).expansion ((letter b'x' ∷ []) ∷ [] ∷ []) []
    ≡ some
        (substituted ((letter b'x' ∷ []) ∷ [] ∷ []) (close false false false half_parsed).expansion)
unfolding is_argument_marker
consume_rev-IsParsed_example =
    consume_rev-IsParsed half_parsed false false false ((letter b'x' ∷ []) ∷ [] ∷ [])
      (refl, (tt, (omega arith, tt)), tt) (omega arith)
