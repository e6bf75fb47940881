-- ===== src/Gullet/BranchTests.antt =====
-- Runs of conditionals on small inputs.
use rus_te_x.Prelude.{
  ℕ, Bool, true, false, List, [], ◌∷◌, ◌++◌, ◌≡◌, ◌≢◌, refl, arith, if◌then◌else◌, ◌==◌,
}
use rus_te_x.Tex.Numbers.{pos, negsuc}
use rus_te_x.Tex.Catcodes.{CommandCode}
use rus_te_x.Tex.Tokens.{Token, control_sequence, character, primitive}
use rus_te_x.Mouth.Inputs.{DefaultMouth}
use rus_te_x.Mouth.Pending.{Holds}
use rus_te_x.Gullet.Result.{Result, ok}
use rus_te_x.Gullet.Tests.{mouth, holding, holding-Holds}
use rus_te_x.Gullet.Conditionals.{
  ActiveConditional, unfinished, case_of, true_branch, else_branch, Role, an_else, a_fi, an_or,
  opens, nothing, name, false_loop, case_loop, do_conditional, do_else, do_fi,
}
use rus_te_x.Gullet.Branches.{false_loop-Closes, do_conditional-true, do_conditional-false}
use rus_te_x.Gullet.Cases.{case_loop-found, case_loop-Missed}

-- \else, \fi, \or and \if as primitives
abbrev role : Token → Role
role (control_sequence name) = nothing
role (character c code) = nothing
role (primitive id) =
    if id == 1
    then an_else
    else if id == 2
    then a_fi
    else if id == 3
    then an_or
    else if id == 4
    then opens
    else nothing

abbrev letter : ℕ → Token
letter c = character c CommandCode.letter

-- `\if \else \fi a \else z`, while one condition below is not finished
abbrev false_text : List Token
false_text = primitive 4 ∷ primitive 1 ∷ primitive 2 ∷ letter b'a' ∷ primitive 2 ∷ []

false_loop-Closes_example :
    (s' : DefaultMouth) × (false_loop 9 role mouth 20 1 true
        (unfinished 5 ∷ unfinished 4 ∷ [])
        (holding (false_text ++ primitive 1 ∷ letter b'z' ∷ []))
      ≡ ok (else_branch 4 ∷ [], s'))
    × Holds s' (letter b'z' ∷ []) [] []
unfolding name
false_loop-Closes_example =
    false_loop-Closes 9 role mouth true (unfinished 5 ∷ []) (unfinished 4) [] (else_branch 4 ∷ [])
      false_text (primitive 1) (letter b'z' ∷ []) 20
      (holding (false_text ++ primitive 1 ∷ letter b'z' ∷ [])) refl refl
      (holding-Holds (false_text ++ primitive 1 ∷ letter b'z' ∷ [])) (omega arith)

-- `a \or \if \or \fi b`
abbrev branches : List (List Token × Token)
branches = (letter b'a' ∷ [], primitive 3) ∷ []

abbrev last_branch : List Token
last_branch = primitive 4 ∷ primitive 3 ∷ primitive 2 ∷ letter b'b' ∷ []

abbrev case_text : List Token
case_text = letter b'a' ∷ primitive 3 ∷ primitive 4 ∷ primitive 3 ∷ primitive 2 ∷ letter b'b' ∷ []

case_loop-found_example :
    (s' : DefaultMouth) × (case_loop 9 role mouth 20 1
        (case_of (pos 2) ∷ [])
        (holding (case_text ++ primitive 3 ∷ letter b'z' ∷ []))
      ≡ ok (case_of (pos 2) ∷ [], s'))
    × Holds s' (letter b'z' ∷ []) [] []
case_loop-found_example =
    case_loop-found 9 role mouth [] [] branches last_branch (primitive 3) (letter b'z' ∷ []) 20
      (holding (case_text ++ primitive 3 ∷ letter b'z' ∷ [])) (refl, refl, refl) refl (omega arith)
      (holding-Holds (case_text ++ primitive 3 ∷ letter b'z' ∷ [])) (omega arith)

case_loop-Missed_example :
    (s' : DefaultMouth) × (case_loop 9 role mouth 20 1
        (case_of (negsuc 0) ∷ [])
        (holding (case_text ++ primitive 2 ∷ letter b'z' ∷ []))
      ≡ ok ([], s'))
    × Holds s' (letter b'z' ∷ []) [] []
case_loop-Missed_example =
    case_loop-Missed 9 role mouth (negsuc 0) [] [] [] branches last_branch (primitive 2)
      (letter b'z' ∷ []) 20 (holding (case_text ++ primitive 2 ∷ letter b'z' ∷ []))
      (refl, refl, refl) (refl, tt) (omega arith) refl
      (holding-Holds (case_text ++ primitive 2 ∷ letter b'z' ∷ [])) (omega arith)

-- a condition that reads nothing
abbrev test :
    Bool
    → List ActiveConditional
    → DefaultMouth
    → Result (Bool × List ActiveConditional × DefaultMouth)
test b conds s = ok (b, conds, s)

abbrev if_number : ℕ
if_number = 4

four : if_number ≢ 9
four h = absurd (omega arith)

abbrev else_text : List Token
else_text = letter b'a' ∷ primitive 2 ∷ letter b'z' ∷ []

do_conditional-true_example :
    (do_conditional 9 role mouth 20 4 (test true) false [] (holding else_text)
      ≡ ok (true_branch 4 ∷ [], holding else_text))
    × (s3 : DefaultMouth) × (do_else 9 role mouth 20
          (primitive 1)
          (true_branch 4 ∷ [])
          (holding else_text)
        ≡ ok ([], s3))
    × Holds s3 (letter b'z' ∷ []) [] []
do_conditional-true_example =
    do_conditional-true 9 role mouth 4 four (test true) false true [] (holding else_text)
      (holding else_text) refl (letter b'a' ∷ []) (primitive 1) (primitive 2) (letter b'z' ∷ []) 20
      (holding else_text) refl refl refl (holding-Holds else_text) (omega arith)

abbrev then_text : List Token
then_text = letter b'a' ∷ primitive 1 ∷ letter b'z' ∷ []

do_conditional-false_example :
    ((s2 : DefaultMouth) × (do_conditional 9 role mouth 20 4 (test true) true [] (holding then_text)
        ≡ ok (else_branch 4 ∷ [], s2))
      × Holds s2 (letter b'z' ∷ []) [] [])
    × (do_fi 9 role mouth (primitive 2) (else_branch 4 ∷ []) (holding []) ≡ ok ([], holding []))
do_conditional-false_example =
    do_conditional-false 9 role mouth 4 four (test true) true true [] (holding then_text)
      (holding then_text) refl (letter b'a' ∷ []) (primitive 1) (primitive 2) (letter b'z' ∷ []) 20
      (holding []) refl refl refl (holding-Holds then_text) (omega arith)
