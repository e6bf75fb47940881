-- ===== src/Mouth/Tests.antt =====
-- Runs of the tokenizer on concrete lines, and the theorems at such runs.
use rus_te_x.Prelude.{ℕ, zero, suc, none, some, List, [], ◌∷◌, ◌++◌, ◌≡◌, refl, arith, ◌>>=◌, inr}
use rus_te_x.Tex.Catcodes.{CommandCode, default_scheme, to_command}
use rus_te_x.Tex.Tokens.{Token, control_sequence, character, space_token}
use rus_te_x.Mouth.Input.{skip_blank, InputTokenizer, new, get_char, next_line}
use rus_te_x.Mouth.Superscript.{maybe_superscript}
use rus_te_x.Mouth.Names.{get_cs_name}
use rus_te_x.Mouth.Tokenizer.{Read, token, nothing, get_next}
use rus_te_x.Mouth.Readline.{readline}
use rus_te_x.Mouth.ReadLoop.{read}
use rus_te_x.Mouth.Ahead.{
  notation, digit_of, place_in, byte_of, byte_or_opposite, maybe_superscript-notation,
}
use rus_te_x.Mouth.Progress.{remaining}
use rus_te_x.Mouth.Total.{Reads, get_next-Reads}
use rus_te_x.Mouth.Display.{
  display_fmt, hex_digit, maybe_superscript-display_fmt, maybe_superscript-display_fmt_low,
}
use rus_te_x.Mouth.Inputs.{DefaultMouth, file, tokens, push_exp, end_file, eof_token}
use rus_te_x.Mouth.Next.{Settings}
use rus_te_x.Mouth.Pending.{pending_in, below_in, Holds}
use rus_te_x.Mouth.Queue.{read_tokens, GivesAll, read_tokens-push_exp, EndsFile, end_file-EndsFile}
use rus_te_x.Mouth.Exhaust.{Ends, get_next-Ends}
use rus_te_x.Mouth.Words.{letters, plain, get_cs_name-letters}

-- `\foo`, an empty line, `   {a}{!}`: the lines of the documentation's example, trimmed
abbrev foo : InputTokenizer
foo =
    new
      ((b'\\' ∷ b'f' ∷ b'o' ∷ b'o' ∷ []) ∷ [] ∷ (b' ' ∷ b' ' ∷ b'{' ∷ b'a' ∷ b'}' ∷ b'!' ∷ []) ∷ [])

-- the first tokens with `\r` at the end of lines
first_tokens : ℕ → InputTokenizer → List Read
unfolding get_next
first_tokens zero t = []
first_tokens (suc n) t = elim (get_next default_scheme (some 13) 20 t) [
  | none ↦ []
  | some (r, t') ↦ r ∷ first_tokens n t'
]

foo_in_tokens :
    first_tokens 8 foo
    ≡ token (control_sequence (b'f' ∷ b'o' ∷ b'o' ∷ []))
      ∷ token (control_sequence (b'p' ∷ b'a' ∷ b'r' ∷ []))
      ∷ token (character b'{' CommandCode.begin_group)
      ∷ token (character b'a' CommandCode.letter)
      ∷ token (character b'}' CommandCode.end_group)
      ∷ token (character b'!' CommandCode.other)
      ∷ token space_token
      ∷ nothing
      ∷ []
unfolding first_tokens new get_next default_scheme get_char to_command
foo_in_tokens = refl

-- behind the first `^` of `^^41x`
abbrev sup : InputTokenizer
sup = record (new ((b'^' ∷ b'^' ∷ b'4' ∷ b'1' ∷ b'x' ∷ []) ∷ [])) { col = 1 }

maybe_superscript-notation_example :
    maybe_superscript b'^' sup ≡ some (some b'A', record sup { col = 4 })
unfolding new notation digit_of place_in byte_of byte_or_opposite
maybe_superscript-notation_example = maybe_superscript-notation b'^' sup

get_next-Reads_example : Reads foo (get_next default_scheme (some 13) 20 foo)
unfolding new remaining
get_next-Reads_example = get_next-Reads default_scheme (some 13) 20 foo (omega arith) (omega arith)

get_next-Ends_example : Ends (λ i. default_scheme) (λ i. some 13) 20 0 (remaining foo) foo
unfolding new remaining
get_next-Ends_example =
    get_next-Ends (λ i. default_scheme) (λ i. some 13) 20 foo (omega arith) (omega arith)

-- behind `\f`
get_cs_name-letters_example :
    get_cs_name default_scheme none 9 b'f' (record foo { col = 2 })
    ≡ some (b'f' ∷ b'o' ∷ b'o' ∷ [], record foo { col = 4; state = skip_blank })
unfolding new letters plain default_scheme
get_cs_name-letters_example =
    get_cs_name-letters default_scheme none 9 b'f' (record foo { col = 2 }) refl (omega arith)

rest_of_foo : readline (record foo { col = 2 }) ≡ (
  character b'o' CommandCode.other ∷ character b'o' CommandCode.other ∷ [],
  record foo {
    line = 2;
    current_line = [];
    source = (b' ' ∷ b' ' ∷ b'{' ∷ b'a' ∷ b'}' ∷ b'!' ∷ []) ∷ [];
  },
)
unfolding new readline next_line
rest_of_foo = refl

-- `\read` stops at the end of the line, although the group is open.
open_group_read :
    (read default_scheme (some 13) 20 (new ((b'{' ∷ b'a' ∷ []) ∷ (b'}' ∷ []) ∷ [])) >>= λ g.
    some g.tokens)
    ≡ some (
        character b'{' CommandCode.begin_group
        ∷ character b'a' CommandCode.letter
        ∷ space_token
        ∷ [])
unfolding new read default_scheme get_char to_command
open_group_read = refl

-- A closing brace without an opening one takes `ingroups` below zero.
brace_underflow : read default_scheme (some 13) 20 (new ((b'}' ∷ []) ∷ [])) ≡ none
unfolding new read default_scheme get_char to_command
brace_underflow = refl

abbrev letters_ab : List Token
letters_ab = character b'a' CommandCode.letter ∷ character b'b' CommandCode.letter ∷ []

abbrev settings : Settings
settings = record {
  catcodes = default_scheme;
  endline = some 13;
  everyeof = letters_ab;
  invalid_character = λ c. none;
}

-- a file below a list that has been read, with one vector to be reused
abbrev over_file : DefaultMouth
over_file = record {
  inputs = tokens [] ∷ file foo 4 ∷ [];
  start_ref = record { file = 4; line = 0; column = 0 } ∷ [];
  vecs = [] ∷ [];
}

over_file-Holds : Holds over_file [] (file foo 4 ∷ []) over_file.start_ref
unfolding pending_in below_in
over_file-Holds = record { waits = refl; under = refl; located = refl; pool = (refl, tt) }

read_tokens-push_exp_example :
    GivesAll
      (read_tokens settings 4 2 (push_exp letters_ab over_file))
      letters_ab
      []
      (file foo 4 ∷ [])
      over_file.start_ref
read_tokens-push_exp_example =
    read_tokens-push_exp settings 4 letters_ab over_file over_file-Holds (omega arith)

-- only the file
abbrev in_file : DefaultMouth
in_file = record over_file { inputs = file foo 4 ∷ [] }

end_file-EndsFile_example :
    EndsFile (end_file letters_ab in_file) (letters_ab ++ eof_token ∷ []) [] []
unfolding pending_in below_in
end_file-EndsFile_example =
    end_file-EndsFile letters_ab in_file (file foo 4) [] [] refl
      (record { file = 4; line = 0; column = 0 }, refl) (refl, tt)

-- behind the first `^` of `^^c3a`
abbrev shown : InputTokenizer
shown = record (new ((b'^' ∷ b'^' ∷ b'c' ∷ b'3' ∷ b'a' ∷ []) ∷ [])) { col = 1 }

maybe_superscript-display_fmt_example :
    maybe_superscript b'^' shown ≡ some (some 195, record shown { col = 4 })
unfolding new display_fmt hex_digit
maybe_superscript-display_fmt_example =
    maybe_superscript-display_fmt 195 (b'a' ∷ []) shown (inr (omega arith)) (omega arith) refl

-- behind the first `^` of `^^A`, the text for 129
abbrev shown_low : InputTokenizer
shown_low = record (new ((b'^' ∷ b'^' ∷ b'A' ∷ []) ∷ [])) { col = 1 }

maybe_superscript-display_fmt_low_example :
    maybe_superscript b'^' shown_low ≡ some (some 1, record shown_low { col = 3 })
unfolding new display_fmt
maybe_superscript-display_fmt_low_example =
    maybe_superscript-display_fmt_low 129 shown_low (omega arith) (omega arith) refl
