-- ===== src/Gullet/IntegerTests.antt =====
-- Runs of the functions that read integers and keywords on small inputs.
use rus_te_x.Prelude.{
  ℕ, Bool, true, false, Option, none, some, List, [], ◌∷◌, ◌≡◌, refl, arith, inl,
}
use rus_te_x.Tex.Numbers.{ℤ}
use rus_te_x.Tex.Catcodes.{CommandCode}
use rus_te_x.Tex.Tokens.{Token, character}
use rus_te_x.Gullet.Result.{Result, ok, panic}
use rus_te_x.Gullet.Integers.{Resolved, tk, other_command, Expansion, space_skipped}
use rus_te_x.Gullet.Numeric.{is_noexpand, read_int}
use rus_te_x.Gullet.Digits.{checked}
use rus_te_x.Gullet.Signs.{minus, equals, read_int-numeral}
use rus_te_x.Gullet.Digits.{read_oct_int-numeral}
use rus_te_x.Gullet.HexDigits.{range_checked, read_hex_int-numeral}
use rus_te_x.Gullet.Integers.{read_oct_int, read_hex_int}
use rus_te_x.Gullet.Keywords.{lower, is_prefix, read_keyword}
use rus_te_x.Gullet.KeywordText.{Char, CharsAt, read_keyword-chars, read_keyword-miss}

abbrev letter : ℕ → Token
letter c = character c CommandCode.letter

-- tokens that are resolved already
abbrev resolved : Token → Resolved
resolved (character c code) = tk c code
resolved t = other_command

abbrev first : List Token → Result (Option (Token × Resolved) × List Token)
first [] = ok (none, [])
first (t ∷ ts) = ok (some (t, resolved t), ts)

abbrev first_token : List Token → Result (Option Token × List Token)
first_token [] = ok (none, [])
first_token (t ∷ ts) = ok (some t, ts)

abbrev on_tokens : Expansion
on_tokens = record {
  State = List Token;
  next = first;
  unexpanded = first_token;
  requeue = λ t ts. t ∷ ts;
}

abbrev other : ℕ → Token
other c = character c CommandCode.other

-- `=-12a`
abbrev literal_text : List Token
literal_text = other b'=' ∷ other b'-' ∷ other b'1' ∷ other b'2' ∷ letter b'a' ∷ []

abbrev no_command : Bool → Token → List Token → Result (ℤ × List Token)
no_command neg t s = panic

read_int-numeral_example :
    read_int 7 on_tokens 9 no_command true literal_text
    ≡ checked on_tokens true 12
        (space_skipped on_tokens (some (letter b'a', tk b'a' CommandCode.letter), []))
unfolding is_noexpand
read_int-numeral_example =
    read_int-numeral 7 on_tokens no_command true (equals ∷ minus ∷ []) (other b'1') 1 (2 ∷ [])
      (some (letter b'a', tk b'a' CommandCode.letter)) 9 literal_text
      (other b'1' ∷ other b'2' ∷ letter b'a' ∷ []) (other b'2' ∷ letter b'a' ∷ [])
      (letter b'a' ∷ []) [] (refl, tt)
      (
        other b'=',
        other b'-' ∷ other b'1' ∷ other b'2' ∷ letter b'a' ∷ [],
        refl,
        refl,
        (other b'-', other b'1' ∷ other b'2' ∷ letter b'a' ∷ [], refl, refl, refl),
      )
      refl refl (omega arith, (omega arith, tt))
      (other b'2', tk b'2' CommandCode.other, letter b'a' ∷ [], refl, refl, refl) refl tt
      (omega arith) (omega arith)

-- `17` and a space
read_oct_int-numeral_example :
    read_oct_int on_tokens 9 false (other b'1' ∷ other b'7' ∷ character 32 CommandCode.space ∷ [])
    ≡ checked on_tokens false 15 (
        space_skipped on_tokens
          (some (character 32 CommandCode.space, tk 32 CommandCode.space), []))
read_oct_int-numeral_example =
    read_oct_int-numeral on_tokens 1 (7 ∷ []) false 9
      (other b'1' ∷ other b'7' ∷ character 32 CommandCode.space ∷ [])
      (character 32 CommandCode.space ∷ [])
      (some (character 32 CommandCode.space, tk 32 CommandCode.space)) []
      (omega arith, (omega arith, tt))
      (
        other b'1',
        tk b'1' CommandCode.other,
        other b'7' ∷ character 32 CommandCode.space ∷ [],
        refl,
        refl,
        (
          other b'7',
          tk b'7' CommandCode.other,
          character 32 CommandCode.space ∷ [],
          refl,
          refl,
          refl,
        ),
      )
      refl tt (omega arith)

-- `A` at the end of the input
read_hex_int-numeral_example :
    read_hex_int on_tokens 9 true (other b'A' ∷ [])
    ≡ range_checked on_tokens true 10 (space_skipped on_tokens (none, []))
read_hex_int-numeral_example =
    read_hex_int-numeral on_tokens 10 [] true 9 (other b'A' ∷ []) [] none [] (omega arith, tt)
      (other b'A', tk b'A' CommandCode.other, [], inl refl, refl, refl) refl tt (omega arith)

abbrev pt : List ℕ
pt = b'p' ∷ b't' ∷ []

abbrev space : Token
space = character 32 CommandCode.space

abbrev as_char : ℕ → Char
as_char c = record { of = letter c; char = c; code = CommandCode.letter }

-- ` Pt`
read_keyword-chars_example :
    read_keyword on_tokens pt 9 none (space ∷ letter b'P' ∷ letter b't' ∷ []) ≡ ok (true, [])
unfolding lower
read_keyword-chars_example =
    read_keyword-chars on_tokens pt 1 (as_char b'P' ∷ []) (as_char b't') 9
      (space ∷ letter b'P' ∷ letter b't' ∷ []) (letter b'P' ∷ letter b't' ∷ []) (letter b't' ∷ [])
      [] refl (omega arith) (space, 32, letter b'P' ∷ letter b't' ∷ [], refl, refl)
      (letter b't' ∷ [], tt, refl, refl) tt refl (omega arith)

-- `pz`
read_keyword-miss_example :
    (s' : List Token) × (read_keyword on_tokens pt 9 none (letter b'p' ∷ letter b'z' ∷ [])
      ≡ ok (false, s'))
    × CharsAt on_tokens (as_char b'p' ∷ as_char b'z' ∷ []) s' []
unfolding lower is_prefix
read_keyword-miss_example =
    read_keyword-miss on_tokens pt 0 (as_char b'p' ∷ []) (as_char b'z') (b't' ∷ []) 9
      (letter b'p' ∷ letter b'z' ∷ []) (letter b'p' ∷ letter b'z' ∷ []) (letter b'z' ∷ []) [] refl
      (omega arith) refl (omega arith) refl (letter b'z' ∷ [], tt, refl, refl) tt refl
      (λ u. refl, (λ u. refl, tt)) (omega arith)
