-- ===== src/Tex/Catcodes.antt =====
-- tex/catcodes.rs: category codes of characters, command codes of tokens, and the three schemes.
use rus_te_x.Prelude.{
  ℕ, ◌<◌, Bool, ◌&&◌, Option, none, some, ◌≡◌, ◌↔◌, refl, subst, arith, ltb, leb, ◌==◌,
  if◌then◌else◌,
}

pub data CategoryCode : Type 0 where
  escape begin_group end_group math_shift alignment_tab eol parameter superscript : CategoryCode
  subscript ignored space letter other active comment invalid : CategoryCode

-- What a token can have: no comment or invalid character, but primitives, arguments and end of file.
pub data CommandCode : Type 0 where
  escape begin_group end_group math_shift alignment_tab eof parameter superscript : CommandCode
  subscript primitive space letter other active argument : CommandCode

-- `From<CategoryCode> for u8`
unfoldable pub to_u8 : CategoryCode → ℕ
to_u8 CategoryCode.escape = 0
to_u8 CategoryCode.begin_group = 1
to_u8 CategoryCode.end_group = 2
to_u8 CategoryCode.math_shift = 3
to_u8 CategoryCode.alignment_tab = 4
to_u8 CategoryCode.eol = 5
to_u8 CategoryCode.parameter = 6
to_u8 CategoryCode.superscript = 7
to_u8 CategoryCode.subscript = 8
to_u8 CategoryCode.ignored = 9
to_u8 CategoryCode.space = 10
to_u8 CategoryCode.letter = 11
to_u8 CategoryCode.other = 12
to_u8 CategoryCode.active = 13
to_u8 CategoryCode.comment = 14
to_u8 CategoryCode.invalid = 15

-- `TryFrom<u8> for CategoryCode`
unfoldable pub try_from : ℕ → Option CategoryCode
try_from n =
    if n == 0
    then some CategoryCode.escape
    else if n == 1
    then some CategoryCode.begin_group
    else if n == 2
    then some CategoryCode.end_group
    else if n == 3
    then some CategoryCode.math_shift
    else if n == 4
    then some CategoryCode.alignment_tab
    else if n == 5
    then some CategoryCode.eol
    else if n == 6
    then some CategoryCode.parameter
    else if n == 7
    then some CategoryCode.superscript
    else if n == 8
    then some CategoryCode.subscript
    else if n == 9
    then some CategoryCode.ignored
    else if n == 10
    then some CategoryCode.space
    else if n == 11
    then some CategoryCode.letter
    else if n == 12
    then some CategoryCode.other
    else if n == 13
    then some CategoryCode.active
    else if n == 14
    then some CategoryCode.comment
    else if n == 15
    then some CategoryCode.invalid
    else none

-- `CommandCode::as_byte`
unfoldable pub as_byte : CommandCode → ℕ
as_byte CommandCode.escape = 0
as_byte CommandCode.begin_group = 1
as_byte CommandCode.end_group = 2
as_byte CommandCode.math_shift = 3
as_byte CommandCode.alignment_tab = 4
as_byte CommandCode.eof = 5
as_byte CommandCode.parameter = 6
as_byte CommandCode.superscript = 7
as_byte CommandCode.subscript = 8
as_byte CommandCode.primitive = 9
as_byte CommandCode.space = 10
as_byte CommandCode.letter = 11
as_byte CommandCode.other = 12
as_byte CommandCode.active = 13
as_byte CommandCode.argument = 14

-- `TryFrom<u8> for CommandCode`
unfoldable pub try_from_byte : ℕ → Option CommandCode
try_from_byte n =
    if n == 0
    then some CommandCode.escape
    else if n == 1
    then some CommandCode.begin_group
    else if n == 2
    then some CommandCode.end_group
    else if n == 3
    then some CommandCode.math_shift
    else if n == 4
    then some CommandCode.alignment_tab
    else if n == 5
    then some CommandCode.eof
    else if n == 6
    then some CommandCode.parameter
    else if n == 7
    then some CommandCode.superscript
    else if n == 8
    then some CommandCode.subscript
    else if n == 9
    then some CommandCode.primitive
    else if n == 10
    then some CommandCode.space
    else if n == 11
    then some CommandCode.letter
    else if n == 12
    then some CommandCode.other
    else if n == 13
    then some CommandCode.active
    else if n == 14
    then some CommandCode.argument
    else none

-- `From<CategoryCode> for CommandCode`; `none` is the panic.
unfoldable pub to_command : CategoryCode → Option CommandCode
to_command CategoryCode.escape = some CommandCode.escape
to_command CategoryCode.begin_group = some CommandCode.begin_group
to_command CategoryCode.end_group = some CommandCode.end_group
to_command CategoryCode.math_shift = some CommandCode.math_shift
to_command CategoryCode.alignment_tab = some CommandCode.alignment_tab
to_command CategoryCode.eol = some CommandCode.eof
to_command CategoryCode.parameter = some CommandCode.parameter
to_command CategoryCode.superscript = some CommandCode.superscript
to_command CategoryCode.subscript = some CommandCode.subscript
to_command CategoryCode.ignored = none
to_command CategoryCode.space = some CommandCode.space
to_command CategoryCode.letter = some CommandCode.letter
to_command CategoryCode.other = some CommandCode.other
to_command CategoryCode.active = some CommandCode.active
to_command CategoryCode.comment = none
to_command CategoryCode.invalid = none

-- `CategoryCodeScheme<u8>`, an array of 256 entries: a character is below 256.
abbrev pub CategoryCodeScheme : Type 0
CategoryCodeScheme = ℕ → CategoryCode

abbrev within : ℕ → ℕ → ℕ → Bool
within lo hi c = leb lo c && ltb c hi

-- `OTHER_SCHEME_U8`
unfoldable pub other_scheme : CategoryCodeScheme
other_scheme c = if c == 32 then CategoryCode.space else CategoryCode.other

-- In the schemes a later write wins, so the tests stand in the reverse order of the writes.
-- `STARTING_SCHEME_U8`
unfoldable pub starting_scheme : CategoryCodeScheme
starting_scheme c =
    if c == 126
    then CategoryCode.active
    else if within 97 123 c
    then CategoryCode.letter
    else if within 65 91 c
    then CategoryCode.letter
    else if c == 37
    then CategoryCode.comment
    else if c == 13
    then CategoryCode.eol
    else if c == 32
    then CategoryCode.space
    else if c == 92
    then CategoryCode.escape
    else CategoryCode.other

-- `DEFAULT_SCHEME_U8`
unfoldable pub default_scheme : CategoryCodeScheme
default_scheme c =
    if within 97 123 c
    then CategoryCode.letter
    else if within 65 91 c
    then CategoryCode.letter
    else if c == 37
    then CategoryCode.comment
    else if c == 13
    then CategoryCode.eol
    else if c == 32
    then CategoryCode.space
    else if c == 92
    then CategoryCode.escape
    else if c == 126
    then CategoryCode.active
    else if c == 95
    then CategoryCode.subscript
    else if c == 94
    then CategoryCode.superscript
    else if c == 35
    then CategoryCode.parameter
    else if c == 38
    then CategoryCode.alignment_tab
    else if c == 36
    then CategoryCode.math_shift
    else if c == 125
    then CategoryCode.end_group
    else if c == 123
    then CategoryCode.begin_group
    else CategoryCode.other

-- `AT_LETTER_SCHEME`
unfoldable pub at_letter_scheme : CategoryCodeScheme
at_letter_scheme c =
    if within 97 123 c
    then CategoryCode.letter
    else if within 64 91 c
    then CategoryCode.letter
    else if c == 37
    then CategoryCode.comment
    else if c == 13
    then CategoryCode.eol
    else if c == 32
    then CategoryCode.space
    else if c == 92
    then CategoryCode.escape
    else if c == 126
    then CategoryCode.active
    else if c == 95
    then CategoryCode.subscript
    else if c == 94
    then CategoryCode.superscript
    else if c == 35
    then CategoryCode.parameter
    else if c == 38
    then CategoryCode.alignment_tab
    else if c == 36
    then CategoryCode.math_shift
    else if c == 125
    then CategoryCode.end_group
    else if c == 123
    then CategoryCode.begin_group
    else CategoryCode.other

try_from-to_u8 : (c : CategoryCode) → try_from (to_u8 c) ≡ some c
unfolding try_from to_u8
try_from-to_u8 CategoryCode.escape = refl
try_from-to_u8 _ = refl

pub try_from_byte-as_byte : (c : CommandCode) → try_from_byte (as_byte c) ≡ some c
unfolding try_from_byte as_byte
try_from_byte-as_byte CommandCode.escape = refl
try_from_byte-as_byte _ = refl

pub as_byte-lt : (c : CommandCode) → as_byte c < 15
unfolding as_byte
as_byte-lt CommandCode.escape = omega arith
as_byte-lt _ = omega arith

to_u8-try_from : (n : ℕ) (c : CategoryCode) → try_from n ≡ some c → to_u8 c ≡ n
unfolding try_from to_u8
to_u8-try_from n c h = ground arith

as_byte-try_from_byte : (n : ℕ) (c : CommandCode) → try_from_byte n ≡ some c → as_byte c ≡ n
unfolding try_from_byte as_byte
as_byte-try_from_byte n c h = ground arith

-- A number converts to a category code exactly if it is the number of that code, and to a command
-- code exactly if it is the byte of that code.
pub codes_iff :
    (n : ℕ)
    → ((c : CategoryCode) → (try_from n ≡ some c) ↔ (to_u8 c ≡ n))
      × ((c : CommandCode) → (try_from_byte n ≡ some c) ↔ (as_byte c ≡ n))
codes_iff n = (
  λ c. (to_u8-try_from n c, λ e. subst (λ m. try_from m ≡ some c) e (try_from-to_u8 c)),
  λ c. (
    as_byte-try_from_byte n c,
    λ e. subst (λ m. try_from_byte m ≡ some c) e (try_from_byte-as_byte c),
  ),
)
