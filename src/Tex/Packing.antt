-- ===== src/Tex/Packing.antt =====
-- `CompactToken` beside `StandardToken`: packing, unpacking, and what each says of a token.
use rus_te_x.Prelude.{
  ℕ, ◌+◌, ◌*◌, ◌%◌, ◌<◌, ◌≡◌, ◌≢◌, refl, arith, true, false, Option, some, ◌==◌, ◌&&◌, not,
  if◌then◌else◌,
}
use rus_te_x.Tex.Catcodes.{CommandCode, as_byte, try_from_byte, try_from_byte-as_byte, as_byte-lt}
use rus_te_x.Tex.Tokens
use rus_te_x.Tex.Tokens.{
  StandardToken, control_sequence, character, primitive, same_code, is_space, token_eq,
}
use rus_te_x.Tex.Compact.{
  CompactToken, is_string, commandcode_value, code, u8, from_cs, from_char_cat, from_primitive,
  command_code, is_cs_or_active, is_argument_marker, eq, is_primitive, to_enum,
}

-- A name is below 2^31 and not 0, a character is a byte, and a primitive is known to the interner. The
-- command code of primitives belongs to no character.
abbrev pub IsToken : (ℕ → Option ℕ) → StandardToken ℕ → Type 0
IsToken try_from_u16 (control_sequence cs) = (0 < cs) × (cs < 2147483648)
IsToken try_from_u16 (character c cat) = (c < 256) × (cat ≢ CommandCode.primitive)
IsToken try_from_u16 (primitive id) = (id < 65536) × (try_from_u16 id ≡ some id)

-- the constructors of the trait `Token`
unfoldable pub pack : StandardToken ℕ → CompactToken
unfolding from_cs from_char_cat from_primitive
pack (control_sequence cs) = from_cs cs
pack (character c cat) = from_char_cat c cat
pack (primitive id) = from_primitive id

fields :
    (k c : ℕ)
    → k < 15
    → c < 65536
    → (is_string (2147483648 + k * 65536 + c) ≡ false)
      × (commandcode_value (2147483648 + k * 65536 + c) ≡ k)
      × ((2147483648 + k * 65536 + c) % 65536 ≡ c)
unfolding is_string commandcode_value
fields k c h b = (ground arith, omega arith, omega arith)

low : (k c : ℕ) → u8 (2147483648 + k * 65536 + c) ≡ c % 256
unfolding u8
low k c = omega arith

-- A token is found again from its 32 bits, if a name is below 2^31 and not 0, a character is a
-- byte without the command code of primitives, and a primitive's number is known to the interner.
pub to_enum-pack :
    (try_from_u16 : ℕ → Option ℕ) (tk : StandardToken ℕ)
    → IsToken try_from_u16 tk
    → to_enum try_from_u16 (pack tk) ≡ some tk
unfolding to_enum pack is_primitive is_string from_cs from_char_cat from_primitive code u8
    commandcode_value as_byte try_from_byte
to_enum-pack try_from_u16 (control_sequence cs) (p, h) = ground arith
to_enum-pack try_from_u16 (character c CommandCode.primitive) (b, p) = absurd (p refl)
to_enum-pack try_from_u16 (character c cat) (b, p) = ground (arith, try_from_byte-as_byte cat)
to_enum-pack try_from_u16 (primitive id) (b, p) = ground arith

-- For a token whose name is below 2^31 and not 0, whose character is a byte without the command
-- code of primitives, or whose primitive is known to the interner, the 32 bits give the command
-- code, the test for control sequences and active characters and the test for argument markers
-- that the token gives.
pub reads-pack :
    (try_from_u16 : ℕ → Option ℕ) (tk : StandardToken ℕ)
    → IsToken try_from_u16 tk
    → (command_code (pack tk) ≡ some (Tokens.command_code tk))
      × (is_cs_or_active (pack tk) ≡ Tokens.is_cs_or_active tk)
      × (is_argument_marker (pack tk) ≡ Tokens.is_argument_marker tk)
unfolding pack command_code is_cs_or_active is_argument_marker Tokens.command_code
    Tokens.is_cs_or_active Tokens.is_argument_marker from_cs from_char_cat from_primitive code u8
    commandcode_value as_byte try_from_byte is_string
reads-pack try_from_u16 (control_sequence cs) (p, h) = ground arith
reads-pack try_from_u16 (character c CommandCode.primitive) (b, p) = absurd (p refl)
reads-pack try_from_u16 (character c cat) (b, p) = ground arith
reads-pack try_from_u16 (primitive id) (b, p) = ground arith

abbrev raw : ℕ → ℕ → ℕ
raw k c = 2147483648 + k * 65536 + c

raw-== : (k l c d : ℕ) → c < 65536 → d < 65536 → (raw k c == raw l d) ≡ (k == l && c == d)
raw-== k l c d h h' = ground arith

code-raw : (cat : CommandCode) (c : ℕ) → c < 65536 → code (raw (as_byte cat) c) ≡ some cat
unfolding code
code-raw cat c h =
    rw ((fields (as_byte cat) c (as_byte-lt cat) h).1, try_from_byte-as_byte cat) refl

eq-raw :
    (a b : CommandCode) (c d : ℕ)
    → c < 65536
    → d < 65536
    → eq (raw (as_byte a) c) (raw (as_byte b) d)
      ≡ some (
          if same_code a b && c == d
          then true
          else if is_space a && is_space b
          then true
          else if not (same_code a b)
          then false
          else c % 256 == d % 256)
unfolding eq
eq-raw a b c d h h' = ground (
  arith,
  raw-== (as_byte a) (as_byte b) c d h h',
  (fields (as_byte a) c (as_byte-lt a) h).0,
  (fields (as_byte b) d (as_byte-lt b) h').0,
  code-raw a c h,
  code-raw b d h',
  low (as_byte a) c,
  low (as_byte b) d,
)

not_primitive :
    (cat : CommandCode)
    → cat ≢ CommandCode.primitive
    → (same_code cat CommandCode.primitive ≡ false) × (same_code CommandCode.primitive cat ≡ false)
unfolding as_byte
not_primitive CommandCode.primitive p = absurd (p refl)
not_primitive cat p = (refl, refl)

eq_mixed :
    (cs k c : ℕ) → cs < 2147483648 → (eq cs (raw k c) ≡ some false) × (eq (raw k c) cs ≡ some false)
unfolding eq is_string
eq_mixed cs k c h = ground arith

-- a token with all but the low byte of a primitive's number forgotten
unfoldable pub shorten : StandardToken ℕ → StandardToken ℕ
shorten (primitive id) = primitive (id % 256)
shorten tk = tk

-- For two tokens whose names are below 2^31 and not 0, whose characters are bytes without the
-- command code of primitives, and whose primitives are known to the interner, == on the 32 bits
-- does not panic, and it is == on the tokens after the number of a primitive has been cut to its
-- low byte: two primitives with the same low byte are taken as equal.
pub eq-pack :
    (try_from_u16 : ℕ → Option ℕ) (a b : StandardToken ℕ)
    → IsToken try_from_u16 a
    → IsToken try_from_u16 b
    → eq (pack a) (pack b) ≡ some (token_eq (shorten a) (shorten b))
unfolding eq pack shorten token_eq from_cs from_char_cat from_primitive as_byte
eq-pack try_from_u16 (control_sequence cs) (control_sequence cs') h h' = ground arith
eq-pack try_from_u16 (control_sequence cs) (character c cat) h h' =
    (eq_mixed cs (as_byte cat) c h.1).0
eq-pack try_from_u16 (control_sequence cs) (primitive id) h h' = (eq_mixed cs 9 id h.1).0
eq-pack try_from_u16 (character c cat) (control_sequence cs) h h' =
    (eq_mixed cs (as_byte cat) c h'.1).1
eq-pack try_from_u16 (character c cat) (character c' cat') h h' =
    rw (eq-raw cat cat' c c' (omega arith) (omega arith)) (ground arith)
eq-pack try_from_u16 (character c cat) (primitive id) h h' =
    rw (eq-raw cat CommandCode.primitive c id (omega arith) h'.0, (not_primitive cat h.1).0)
      (ground arith)
eq-pack try_from_u16 (primitive id) (control_sequence cs) h h' = (eq_mixed cs 9 id h'.1).1
eq-pack try_from_u16 (primitive id) (character c cat) h h' =
    rw (eq-raw CommandCode.primitive cat id c h.0 (omega arith), (not_primitive cat h'.1).1)
      (ground arith)
eq-pack try_from_u16 (primitive id) (primitive id') h h' =
    rw (eq-raw CommandCode.primitive CommandCode.primitive id id' h.0 h'.0) (ground arith)
