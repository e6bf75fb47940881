-- ===== src/Tex/Compact.antt =====
-- tex/tokens.rs: `CompactToken`, a token in 32 bits. Masks and shifts by constants are written as
-- remainders and quotients, and `|` on disjoint bits as a sum. `try_from_u16` is that of the
-- interner of primitives, a library's. `none` is the panic of `unwrap`.
use rus_te_x.Prelude.{
  ℕ, ◌+◌, ◌*◌, ◌/◌, ◌%◌, Bool, true, false, not, ◌&&◌, ◌||◌, Option, none, some, ltb, ◌==◌,
  if◌then◌else◌, ◌>>=◌,
}
use rus_te_x.Tex.Catcodes.{CommandCode, as_byte, try_from_byte}
use rus_te_x.Tex.Tokens.{StandardToken, control_sequence, character, primitive, same_code, is_space}

abbrev pub CompactToken : Type 0
CompactToken = ℕ

-- 0x8000_0000
abbrev high_bit : ℕ
high_bit = 2147483648

unfoldable pub is_string : CompactToken → Bool
is_string t = ltb t high_bit

unfoldable pub commandcode_value : CompactToken → ℕ
commandcode_value t = t / 65536 % 256

unfoldable pub code : CompactToken → Option CommandCode
unfolding commandcode_value try_from_byte
code t = try_from_byte (commandcode_value t)

unfoldable pub u8 : CompactToken → ℕ
u8 t = t % 256

unfoldable pub from_cs : ℕ → CompactToken
from_cs cs = cs

unfoldable pub from_char_cat : ℕ → CommandCode → CompactToken
unfolding as_byte
from_char_cat c cat = high_bit + as_byte cat * 65536 + c

unfoldable pub from_primitive : ℕ → CompactToken
unfolding as_byte
from_primitive id = high_bit + as_byte CommandCode.primitive * 65536 + id

unfoldable pub command_code : CompactToken → Option CommandCode
unfolding is_string code
command_code t = if is_string t then some CommandCode.escape else code t

unfoldable pub is_cs_or_active : CompactToken → Bool
unfolding is_string commandcode_value as_byte
is_cs_or_active t =
    let cc = commandcode_value t in
    is_string t || (cc == as_byte CommandCode.active || cc == as_byte CommandCode.primitive)

unfoldable pub is_argument_marker : CompactToken → Option ℕ
unfolding is_string commandcode_value as_byte u8
is_argument_marker t =
    if not (is_string t) && commandcode_value t == as_byte CommandCode.argument
    then some (u8 t)
    else none

-- `PartialEq`
unfoldable pub eq : CompactToken → CompactToken → Option Bool
unfolding is_string code u8 as_byte
eq a b = if a == b then some true else if is_string a || is_string b then some false else (do
  cc1 ← code a
  cc2 ← code b
  some (
      if is_space cc1 && is_space cc2
      then true
      else if not (same_code cc1 cc2)
      then false
      else u8 a == u8 b))

-- The interner gives primitives back by their numbers.
module _ (try_from_u16 : ℕ → Option ℕ) where
  unfoldable pub is_primitive : CompactToken → Option ℕ
  unfolding is_string commandcode_value as_byte
  is_primitive t =
      if not (is_string t) && commandcode_value t == as_byte CommandCode.primitive
      then try_from_u16 (t % 65536)
      else none

  no_string : CompactToken → Option ℕ → Option (StandardToken ℕ)
  unfolding code u8
  no_string t (some i) = some (primitive i)
  no_string t none = do c ← code t; some (character (u8 t) c)

  unfoldable pub to_enum : CompactToken → Option (StandardToken ℕ)
  unfolding is_string no_string is_primitive
  to_enum t = if is_string t then some (control_sequence t) else no_string t (is_primitive t)
