-- ===== src/Tex/Tests.antt =====
-- The codes and the tokens in 32 bits on concrete values, and the theorems at such values.
use rus_te_x.Prelude.{◌↔◌, ℕ, ◌≡◌, refl, arith, true, false, some}
use rus_te_x.Tex.Catcodes.{
  CategoryCode, CommandCode, to_u8, try_from, as_byte, try_from_byte, codes_iff,
}
use rus_te_x.Tex.Tokens
use rus_te_x.Tex.Tokens.{StandardToken, control_sequence, character, primitive, token_eq}
use rus_te_x.Tex.Compact.{command_code, is_cs_or_active, is_argument_marker, eq, to_enum}
use rus_te_x.Tex.Packing.{IsToken, pack, shorten, to_enum-pack, reads-pack, eq-pack}

abbrev letter_a : StandardToken ℕ
letter_a = character b'a' CommandCode.letter

letter_a-IsToken : IsToken some letter_a
letter_a-IsToken = (omega arith, λ e. cc)

to_enum-pack_example : to_enum some (pack letter_a) ≡ some letter_a
to_enum-pack_example = to_enum-pack some letter_a letter_a-IsToken

reads-pack_example :
    (command_code (pack (character 3 CommandCode.argument)) ≡ some CommandCode.argument)
    × (is_cs_or_active (pack (character 3 CommandCode.argument)) ≡ false)
    × (is_argument_marker (pack (character 3 CommandCode.argument)) ≡ some 3)
unfolding Tokens.command_code Tokens.is_cs_or_active Tokens.is_argument_marker
reads-pack_example = reads-pack some (character 3 CommandCode.argument) (omega arith, λ e. cc)

-- the primitives 1 and 257
eq-pack_example : eq (pack (primitive 1)) (pack (primitive 257)) ≡ some true
unfolding token_eq shorten
eq-pack_example = eq-pack some (primitive 1) (primitive 257) (omega arith, refl) (omega arith, refl)

codes_iff_example :
    ((c : CategoryCode) → (try_from 13 ≡ some c) ↔ (to_u8 c ≡ 13))
    × ((c : CommandCode) → (try_from_byte 13 ≡ some c) ↔ (as_byte c ≡ 13))
codes_iff_example = codes_iff 13
