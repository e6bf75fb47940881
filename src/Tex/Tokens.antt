-- ===== src/Tex/Tokens.antt =====
-- tex/tokens.rs: `StandardToken`, and what the trait `Token` reads off one. The type of control
-- sequence names is a parameter; a primitive is its number.
use rus_te_x.Prelude.{ℕ, Bool, true, false, Option, none, some, List, ◌==◌, ◌&&◌, if◌then◌else◌}
use rus_te_x.Tex.Catcodes.{CommandCode, as_byte}

pub data StandardToken (CS : Type 0) : Type 0 where
  control_sequence : CS → StandardToken CS
  character : ℕ → CommandCode → StandardToken CS
  primitive : ℕ → StandardToken CS

-- a token whose control sequence is the characters of its name
abbrev pub Token : Type 0
Token = StandardToken (List ℕ)

abbrev pub space_token : Token
space_token = character 32 CommandCode.space

module _ {CS : Type 0} where
  unfoldable pub command_code : StandardToken CS → CommandCode
  command_code (control_sequence cs) = CommandCode.escape
  command_code (character c cat) = cat
  command_code (primitive id) = CommandCode.primitive

  unfoldable pub is_cs_or_active : StandardToken CS → Bool
  is_cs_or_active (control_sequence cs) = true
  is_cs_or_active (character c CommandCode.active) = true
  is_cs_or_active (character c cat) = false
  is_cs_or_active (primitive id) = true

  unfoldable pub is_argument_marker : StandardToken CS → Option ℕ
  is_argument_marker (character c CommandCode.argument) = some c
  is_argument_marker _ = none

-- `a2 == b2` on command codes
abbrev pub same_code : CommandCode → CommandCode → Bool
same_code a b = as_byte a == as_byte b

abbrev pub is_space : CommandCode → Bool
is_space c = same_code c CommandCode.space

-- `PartialEq` for tokens with interned names
unfoldable pub token_eq : StandardToken ℕ → StandardToken ℕ → Bool
unfolding as_byte
token_eq (control_sequence a) (control_sequence b) = a == b
token_eq (character a1 a2) (character b1 b2) =
    if is_space a2 && is_space b2 then true else a1 == b1 && same_code a2 b2
token_eq (primitive a) (primitive b) = a == b
token_eq _ _ = false
