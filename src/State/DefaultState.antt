-- ===== src/State/DefaultState.antt =====
-- engine/state/tex_state.rs: `DefaultState`, its getters, and the initial state.
-- The command tables of the primitives and the trace written to the log are left out; the array
-- of fonts for each math style is a function that is read below 16 only.
use rus_te_x.Prelude.{
  ℕ, ◌+◌, ◌-◌, ◌*◌, Bool, ◌&&◌, Option, none, some, List, [], ◌∷◌, ltb, leb, if◌then◌else◌, length,
  get_or,
}
use rus_te_x.Tex.Catcodes.{CategoryCodeScheme, starting_scheme}
use rus_te_x.Tex.Numbers.{ℤ, pos, Skip, MuSkip, zero_skip, zero_muskip}
use rus_te_x.State.Change.{EngineTypes, GroupType, TokenList, ParShape}
use rus_te_x.State.Stack.{StackLevel, StateStack, empty_stack}
use rus_te_x.State.Registers.{or_default}

pub record DefaultState (E : EngineTypes) : Type 0 where
  pub stack : StateStack E
  pub catcodes : CategoryCodeScheme
  pub sfcodes : ℕ → ℕ
  pub lccodes : ℕ → ℕ
  pub uccodes : ℕ → ℕ
  pub mathcodes : ℕ → ℕ
  pub delcodes : ℕ → ℤ
  pub primitive_ints : ℕ → Option ℤ
  pub primitive_dims : ℕ → Option ℤ
  pub primitive_skips : ℕ → Option Skip
  pub primitive_muskips : ℕ → Option MuSkip
  pub primitive_toks : ℕ → Option TokenList
  pub int_register : List ℤ
  pub dim_register : List ℤ
  pub skip_register : List Skip
  pub muskip_register : List MuSkip
  pub toks_register : List TokenList
  pub box_register : List (Option E.Box)
  pub commands : List (Option E.Command)
  pub ac_commands : ℕ → Option E.Command
  pub endline_char : Option ℕ
  pub escape_char : Option ℕ
  pub newline_char : Option ℕ
  pub current_font : E.Font
  pub textfonts : ℕ → E.Font
  pub scriptfonts : ℕ → E.Font
  pub scriptscriptfonts : ℕ → E.Font
  pub parshape : ParShape

-- the two loops of `new` over the letters and the digits
abbrev is_small : ℕ → Bool
is_small c = leb 97 c && ltb c 123

abbrev is_capital : ℕ → Bool
is_capital c = leb 65 c && ltb c 91

abbrev is_digit : ℕ → Bool
is_digit c = leb 48 c && ltb c 58

unfoldable pub starting_mathcode : ℕ → ℕ
starting_mathcode c =
    if is_digit c
    then c + 7 * 16 * 16 * 16
    else if is_small c
    then c + 16 * 16 + 7 * 16 * 16 * 16
    else if is_capital c
    then c + 16 * 16 + 7 * 16 * 16 * 16
    else 0

unfoldable pub new : {E : EngineTypes} → E.Font → DefaultState E
unfolding starting_mathcode
new {E} nullfont = record {
  stack = empty_stack E;
  catcodes = starting_scheme;
  sfcodes = λ c. 0;
  lccodes = λ c. if is_capital c then c + 32 else 0;
  uccodes = λ c. if is_small c then c - 32 else 0;
  mathcodes = starting_mathcode;
  delcodes = λ c. pos 0;
  primitive_ints = λ c. none;
  primitive_dims = λ c. none;
  primitive_skips = λ c. none;
  primitive_muskips = λ c. none;
  primitive_toks = λ c. none;
  int_register = [];
  dim_register = [];
  skip_register = [];
  muskip_register = [];
  toks_register = [];
  box_register = [];
  commands = [];
  ac_commands = λ c. none;
  endline_char = some b'\r';
  escape_char = some b'\\';
  newline_char = none;
  current_font = nullfont;
  textfonts = λ c. nullfont;
  scriptfonts = λ c. nullfont;
  scriptscriptfonts = λ c. nullfont;
  parshape = [];
}

-- `State::register_index`, at an integer that is not negative; the others have no index.
unfoldable pub register_index : ℤ → Option ℕ
register_index (pos n) = if ltb 65535 n then none else some n
register_index (ℤ.negsuc n) = none

module _ {E : EngineTypes} (s : DefaultState E) where
  unfoldable pub get_int_register : ℕ → ℤ
  get_int_register idx = get_or s.int_register idx (pos 0)

  unfoldable pub get_dim_register : ℕ → ℤ
  get_dim_register idx = get_or s.dim_register idx (pos 0)

  unfoldable pub get_skip_register : ℕ → Skip
  get_skip_register idx = get_or s.skip_register idx zero_skip

  unfoldable pub get_muskip_register : ℕ → MuSkip
  get_muskip_register idx = get_or s.muskip_register idx zero_muskip

  unfoldable pub get_box_register : ℕ → Option E.Box
  get_box_register idx = get_or s.box_register idx none

  unfoldable pub get_toks_register : ℕ → TokenList
  get_toks_register idx = get_or s.toks_register idx []

  unfoldable pub get_primitive_int : ℕ → ℤ
  get_primitive_int name = or_default (pos 0) (s.primitive_ints name)

  unfoldable pub get_primitive_dim : ℕ → ℤ
  get_primitive_dim name = or_default (pos 0) (s.primitive_dims name)

  unfoldable pub get_primitive_skip : ℕ → Skip
  get_primitive_skip name = or_default zero_skip (s.primitive_skips name)

  unfoldable pub get_primitive_muskip : ℕ → MuSkip
  get_primitive_muskip name = or_default zero_muskip (s.primitive_muskips name)

  unfoldable pub get_primitive_tokens : ℕ → TokenList
  get_primitive_tokens name = or_default [] (s.primitive_toks name)

  -- `CSNameVec::get`
  unfoldable pub get_command : ℕ → Option E.Command
  get_command name = get_or s.commands name none

  levels_type : List (StackLevel E) → Option GroupType
  levels_type [] = none
  levels_type (lvl ∷ rest) = some lvl.group_type

  unfoldable pub get_group_type : Option GroupType
  unfolding levels_type
  get_group_type = levels_type s.stack.stack

  unfoldable pub get_group_level : ℕ
  get_group_level = length s.stack.stack
