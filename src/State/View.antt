-- ===== src/State/View.antt =====
-- What a program can read from the state: a value at each place, through the getters.
use rus_te_x.Prelude.{ℕ, Option, ◌≡◌, refl}
use rus_te_x.Tex.Catcodes.{CategoryCode}
use rus_te_x.Tex.Numbers.{ℤ, Skip, MuSkip}
use rus_te_x.State.Change.{EngineTypes, TokenList, ParShape, Slot, StateChange}
use rus_te_x.State.Stack.{StateStack}
use rus_te_x.State.DefaultState.{
  DefaultState, get_int_register, get_dim_register, get_skip_register, get_muskip_register,
  get_box_register, get_toks_register, get_primitive_int, get_primitive_dim, get_primitive_skip,
  get_primitive_muskip, get_primitive_tokens, get_command,
}

pub data Val (E : EngineTypes) : Type 0 where
  catcode : CategoryCode → Val E
  num : ℕ → Val E
  int : ℤ → Val E
  shape : ParShape → Val E
  font : E.Font → Val E
  char : Option ℕ → Val E
  skip : Skip → Val E
  muskip : MuSkip → Val E
  box : Option E.Box → Val E
  toks : TokenList → Val E
  command : Option E.Command → Val E

module _ {E : EngineTypes} where
  unfoldable pub lookup : DefaultState E → Slot → Val E
  unfolding get_int_register get_dim_register get_skip_register get_muskip_register get_box_register
      get_toks_register get_primitive_int get_primitive_dim get_primitive_skip get_primitive_muskip
      get_primitive_tokens get_command
  lookup s (Slot.catcode c) = Val.catcode (s.catcodes c)
  lookup s (Slot.sf_code c) = Val.num (s.sfcodes c)
  lookup s (Slot.del_code c) = Val.int (s.delcodes c)
  lookup s (Slot.lc_code c) = Val.num (s.lccodes c)
  lookup s (Slot.uc_code c) = Val.num (s.uccodes c)
  lookup s (Slot.math_code c) = Val.num (s.mathcodes c)
  lookup s Slot.par_shape = Val.shape s.parshape
  lookup s Slot.current_font = Val.font s.current_font
  lookup s (Slot.text_font idx) = Val.font (s.textfonts idx)
  lookup s (Slot.script_font idx) = Val.font (s.scriptfonts idx)
  lookup s (Slot.script_script_font idx) = Val.font (s.scriptscriptfonts idx)
  lookup s Slot.endline_char = Val.char s.endline_char
  lookup s Slot.escape_char = Val.char s.escape_char
  lookup s Slot.newline_char = Val.char s.newline_char
  lookup s (Slot.int_register idx) = Val.int (get_int_register s idx)
  lookup s (Slot.dim_register idx) = Val.int (get_dim_register s idx)
  lookup s (Slot.skip_register idx) = Val.skip (get_skip_register s idx)
  lookup s (Slot.muskip_register idx) = Val.muskip (get_muskip_register s idx)
  lookup s (Slot.box_register idx) = Val.box (get_box_register s idx)
  lookup s (Slot.toks_register idx) = Val.toks (get_toks_register s idx)
  lookup s (Slot.primitive_int name) = Val.int (get_primitive_int s name)
  lookup s (Slot.primitive_dim name) = Val.int (get_primitive_dim s name)
  lookup s (Slot.primitive_toks name) = Val.toks (get_primitive_tokens s name)
  lookup s (Slot.primitive_skip name) = Val.skip (get_primitive_skip s name)
  lookup s (Slot.primitive_muskip name) = Val.muskip (get_primitive_muskip s name)
  lookup s (Slot.command name) = Val.command (get_command s name)
  lookup s (Slot.ac_command c) = Val.command (s.ac_commands c)

  -- the value in a change
  unfoldable pub value_of : StateChange E → Val E
  value_of (StateChange.catcode i v) = Val.catcode v
  value_of (StateChange.sf_code i v) = Val.num v
  value_of (StateChange.del_code i v) = Val.int v
  value_of (StateChange.lc_code i v) = Val.num v
  value_of (StateChange.uc_code i v) = Val.num v
  value_of (StateChange.math_code i v) = Val.num v
  value_of (StateChange.par_shape v) = Val.shape v
  value_of (StateChange.current_font v) = Val.font v
  value_of (StateChange.text_font i v) = Val.font v
  value_of (StateChange.script_font i v) = Val.font v
  value_of (StateChange.script_script_font i v) = Val.font v
  value_of (StateChange.endline_char v) = Val.char v
  value_of (StateChange.escape_char v) = Val.char v
  value_of (StateChange.newline_char v) = Val.char v
  value_of (StateChange.int_register i v) = Val.int v
  value_of (StateChange.dim_register i v) = Val.int v
  value_of (StateChange.skip_register i v) = Val.skip v
  value_of (StateChange.muskip_register i v) = Val.muskip v
  value_of (StateChange.box_register i v) = Val.box v
  value_of (StateChange.toks_register i v) = Val.toks v
  value_of (StateChange.primitive_int i v) = Val.int v
  value_of (StateChange.primitive_dim i v) = Val.int v
  value_of (StateChange.primitive_toks i v) = Val.toks v
  value_of (StateChange.primitive_skip i v) = Val.skip v
  value_of (StateChange.primitive_muskip i v) = Val.muskip v
  value_of (StateChange.command i v) = Val.command v
  value_of (StateChange.ac_command i v) = Val.command v

  -- The journal is no part of what can be read.
  pub lookup_stack :
      (s : DefaultState E) (t : StateStack E) (k : Slot)
      → lookup (record s { stack = t }) k ≡ lookup s k
  unfolding lookup
  lookup_stack s t (Slot.catcode c) = refl
  lookup_stack s t _ = refl
