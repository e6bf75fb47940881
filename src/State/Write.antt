-- ===== src/State/Write.antt =====
-- `write` is the write that assignments and restorations share; registers are grown by `grow` before an
-- assignment, and `prior` is the change that it records.
use rus_te_x.Prelude.{◌<◌, Bool, Option, none, some, [], ◌≡◌, refl, arith, length, get_or, set}
use native.Mathlib.Decide.{dec_lt}
use rus_te_x.Tex.Numbers.{pos, zero_skip, zero_muskip}
use rus_te_x.State.Change.{EngineTypes, StateChange}
use rus_te_x.State.Registers.{resize_for, update, or_default}
use rus_te_x.State.CommandTable.{replace_command}
use rus_te_x.State.DefaultState.{DefaultState}
use rus_te_x.State.Assign.{
  change_field, set_catcode, set_sfcode, set_delcode, set_lccode, set_uccode, set_mathcode,
  set_parshape, set_current_font, set_textfont, set_scriptfont, set_scriptscriptfont,
  set_endline_char, set_escape_char, set_newline_char, set_int_register, set_dim_register,
  set_skip_register, set_muskip_register, set_box_register, set_toks_register, set_primitive_int,
  set_primitive_dim, set_primitive_tokens, set_primitive_skip, set_primitive_muskip, set_command,
  set_ac_command,
}
use rus_te_x.State.Pop.{restore}

module _ {E : EngineTypes} where
  -- the index is in range
  abbrev pub InRange : StateChange E → DefaultState E → Type 0
  InRange (StateChange.text_font idx v) s = idx < 16
  InRange (StateChange.script_font idx v) s = idx < 16
  InRange (StateChange.script_script_font idx v) s = idx < 16
  InRange (StateChange.int_register idx v) s = idx < length s.int_register
  InRange (StateChange.dim_register idx v) s = idx < length s.dim_register
  InRange (StateChange.skip_register idx v) s = idx < length s.skip_register
  InRange (StateChange.muskip_register idx v) s = idx < length s.muskip_register
  InRange (StateChange.box_register idx v) s = idx < length s.box_register
  InRange (StateChange.toks_register idx v) s = idx < length s.toks_register
  InRange _ s = Unit

  -- A math style has sixteen fonts.
  abbrev pub Legal : StateChange E → Type 0
  Legal (StateChange.text_font idx v) = idx < 16
  Legal (StateChange.script_font idx v) = idx < 16
  Legal (StateChange.script_script_font idx v) = idx < 16
  Legal _ = Unit

  unfoldable pub write : StateChange E → DefaultState E → DefaultState E
  write (StateChange.catcode c v) s = record s { catcodes = update s.catcodes c v }
  write (StateChange.sf_code c v) s = record s { sfcodes = update s.sfcodes c v }
  write (StateChange.del_code c v) s = record s { delcodes = update s.delcodes c v }
  write (StateChange.lc_code c v) s = record s { lccodes = update s.lccodes c v }
  write (StateChange.uc_code c v) s = record s { uccodes = update s.uccodes c v }
  write (StateChange.math_code c v) s = record s { mathcodes = update s.mathcodes c v }
  write (StateChange.par_shape v) s = record s { parshape = v }
  write (StateChange.current_font v) s = record s { current_font = v }
  write (StateChange.text_font idx v) s = record s { textfonts = update s.textfonts idx v }
  write (StateChange.script_font idx v) s = record s { scriptfonts = update s.scriptfonts idx v }
  write (StateChange.script_script_font idx v) s = record s {
    scriptscriptfonts = update s.scriptscriptfonts idx v;
  }
  write (StateChange.endline_char v) s = record s { endline_char = v }
  write (StateChange.escape_char v) s = record s { escape_char = v }
  write (StateChange.newline_char v) s = record s { newline_char = v }
  write (StateChange.int_register idx v) s = record s { int_register = set s.int_register idx v }
  write (StateChange.dim_register idx v) s = record s { dim_register = set s.dim_register idx v }
  write (StateChange.skip_register idx v) s = record s { skip_register = set s.skip_register idx v }
  write (StateChange.muskip_register idx v) s = record s {
    muskip_register = set s.muskip_register idx v;
  }
  write (StateChange.box_register idx v) s = record s { box_register = set s.box_register idx v }
  write (StateChange.toks_register idx v) s = record s { toks_register = set s.toks_register idx v }
  write (StateChange.primitive_int name v) s = record s {
    primitive_ints = update s.primitive_ints name (some v);
  }
  write (StateChange.primitive_dim name v) s = record s {
    primitive_dims = update s.primitive_dims name (some v);
  }
  write (StateChange.primitive_toks name v) s = record s {
    primitive_toks = update s.primitive_toks name (some v);
  }
  write (StateChange.primitive_skip name v) s = record s {
    primitive_skips = update s.primitive_skips name (some v);
  }
  write (StateChange.primitive_muskip name v) s = record s {
    primitive_muskips = update s.primitive_muskips name (some v);
  }
  write (StateChange.command name v) s = record s {
    commands = (replace_command name v s.commands).0;
  }
  write (StateChange.ac_command c v) s = record s { ac_commands = update s.ac_commands c v }

  unfoldable pub grow : StateChange E → DefaultState E → DefaultState E
  grow (StateChange.int_register idx v) s = record s {
    int_register = resize_for idx (pos 0) s.int_register;
  }
  grow (StateChange.dim_register idx v) s = record s {
    dim_register = resize_for idx (pos 0) s.dim_register;
  }
  grow (StateChange.skip_register idx v) s = record s {
    skip_register = resize_for idx zero_skip s.skip_register;
  }
  grow (StateChange.muskip_register idx v) s = record s {
    muskip_register = resize_for idx zero_muskip s.muskip_register;
  }
  grow (StateChange.box_register idx v) s = record s {
    box_register = resize_for idx none s.box_register;
  }
  grow (StateChange.toks_register idx v) s = record s {
    toks_register = resize_for idx [] s.toks_register;
  }
  grow _ s = s

  unfoldable pub prior : StateChange E → DefaultState E → StateChange E
  prior (StateChange.catcode c v) s = StateChange.catcode c (s.catcodes c)
  prior (StateChange.sf_code c v) s = StateChange.sf_code c (s.sfcodes c)
  prior (StateChange.del_code c v) s = StateChange.del_code c (s.delcodes c)
  prior (StateChange.lc_code c v) s = StateChange.lc_code c (s.lccodes c)
  prior (StateChange.uc_code c v) s = StateChange.uc_code c (s.uccodes c)
  prior (StateChange.math_code c v) s = StateChange.math_code c (s.mathcodes c)
  prior (StateChange.par_shape v) s = StateChange.par_shape s.parshape
  prior (StateChange.current_font v) s = StateChange.current_font s.current_font
  prior (StateChange.text_font idx v) s = StateChange.text_font idx (s.textfonts idx)
  prior (StateChange.script_font idx v) s = StateChange.script_font idx (s.scriptfonts idx)
  prior (StateChange.script_script_font idx v) s =
      StateChange.script_script_font idx (s.scriptscriptfonts idx)
  prior (StateChange.endline_char v) s = StateChange.endline_char s.endline_char
  prior (StateChange.escape_char v) s = StateChange.escape_char s.escape_char
  prior (StateChange.newline_char v) s = StateChange.newline_char s.newline_char
  prior (StateChange.int_register idx v) s =
      StateChange.int_register idx (get_or (resize_for idx (pos 0) s.int_register) idx (pos 0))
  prior (StateChange.dim_register idx v) s =
      StateChange.dim_register idx (get_or (resize_for idx (pos 0) s.dim_register) idx (pos 0))
  prior (StateChange.skip_register idx v) s =
      StateChange.skip_register idx
        (get_or (resize_for idx zero_skip s.skip_register) idx zero_skip)
  prior (StateChange.muskip_register idx v) s =
      StateChange.muskip_register idx
        (get_or (resize_for idx zero_muskip s.muskip_register) idx zero_muskip)
  prior (StateChange.box_register idx v) s =
      StateChange.box_register idx (get_or (resize_for idx none s.box_register) idx none)
  prior (StateChange.toks_register idx v) s =
      StateChange.toks_register idx (get_or (resize_for idx [] s.toks_register) idx [])
  prior (StateChange.primitive_int name v) s =
      StateChange.primitive_int name (or_default (pos 0) (s.primitive_ints name))
  prior (StateChange.primitive_dim name v) s =
      StateChange.primitive_dim name (or_default (pos 0) (s.primitive_dims name))
  prior (StateChange.primitive_toks name v) s =
      StateChange.primitive_toks name (or_default [] (s.primitive_toks name))
  prior (StateChange.primitive_skip name v) s =
      StateChange.primitive_skip name (or_default zero_skip (s.primitive_skips name))
  prior (StateChange.primitive_muskip name v) s =
      StateChange.primitive_muskip name (or_default zero_muskip (s.primitive_muskips name))
  prior (StateChange.command name v) s =
      StateChange.command name (replace_command name v s.commands).1
  prior (StateChange.ac_command c v) s = StateChange.ac_command c (s.ac_commands c)

  -- the assignment of the value in a change to its place, by the program's own setter
  unfoldable pub assign : StateChange E → Bool → DefaultState E → Option (DefaultState E)
  unfolding set_catcode set_sfcode set_delcode set_lccode set_uccode set_mathcode set_parshape
      set_current_font set_textfont set_scriptfont set_scriptscriptfont set_endline_char
      set_escape_char set_newline_char set_int_register set_dim_register set_skip_register
      set_muskip_register set_box_register set_toks_register set_primitive_int set_primitive_dim
      set_primitive_tokens set_primitive_skip set_primitive_muskip set_command set_ac_command
  assign (StateChange.catcode i v) g s = some (set_catcode i v g s)
  assign (StateChange.sf_code i v) g s = some (set_sfcode i v g s)
  assign (StateChange.del_code i v) g s = some (set_delcode i v g s)
  assign (StateChange.lc_code i v) g s = some (set_lccode i v g s)
  assign (StateChange.uc_code i v) g s = some (set_uccode i v g s)
  assign (StateChange.math_code i v) g s = some (set_mathcode i v g s)
  assign (StateChange.par_shape v) g s = some (set_parshape v g s)
  assign (StateChange.current_font v) g s = some (set_current_font v g s)
  assign (StateChange.text_font i v) g s = set_textfont i v g s
  assign (StateChange.script_font i v) g s = set_scriptfont i v g s
  assign (StateChange.script_script_font i v) g s = set_scriptscriptfont i v g s
  assign (StateChange.endline_char v) g s = some (set_endline_char v g s)
  assign (StateChange.escape_char v) g s = some (set_escape_char v g s)
  assign (StateChange.newline_char v) g s = some (set_newline_char v g s)
  assign (StateChange.int_register i v) g s = some (set_int_register i v g s)
  assign (StateChange.dim_register i v) g s = some (set_dim_register i v g s)
  assign (StateChange.skip_register i v) g s = some (set_skip_register i v g s)
  assign (StateChange.muskip_register i v) g s = some (set_muskip_register i v g s)
  assign (StateChange.box_register i v) g s = some (set_box_register i v g s)
  assign (StateChange.toks_register i v) g s = some (set_toks_register i v g s)
  assign (StateChange.primitive_int i v) g s = some (set_primitive_int i v g s)
  assign (StateChange.primitive_dim i v) g s = some (set_primitive_dim i v g s)
  assign (StateChange.primitive_toks i v) g s = some (set_primitive_tokens i v g s)
  assign (StateChange.primitive_skip i v) g s = some (set_primitive_skip i v g s)
  assign (StateChange.primitive_muskip i v) g s = some (set_primitive_muskip i v g s)
  assign (StateChange.command i v) g s = some (set_command i v g s)
  assign (StateChange.ac_command i v) g s = some (set_ac_command i v g s)

  -- what an assignment does, when its index is legal
  unfoldable pub assigned : StateChange E → Bool → DefaultState E → DefaultState E
  unfolding change_field
  assigned c g s = change_field g (λ s. (write c (grow c s), prior c s)) s

  pub assign-Legal :
      (c : StateChange E) (g : Bool) (s : DefaultState E)
      → Legal c
      → assign c g s ≡ some (assigned c g s)
  unfolding assign assigned write grow prior
  assign-Legal (StateChange.text_font idx v) g s h = ground arith
  assign-Legal (StateChange.script_font idx v) g s h = ground arith
  assign-Legal (StateChange.script_script_font idx v) g s h = ground arith
  assign-Legal _ g s h = refl

  pub restore-write :
      (c : StateChange E) (s : DefaultState E) → InRange c s → restore c s ≡ some (write c s)
  unfolding restore write
  restore-write (StateChange.text_font idx v) s h = ground arith
  restore-write (StateChange.script_font idx v) s h = ground arith
  restore-write (StateChange.script_script_font idx v) s h = ground arith
  restore-write (StateChange.int_register idx v) s h = ground arith
  restore-write (StateChange.dim_register idx v) s h = ground arith
  restore-write (StateChange.skip_register idx v) s h = ground arith
  restore-write (StateChange.muskip_register idx v) s h = ground arith
  restore-write (StateChange.box_register idx v) s h = ground arith
  restore-write (StateChange.toks_register idx v) s h = ground arith
  restore-write _ s h = refl

  pub Legal-dec : (c : StateChange E) → Dec (Legal c)
  Legal-dec (StateChange.text_font i v) = dec_lt i 16
  Legal-dec (StateChange.script_font i v) = dec_lt i 16
  Legal-dec (StateChange.script_script_font i v) = dec_lt i 16
  Legal-dec _ = yes tt

  pub assign-not-Legal :
      (c : StateChange E) (g : Bool) (s : DefaultState E) → ¬ (Legal c) → assign c g s ≡ none
  unfolding assign
  assign-not-Legal (StateChange.text_font i v) g s h = ground arith
  assign-not-Legal (StateChange.script_font i v) g s h = ground arith
  assign-not-Legal (StateChange.script_script_font i v) g s h = ground arith
  assign-not-Legal _ g s h = absurd (h tt)

  pub stack-write : (c : StateChange E) (s : DefaultState E) → (write c s).stack ≡ s.stack
  unfolding write
  stack-write (StateChange.catcode i v) s = refl
  stack-write _ s = refl

  pub stack-grow : (c : StateChange E) (s : DefaultState E) → (grow c s).stack ≡ s.stack
  unfolding grow
  stack-grow (StateChange.int_register i v) s = refl
  stack-grow _ s = refl
