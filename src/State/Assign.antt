-- ===== src/State/Assign.antt =====
-- engine/state/tex_state.rs: the assignments. Each is `change_field` of engine/state.rs with a function
-- that writes the new value and returns the old one.
use rus_te_x.Prelude.{
  ℕ, Bool, Option, none, some, List, [], ◌∷◌, ◌++◌, ltb, if◌then◌else◌, get_or, set,
}
use rus_te_x.Tex.Catcodes.{CategoryCode}
use rus_te_x.Tex.Numbers.{ℤ, pos, is_zero, is_positive, Skip, MuSkip, zero_skip, zero_muskip}
use rus_te_x.State.Change.{EngineTypes, GroupType, TokenList, ParShape, StateChange}
use rus_te_x.State.Stack
use rus_te_x.State.Stack.{StackLevel, add_change_globally, add_change_locally}
use rus_te_x.State.Registers.{resize_for, or_default, update}
use rus_te_x.State.CommandTable.{replace_command}
use rus_te_x.State.DefaultState.{DefaultState, get_primitive_int}

module _ {E : EngineTypes} where
  -- the value of `global` in `change_field`
  unfoldable pub is_global : Bool → DefaultState E → Bool
  unfolding get_primitive_int
  is_global globally s =
      let globaldefs = get_primitive_int s E.globaldefs in
      if is_zero globaldefs then globally else is_positive globaldefs

  unfoldable pub change_field :
      Bool → (DefaultState E → DefaultState E × StateChange E) → DefaultState E → DefaultState E
  unfolding is_global
  change_field globally f s =
      let global = is_global globally s in
      let (s', change) = f s in
      record s' {
        stack =
            if global
            then add_change_globally change s'.stack
            else add_change_locally change s'.stack;
      }

  unfoldable pub set_catcode : ℕ → CategoryCode → Bool → DefaultState E → DefaultState E
  unfolding change_field
  set_catcode c val globally =
      change_field globally
        λ s. (record s { catcodes = update s.catcodes c val }, StateChange.catcode c (s.catcodes c))

  unfoldable pub set_sfcode : ℕ → ℕ → Bool → DefaultState E → DefaultState E
  unfolding change_field
  set_sfcode c val globally =
      change_field globally
        λ s. (record s { sfcodes = update s.sfcodes c val }, StateChange.sf_code c (s.sfcodes c))

  unfoldable pub set_delcode : ℕ → ℤ → Bool → DefaultState E → DefaultState E
  unfolding change_field
  set_delcode c val globally =
      change_field globally λ s.
        (record s { delcodes = update s.delcodes c val }, StateChange.del_code c (s.delcodes c))

  unfoldable pub set_lccode : ℕ → ℕ → Bool → DefaultState E → DefaultState E
  unfolding change_field
  set_lccode c val globally =
      change_field globally
        λ s. (record s { lccodes = update s.lccodes c val }, StateChange.lc_code c (s.lccodes c))

  unfoldable pub set_uccode : ℕ → ℕ → Bool → DefaultState E → DefaultState E
  unfolding change_field
  set_uccode c val globally =
      change_field globally
        λ s. (record s { uccodes = update s.uccodes c val }, StateChange.uc_code c (s.uccodes c))

  unfoldable pub set_mathcode : ℕ → ℕ → Bool → DefaultState E → DefaultState E
  unfolding change_field
  set_mathcode c val globally = change_field globally λ s.
      (record s { mathcodes = update s.mathcodes c val }, StateChange.math_code c (s.mathcodes c))

  unfoldable pub set_parshape : ParShape → Bool → DefaultState E → DefaultState E
  unfolding change_field
  set_parshape val globally =
      change_field globally λ s. (record s { parshape = val }, StateChange.par_shape s.parshape)

  unfoldable pub set_current_font : E.Font → Bool → DefaultState E → DefaultState E
  unfolding change_field
  set_current_font val globally =
      change_field globally
        λ s. (record s { current_font = val }, StateChange.current_font s.current_font)

  unfoldable pub set_textfont : ℕ → E.Font → Bool → DefaultState E → Option (DefaultState E)
  unfolding change_field
  set_textfont idx fnt globally s =
      if ltb idx 16
      then some (
          change_field globally
            (λ s. (
              record s { textfonts = update s.textfonts idx fnt },
              StateChange.text_font idx (s.textfonts idx),
            ))
            s)
      else none

  unfoldable pub set_scriptfont : ℕ → E.Font → Bool → DefaultState E → Option (DefaultState E)
  unfolding change_field
  set_scriptfont idx fnt globally s =
      if ltb idx 16
      then some (
          change_field globally
            (λ s. (
              record s { scriptfonts = update s.scriptfonts idx fnt },
              StateChange.script_font idx (s.scriptfonts idx),
            ))
            s)
      else none

  unfoldable pub set_scriptscriptfont : ℕ → E.Font → Bool → DefaultState E → Option (DefaultState E)
  unfolding change_field
  set_scriptscriptfont idx fnt globally s =
      if ltb idx 16
      then some (
          change_field globally
            (λ s. (
              record s { scriptscriptfonts = update s.scriptscriptfonts idx fnt },
              StateChange.script_script_font idx (s.scriptscriptfonts idx),
            ))
            s)
      else none

  unfoldable pub set_endline_char : Option ℕ → Bool → DefaultState E → DefaultState E
  unfolding change_field
  set_endline_char val globally =
      change_field globally
        λ s. (record s { endline_char = val }, StateChange.endline_char s.endline_char)

  unfoldable pub set_escape_char : Option ℕ → Bool → DefaultState E → DefaultState E
  unfolding change_field
  set_escape_char val globally =
      change_field globally
        λ s. (record s { escape_char = val }, StateChange.escape_char s.escape_char)

  unfoldable pub set_newline_char : Option ℕ → Bool → DefaultState E → DefaultState E
  unfolding change_field
  set_newline_char val globally =
      change_field globally
        λ s. (record s { newline_char = val }, StateChange.newline_char s.newline_char)

  unfoldable pub set_int_register : ℕ → ℤ → Bool → DefaultState E → DefaultState E
  unfolding change_field
  set_int_register idx v globally = change_field globally λ s.
      let reg = resize_for idx (pos 0) s.int_register in
      (
        record s { int_register = set reg idx v },
        StateChange.int_register idx (get_or reg idx (pos 0)),
      )

  unfoldable pub set_dim_register : ℕ → ℤ → Bool → DefaultState E → DefaultState E
  unfolding change_field
  set_dim_register idx v globally = change_field globally λ s.
      let reg = resize_for idx (pos 0) s.dim_register in
      (
        record s { dim_register = set reg idx v },
        StateChange.dim_register idx (get_or reg idx (pos 0)),
      )

  unfoldable pub set_skip_register : ℕ → Skip → Bool → DefaultState E → DefaultState E
  unfolding change_field
  set_skip_register idx v globally = change_field globally λ s.
      let reg = resize_for idx zero_skip s.skip_register in
      (
        record s { skip_register = set reg idx v },
        StateChange.skip_register idx (get_or reg idx zero_skip),
      )

  unfoldable pub set_muskip_register : ℕ → MuSkip → Bool → DefaultState E → DefaultState E
  unfolding change_field
  set_muskip_register idx v globally = change_field globally λ s.
      let reg = resize_for idx zero_muskip s.muskip_register in
      (
        record s { muskip_register = set reg idx v },
        StateChange.muskip_register idx (get_or reg idx zero_muskip),
      )

  unfoldable pub set_box_register : ℕ → Option E.Box → Bool → DefaultState E → DefaultState E
  unfolding change_field
  set_box_register idx v globally = change_field globally λ s.
      let reg = resize_for idx none s.box_register in
      (
        record s { box_register = set reg idx v },
        StateChange.box_register idx (get_or reg idx none),
      )

  unfoldable pub set_toks_register : ℕ → TokenList → Bool → DefaultState E → DefaultState E
  unfolding change_field
  set_toks_register idx v globally = change_field globally λ s.
      let reg = resize_for idx [] s.toks_register in
      (
        record s { toks_register = set reg idx v },
        StateChange.toks_register idx (get_or reg idx []),
      )

  unfoldable pub set_primitive_int : ℕ → ℤ → Bool → DefaultState E → DefaultState E
  unfolding change_field
  set_primitive_int name v globally = change_field globally λ s. (
    record s { primitive_ints = update s.primitive_ints name (some v) },
    StateChange.primitive_int name (or_default (pos 0) (s.primitive_ints name)),
  )

  unfoldable pub set_primitive_dim : ℕ → ℤ → Bool → DefaultState E → DefaultState E
  unfolding change_field
  set_primitive_dim name v globally = change_field globally λ s. (
    record s { primitive_dims = update s.primitive_dims name (some v) },
    StateChange.primitive_dim name (or_default (pos 0) (s.primitive_dims name)),
  )

  unfoldable pub set_primitive_tokens : ℕ → TokenList → Bool → DefaultState E → DefaultState E
  unfolding change_field
  set_primitive_tokens name v globally = change_field globally λ s. (
    record s { primitive_toks = update s.primitive_toks name (some v) },
    StateChange.primitive_toks name (or_default [] (s.primitive_toks name)),
  )

  unfoldable pub set_primitive_skip : ℕ → Skip → Bool → DefaultState E → DefaultState E
  unfolding change_field
  set_primitive_skip name v globally = change_field globally λ s. (
    record s { primitive_skips = update s.primitive_skips name (some v) },
    StateChange.primitive_skip name (or_default zero_skip (s.primitive_skips name)),
  )

  unfoldable pub set_primitive_muskip : ℕ → MuSkip → Bool → DefaultState E → DefaultState E
  unfolding change_field
  set_primitive_muskip name v globally = change_field globally λ s. (
    record s { primitive_muskips = update s.primitive_muskips name (some v) },
    StateChange.primitive_muskip name (or_default zero_muskip (s.primitive_muskips name)),
  )

  unfoldable pub set_command : ℕ → Option E.Command → Bool → DefaultState E → DefaultState E
  unfolding change_field replace_command
  set_command name cmd globally = change_field globally λ s.
      let (v, old) = replace_command name cmd s.commands in
      (record s { commands = v }, StateChange.command name old)

  unfoldable pub set_ac_command : ℕ → Option E.Command → Bool → DefaultState E → DefaultState E
  unfolding change_field
  set_ac_command c val globally = change_field globally λ s. (
    record s { ac_commands = update s.ac_commands c val },
    StateChange.ac_command c (s.ac_commands c),
  )

  -- The shape is taken, and its restoration is always local.
  unfoldable pub take_parshape : DefaultState E → DefaultState E × ParShape
  take_parshape s = (
    record s {
      parshape = [];
      stack = add_change_locally (StateChange.par_shape s.parshape) s.stack;
    },
    s.parshape,
  )

  -- The box leaves its register and the journal is not told.
  unfoldable pub take_box_register : ℕ → DefaultState E → DefaultState E × Option E.Box
  take_box_register idx s =
      (record s { box_register = set s.box_register idx none }, get_or s.box_register idx none)

  unfoldable pub push : GroupType → DefaultState E → DefaultState E
  push group_type s = record s { stack = Stack.push group_type s.stack }

  unfoldable pub append_to_last : ℕ → List (StackLevel E) → List (StackLevel E)
  append_to_last token [] = []
  append_to_last token (lvl ∷ rest) =
      record lvl { aftergroup = lvl.aftergroup ++ token ∷ [] } ∷ rest

  unfoldable pub aftergroup : ℕ → DefaultState E → DefaultState E
  unfolding append_to_last
  aftergroup token s = record s {
    stack = record s.stack { stack = append_to_last token s.stack.stack };
  }
