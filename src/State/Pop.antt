-- ===== src/State/Pop.antt =====
-- engine/state/tex_state.rs: `pop`, which ends a group and writes its changes back.
-- `none` is a panic: no group is open, or an index is out of range.
use rus_te_x.Prelude.{ℕ, Option, none, some, List, [], ◌∷◌, ltb, if◌then◌else◌, length, set, ◌>>=◌}
use rus_te_x.State.Change.{EngineTypes, StateChange}
use rus_te_x.State.Stack
use rus_te_x.State.Stack.{StackLevel, StateStack, active_changes, recycle}
use rus_te_x.State.Registers.{update}
use rus_te_x.State.CommandTable.{replace_command}
use rus_te_x.State.DefaultState.{DefaultState}

-- `register[idx] = old`
abbrev write_at {ℓ} : {A : Type ℓ} → ℕ → A → List A → Option (List A)
write_at idx old reg = if ltb idx (length reg) then some (set reg idx old) else none

module _ {E : EngineTypes} where
  -- the closure that `pop` hands to `close`
  unfoldable pub restore : StateChange E → DefaultState E → Option (DefaultState E)
  unfolding replace_command
  restore (StateChange.catcode c old) s = some (record s { catcodes = update s.catcodes c old })
  restore (StateChange.sf_code c old) s = some (record s { sfcodes = update s.sfcodes c old })
  restore (StateChange.del_code c old) s = some (record s { delcodes = update s.delcodes c old })
  restore (StateChange.lc_code c old) s = some (record s { lccodes = update s.lccodes c old })
  restore (StateChange.uc_code c old) s = some (record s { uccodes = update s.uccodes c old })
  restore (StateChange.math_code c old) s = some (record s { mathcodes = update s.mathcodes c old })
  restore (StateChange.par_shape old) s = some (record s { parshape = old })
  restore (StateChange.current_font old) s = some (record s { current_font = old })
  restore (StateChange.text_font idx old) s =
      if ltb idx 16 then some (record s { textfonts = update s.textfonts idx old }) else none
  restore (StateChange.script_font idx old) s =
      if ltb idx 16 then some (record s { scriptfonts = update s.scriptfonts idx old }) else none
  restore (StateChange.script_script_font idx old) s =
      if ltb idx 16
      then some (record s { scriptscriptfonts = update s.scriptscriptfonts idx old })
      else none
  restore (StateChange.endline_char old) s = some (record s { endline_char = old })
  restore (StateChange.escape_char old) s = some (record s { escape_char = old })
  restore (StateChange.newline_char old) s = some (record s { newline_char = old })
  restore (StateChange.int_register idx old) s = do
    reg ← write_at idx old s.int_register
    some (record s { int_register = reg })
  restore (StateChange.dim_register idx old) s = do
    reg ← write_at idx old s.dim_register
    some (record s { dim_register = reg })
  restore (StateChange.skip_register idx old) s = do
    reg ← write_at idx old s.skip_register
    some (record s { skip_register = reg })
  restore (StateChange.muskip_register idx old) s = do
    reg ← write_at idx old s.muskip_register
    some (record s { muskip_register = reg })
  restore (StateChange.box_register idx old) s = do
    reg ← write_at idx old s.box_register
    some (record s { box_register = reg })
  restore (StateChange.toks_register idx old) s = do
    reg ← write_at idx old s.toks_register
    some (record s { toks_register = reg })
  restore (StateChange.primitive_int name old) s =
      some (record s { primitive_ints = update s.primitive_ints name (some old) })
  restore (StateChange.primitive_dim name old) s =
      some (record s { primitive_dims = update s.primitive_dims name (some old) })
  restore (StateChange.primitive_toks name old) s =
      some (record s { primitive_toks = update s.primitive_toks name (some old) })
  restore (StateChange.primitive_skip name old) s =
      some (record s { primitive_skips = update s.primitive_skips name (some old) })
  restore (StateChange.primitive_muskip name old) s =
      some (record s { primitive_muskips = update s.primitive_muskips name (some old) })
  restore (StateChange.command name old) s =
      some (record s { commands = (replace_command name old s.commands).0 })
  restore (StateChange.ac_command c old) s =
      some (record s { ac_commands = update s.ac_commands c old })

  unfoldable pub restore_all : List (StateChange E) → DefaultState E → Option (DefaultState E)
  unfolding restore
  restore_all [] s = some s
  restore_all (c ∷ cs) s = do s' ← restore c s; restore_all cs s'

  -- the new state, and the `\aftergroup` tokens that the mouth is given
  unfoldable pub end_group :
      Option (StackLevel E × StateStack E) → DefaultState E → Option (DefaultState E × List ℕ)
  unfolding restore_all
  end_group none s = none
  end_group (some (lvl, stack)) s = do
    s' ← restore_all (active_changes lvl.changes) (record s { stack = stack })
    some (record s' { stack = recycle s'.stack }, lvl.aftergroup)

  unfoldable pub pop : DefaultState E → Option (DefaultState E × List ℕ)
  unfolding end_group Stack.pop active_changes recycle
  pop s = end_group (Stack.pop s.stack) s
