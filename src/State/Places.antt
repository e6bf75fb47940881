-- ===== src/State/Places.antt =====
-- What a write, the growth of registers and the change that is recorded mean for the values that are
-- read at the places of the state.
use rus_te_x.Prelude.{none, [], ◌≡◌, refl, ap, arith, if◌then◌else◌}
use rus_te_x.Tex.Numbers.{pos, zero_skip, zero_muskip}
use rus_te_x.State.Change.{EngineTypes, Slot, StateChange, id_of, same}
use rus_te_x.State.Registers.{get_or-resize_for, get_or-set}
use rus_te_x.State.CommandTable.{get_or-replace_command, old-replace_command}
use rus_te_x.State.DefaultState.{DefaultState}
use rus_te_x.State.View.{Val, lookup, value_of}
use rus_te_x.State.Write.{InRange, write, grow, prior}

module _ {E : EngineTypes} where
  pub lookup-write :
      (c : StateChange E) (s : DefaultState E)
      → InRange c s
      → (k : Slot) → lookup (write c s) k ≡ (if same (id_of c) k then value_of c else lookup s k)
  unfolding lookup write same id_of value_of
  lookup-write (StateChange.catcode i v) s h (Slot.catcode j) = ground arith
  lookup-write (StateChange.catcode i v) s h _ = refl
  lookup-write (StateChange.sf_code i v) s h (Slot.sf_code j) = ground arith
  lookup-write (StateChange.sf_code i v) s h _ = refl
  lookup-write (StateChange.del_code i v) s h (Slot.del_code j) = ground arith
  lookup-write (StateChange.del_code i v) s h _ = refl
  lookup-write (StateChange.lc_code i v) s h (Slot.lc_code j) = ground arith
  lookup-write (StateChange.lc_code i v) s h _ = refl
  lookup-write (StateChange.uc_code i v) s h (Slot.uc_code j) = ground arith
  lookup-write (StateChange.uc_code i v) s h _ = refl
  lookup-write (StateChange.math_code i v) s h (Slot.math_code j) = ground arith
  lookup-write (StateChange.math_code i v) s h _ = refl
  lookup-write (StateChange.par_shape v) s h Slot.par_shape = refl
  lookup-write (StateChange.par_shape v) s h _ = refl
  lookup-write (StateChange.current_font v) s h Slot.current_font = refl
  lookup-write (StateChange.current_font v) s h _ = refl
  lookup-write (StateChange.text_font i v) s h (Slot.text_font j) = ground arith
  lookup-write (StateChange.text_font i v) s h _ = refl
  lookup-write (StateChange.script_font i v) s h (Slot.script_font j) = ground arith
  lookup-write (StateChange.script_font i v) s h _ = refl
  lookup-write (StateChange.script_script_font i v) s h (Slot.script_script_font j) = ground arith
  lookup-write (StateChange.script_script_font i v) s h _ = refl
  lookup-write (StateChange.endline_char v) s h Slot.endline_char = refl
  lookup-write (StateChange.endline_char v) s h _ = refl
  lookup-write (StateChange.escape_char v) s h Slot.escape_char = refl
  lookup-write (StateChange.escape_char v) s h _ = refl
  lookup-write (StateChange.newline_char v) s h Slot.newline_char = refl
  lookup-write (StateChange.newline_char v) s h _ = refl
  lookup-write (StateChange.int_register i v) s h (Slot.int_register j) =
      ground (arith, get_or-set s.int_register i j v (pos 0) h)
  lookup-write (StateChange.int_register i v) s h _ = refl
  lookup-write (StateChange.dim_register i v) s h (Slot.dim_register j) =
      ground (arith, get_or-set s.dim_register i j v (pos 0) h)
  lookup-write (StateChange.dim_register i v) s h _ = refl
  lookup-write (StateChange.skip_register i v) s h (Slot.skip_register j) =
      ground (arith, get_or-set s.skip_register i j v zero_skip h)
  lookup-write (StateChange.skip_register i v) s h _ = refl
  lookup-write (StateChange.muskip_register i v) s h (Slot.muskip_register j) =
      ground (arith, get_or-set s.muskip_register i j v zero_muskip h)
  lookup-write (StateChange.muskip_register i v) s h _ = refl
  lookup-write (StateChange.box_register i v) s h (Slot.box_register j) =
      ground (arith, get_or-set s.box_register i j v none h)
  lookup-write (StateChange.box_register i v) s h _ = refl
  lookup-write (StateChange.toks_register i v) s h (Slot.toks_register j) =
      ground (arith, get_or-set s.toks_register i j v [] h)
  lookup-write (StateChange.toks_register i v) s h _ = refl
  lookup-write (StateChange.primitive_int i v) s h (Slot.primitive_int j) = ground arith
  lookup-write (StateChange.primitive_int i v) s h _ = refl
  lookup-write (StateChange.primitive_dim i v) s h (Slot.primitive_dim j) = ground arith
  lookup-write (StateChange.primitive_dim i v) s h _ = refl
  lookup-write (StateChange.primitive_toks i v) s h (Slot.primitive_toks j) = ground arith
  lookup-write (StateChange.primitive_toks i v) s h _ = refl
  lookup-write (StateChange.primitive_skip i v) s h (Slot.primitive_skip j) = ground arith
  lookup-write (StateChange.primitive_skip i v) s h _ = refl
  lookup-write (StateChange.primitive_muskip i v) s h (Slot.primitive_muskip j) = ground arith
  lookup-write (StateChange.primitive_muskip i v) s h _ = refl
  lookup-write (StateChange.command i v) s h (Slot.command j) =
      ground (arith, get_or-replace_command i j v s.commands)
  lookup-write (StateChange.command i v) s h _ = refl
  lookup-write (StateChange.ac_command i v) s h (Slot.ac_command j) = ground arith
  lookup-write (StateChange.ac_command i v) s h _ = refl

  pub lookup-grow :
      (c : StateChange E) (s : DefaultState E) (k : Slot) → lookup (grow c s) k ≡ lookup s k
  unfolding lookup grow
  lookup-grow (StateChange.int_register i v) s (Slot.int_register j) =
      ap Val.int (get_or-resize_for i (pos 0) s.int_register j)
  lookup-grow (StateChange.int_register i v) s _ = refl
  lookup-grow (StateChange.dim_register i v) s (Slot.dim_register j) =
      ap Val.int (get_or-resize_for i (pos 0) s.dim_register j)
  lookup-grow (StateChange.dim_register i v) s _ = refl
  lookup-grow (StateChange.skip_register i v) s (Slot.skip_register j) =
      ap Val.skip (get_or-resize_for i zero_skip s.skip_register j)
  lookup-grow (StateChange.skip_register i v) s _ = refl
  lookup-grow (StateChange.muskip_register i v) s (Slot.muskip_register j) =
      ap Val.muskip (get_or-resize_for i zero_muskip s.muskip_register j)
  lookup-grow (StateChange.muskip_register i v) s _ = refl
  lookup-grow (StateChange.box_register i v) s (Slot.box_register j) =
      ap Val.box (get_or-resize_for i none s.box_register j)
  lookup-grow (StateChange.box_register i v) s _ = refl
  lookup-grow (StateChange.toks_register i v) s (Slot.toks_register j) =
      ap Val.toks (get_or-resize_for i [] s.toks_register j)
  lookup-grow (StateChange.toks_register i v) s _ = refl
  lookup-grow _ s k = refl

  pub id_of-prior : (c : StateChange E) (s : DefaultState E) → id_of (prior c s) ≡ id_of c
  unfolding prior id_of
  id_of-prior (StateChange.catcode i v) s = refl
  id_of-prior _ s = refl

  pub value_of-prior :
      (c : StateChange E) (s : DefaultState E) → value_of (prior c s) ≡ lookup s (id_of c)
  unfolding prior id_of value_of lookup
  value_of-prior (StateChange.int_register i v) s =
      ap Val.int (get_or-resize_for i (pos 0) s.int_register i)
  value_of-prior (StateChange.dim_register i v) s =
      ap Val.int (get_or-resize_for i (pos 0) s.dim_register i)
  value_of-prior (StateChange.skip_register i v) s =
      ap Val.skip (get_or-resize_for i zero_skip s.skip_register i)
  value_of-prior (StateChange.muskip_register i v) s =
      ap Val.muskip (get_or-resize_for i zero_muskip s.muskip_register i)
  value_of-prior (StateChange.box_register i v) s =
      ap Val.box (get_or-resize_for i none s.box_register i)
  value_of-prior (StateChange.toks_register i v) s =
      ap Val.toks (get_or-resize_for i [] s.toks_register i)
  value_of-prior (StateChange.command i v) s = ap Val.command (old-replace_command i v s.commands)
  value_of-prior _ s = refl
