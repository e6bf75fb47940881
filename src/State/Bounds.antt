-- ===== src/State/Bounds.antt =====
-- Indices in range, before and after a write and the growth of registers.
use rus_te_x.Prelude.{none, [], arith, length-set}
use rus_te_x.Tex.Numbers.{pos, zero_skip, zero_muskip}
use rus_te_x.State.Change.{EngineTypes, StateChange}
use rus_te_x.State.Registers.{length-resize_for, length-le-resize_for}
use rus_te_x.State.DefaultState.{DefaultState}
use rus_te_x.State.Write.{InRange, Legal, write, grow, prior}

module _ {E : EngineTypes} where
  pub InRange-grow : (c : StateChange E) (s : DefaultState E) → Legal c → InRange c (grow c s)
  unfolding grow
  InRange-grow (StateChange.int_register i v) s h = length-resize_for i (pos 0) s.int_register
  InRange-grow (StateChange.dim_register i v) s h = length-resize_for i (pos 0) s.dim_register
  InRange-grow (StateChange.skip_register i v) s h = length-resize_for i zero_skip s.skip_register
  InRange-grow (StateChange.muskip_register i v) s h =
      length-resize_for i zero_muskip s.muskip_register
  InRange-grow (StateChange.box_register i v) s h = length-resize_for i none s.box_register
  InRange-grow (StateChange.toks_register i v) s h = length-resize_for i [] s.toks_register
  InRange-grow (StateChange.text_font i v) s h = h
  InRange-grow (StateChange.script_font i v) s h = h
  InRange-grow (StateChange.script_script_font i v) s h = h
  InRange-grow _ s h = tt

  pub InRange-grow_other :
      (c d : StateChange E) (s : DefaultState E) → InRange d s → InRange d (grow c s)
  unfolding grow
  InRange-grow_other (StateChange.int_register i v) (StateChange.int_register j x) s h =
      omega (arith, length-le-resize_for i (pos 0) s.int_register)
  InRange-grow_other (StateChange.int_register i v) _ s h = h
  InRange-grow_other (StateChange.dim_register i v) (StateChange.dim_register j x) s h =
      omega (arith, length-le-resize_for i (pos 0) s.dim_register)
  InRange-grow_other (StateChange.dim_register i v) _ s h = h
  InRange-grow_other (StateChange.skip_register i v) (StateChange.skip_register j x) s h =
      omega (arith, length-le-resize_for i zero_skip s.skip_register)
  InRange-grow_other (StateChange.skip_register i v) _ s h = h
  InRange-grow_other (StateChange.muskip_register i v) (StateChange.muskip_register j x) s h =
      omega (arith, length-le-resize_for i zero_muskip s.muskip_register)
  InRange-grow_other (StateChange.muskip_register i v) _ s h = h
  InRange-grow_other (StateChange.box_register i v) (StateChange.box_register j x) s h =
      omega (arith, length-le-resize_for i none s.box_register)
  InRange-grow_other (StateChange.box_register i v) _ s h = h
  InRange-grow_other (StateChange.toks_register i v) (StateChange.toks_register j x) s h =
      omega (arith, length-le-resize_for i [] s.toks_register)
  InRange-grow_other (StateChange.toks_register i v) _ s h = h
  InRange-grow_other _ d s h = h

  pub InRange-write :
      (c d : StateChange E) (s : DefaultState E) → InRange d s → InRange d (write c s)
  unfolding write
  InRange-write (StateChange.int_register i v) (StateChange.int_register j x) s h =
      omega (arith, length-set s.int_register i v)
  InRange-write (StateChange.int_register i v) _ s h = h
  InRange-write (StateChange.dim_register i v) (StateChange.dim_register j x) s h =
      omega (arith, length-set s.dim_register i v)
  InRange-write (StateChange.dim_register i v) _ s h = h
  InRange-write (StateChange.skip_register i v) (StateChange.skip_register j x) s h =
      omega (arith, length-set s.skip_register i v)
  InRange-write (StateChange.skip_register i v) _ s h = h
  InRange-write (StateChange.muskip_register i v) (StateChange.muskip_register j x) s h =
      omega (arith, length-set s.muskip_register i v)
  InRange-write (StateChange.muskip_register i v) _ s h = h
  InRange-write (StateChange.box_register i v) (StateChange.box_register j x) s h =
      omega (arith, length-set s.box_register i v)
  InRange-write (StateChange.box_register i v) _ s h = h
  InRange-write (StateChange.toks_register i v) (StateChange.toks_register j x) s h =
      omega (arith, length-set s.toks_register i v)
  InRange-write (StateChange.toks_register i v) _ s h = h
  InRange-write _ (StateChange.int_register j x) s h = h
  InRange-write _ _ s h = h

  pub InRange-prior :
      (c : StateChange E) (s t : DefaultState E) → InRange c t → InRange (prior c s) t
  unfolding prior
  InRange-prior (StateChange.int_register i v) s t h = h
  InRange-prior (StateChange.dim_register i v) s t h = h
  InRange-prior (StateChange.skip_register i v) s t h = h
  InRange-prior (StateChange.muskip_register i v) s t h = h
  InRange-prior (StateChange.box_register i v) s t h = h
  InRange-prior (StateChange.toks_register i v) s t h = h
  InRange-prior (StateChange.text_font i v) s t h = h
  InRange-prior (StateChange.script_font i v) s t h = h
  InRange-prior (StateChange.script_script_font i v) s t h = h
  InRange-prior _ s t h = tt
