-- ===== src/State/Scopes.antt =====
-- The operations of the state, and the scopes that they implement: one environment for the current
-- group and one for each group around it, with no journal.
use rus_te_x.Prelude.{ℕ, Bool, false, Option, some, List, [], ◌∷◌, map, if◌then◌else◌, ◌>>=◌}
use rus_te_x.Tex.Numbers.{is_zero, is_positive}
use rus_te_x.State.Change.{EngineTypes, GroupType, Slot, StateChange, id_of}
use rus_te_x.State.DefaultState.{DefaultState}
use rus_te_x.State.Assign.{push, take_parshape, aftergroup}
use rus_te_x.State.Pop.{pop}
use rus_te_x.State.View.{Val, lookup, value_of}
use rus_te_x.State.Write.{assign}
use rus_te_x.State.Environment.{Env, put, outers}

-- `set c globally` assigns the value in `c` to the place of `c`.
pub data Op (E : EngineTypes) : Type 0 where
  set : StateChange E → Bool → Op E
  begin : GroupType → Op E
  end : Op E
  take_shape : Op E
  after : ℕ → Op E

pub record Scopes (E : EngineTypes) : Type 0 where
  pub current : Env E
  pub outer : List (Env E)

module _ {E : EngineTypes} where
  -- the new state and the tokens given to the mouth; `none` is a panic
  unfoldable pub exec : Op E → DefaultState E → Option (DefaultState E × List ℕ)
  unfolding assign push pop take_parshape aftergroup
  exec (set c globally) s = do s' ← assign c globally s; some (s', [])
  exec (begin group_type) s = some (push group_type s, [])
  exec end s = pop s
  exec take_shape s = some ((take_parshape s).0, [])
  exec (after token) s = some (aftergroup token s, [])

  -- operations in a row; what the mouth is given in between does not come back to the state
  unfoldable pub run : List (Op E) → DefaultState E → Option (DefaultState E)
  unfolding exec
  run [] s = some s
  run (op ∷ ops) s = do r ← exec op s; run ops r.0

  -- the prefix `\global`, overruled by `\globaldefs`
  abbrev pub counts_global : Val E → Bool → Bool
  counts_global (Val.int z) globally = if is_zero z then globally else is_positive z
  counts_global _ globally = globally

  abbrev pub scoped_put : Bool → Slot → Val E → Scopes E → Scopes E
  scoped_put global k v m = record {
    current = put k v m.current;
    outer = if global then map (put k v) m.outer else m.outer;
  }

  unfoldable pub leave : List (Env E) → Scopes E → Scopes E
  leave [] m = m
  leave (env ∷ envs) m = record { current = env; outer = envs }

  unfoldable pub scoped : Op E → Scopes E → Scopes E
  unfolding leave
  scoped (set c globally) m =
      scoped_put (counts_global (m.current (Slot.primitive_int E.globaldefs)) globally) (id_of c)
        (value_of c) m
  scoped (begin group_type) m = record { current = m.current; outer = m.current ∷ m.outer }
  scoped end m = leave m.outer m
  scoped take_shape m = scoped_put false Slot.par_shape (Val.shape []) m
  scoped (after token) m = m

  unfoldable pub scoped_run : List (Op E) → Scopes E → Scopes E
  unfolding scoped
  scoped_run [] m = m
  scoped_run (op ∷ ops) m = scoped_run ops (scoped op m)

  abbrev pub scopes_of : DefaultState E → Scopes E
  scopes_of s = record { current = lookup s; outer = outers s.stack.stack (lookup s) }
