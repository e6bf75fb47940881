-- ===== src/State/Stack.antt =====
-- engine/state.rs: `StateStack`, the journal of changes by which a group is undone.
-- A `Vec` used as a stack is a list with its last element in front; the changes of a level stand in
-- the order in which they were pushed.
use rus_te_x.Prelude.{
  ℕ, Bool, true, false, not, ◌&&◌, Option, none, some, List, [], ◌∷◌, ◌++◌, if◌then◌else◌,
}
use rus_te_x.State.Change.{EngineTypes, GroupType, StateChange, id_of, same}

pub record StateChangeI (E : EngineTypes) : Type 0 where
  pub active : Bool
  pub ch : StateChange E

pub record StackLevel (E : EngineTypes) : Type 0 where
  pub group_type : GroupType
  pub aftergroup : List ℕ
  pub changes : List (StateChangeI E)

pub record StateStack (E : EngineTypes) : Type 0 where
  pub stack : List (StackLevel E)
  -- emptied vectors that are kept for reuse
  pub vecs : List (List (StateChangeI E))

abbrev pub empty_stack : (E : EngineTypes) → StateStack E
empty_stack E = record { stack = []; vecs = [] }

module _ {E : EngineTypes} where
  -- `From<StateChange>`
  abbrev pub into : StateChange E → StateChangeI E
  into c = record { active = true; ch = c }

  -- The `id` of a change is computed from it where it is compared, and not stored beside it.
  unfoldable pub equiv : StateChangeI E → StateChangeI E → Bool
  equiv a b = a.active && same (id_of a.ch) (id_of b.ch)

  -- `self.vecs.pop().unwrap_or_default()`, and what is left of `vecs`
  abbrev pub last_or_default : List (List (StateChangeI E)) → List (StateChangeI E)
  last_or_default [] = []
  last_or_default (v ∷ vs) = v

  abbrev pub without_last : List (List (StateChangeI E)) → List (List (StateChangeI E))
  without_last [] = []
  without_last (v ∷ vs) = vs

  unfoldable pub push : GroupType → StateStack E → StateStack E
  push group_type s =
      let lvl : StackLevel E = record {
        group_type = group_type;
        aftergroup = [];
        changes = last_or_default s.vecs;
      } in
      record { stack = lvl ∷ s.stack; vecs = without_last s.vecs }

  -- `None` under the `unwrap` is a panic.
  pop_level : List (StackLevel E) → StateStack E → Option (StackLevel E × StateStack E)
  pop_level [] s = none
  pop_level (lvl ∷ rest) s = some (lvl, record s { stack = rest })

  unfoldable pub pop : StateStack E → Option (StackLevel E × StateStack E)
  unfolding pop_level
  pop s = pop_level s.stack s

  -- the loop over `changes` in `add_change_globally`
  unfoldable pub deactivate : StateChangeI E → List (StateChangeI E) → List (StateChangeI E)
  unfolding equiv
  deactivate change [] = []
  deactivate change (c ∷ cs) =
      (if equiv c change then record c { active = false } else c) ∷ deactivate change cs

  -- the loop over the levels
  unfoldable pub deactivate_all : StateChangeI E → List (StackLevel E) → List (StackLevel E)
  unfolding deactivate
  deactivate_all change [] = []
  deactivate_all change (lvl ∷ ls) =
      record lvl { changes = deactivate change lvl.changes } ∷ deactivate_all change ls

  unfoldable pub add_change_globally : StateChange E → StateStack E → StateStack E
  unfolding deactivate_all
  add_change_globally change s = record s { stack = deactivate_all (into change) s.stack }

  -- `iter().all(|c| !c.equiv(&change))`
  unfoldable pub all_differ : StateChangeI E → List (StateChangeI E) → Bool
  unfolding equiv
  all_differ change [] = true
  all_differ change (c ∷ cs) = not (equiv c change) && all_differ change cs

  -- what `add_change_locally` does to the levels
  unfoldable pub add_to_last : StateChange E → List (StackLevel E) → List (StackLevel E)
  unfolding all_differ
  add_to_last change [] = []
  add_to_last change (lvl ∷ rest) =
      (if all_differ (into change) lvl.changes
        then record lvl { changes = lvl.changes ++ into change ∷ [] }
        else lvl)
      ∷ rest

  unfoldable pub add_change_locally : StateChange E → StateStack E → StateStack E
  unfolding add_to_last
  add_change_locally change s = record s { stack = add_to_last change s.stack }

  -- `ChangeIter::close`: the changes that it hands to the closure, in order, and the stack behind it.
  unfoldable pub active_changes : List (StateChangeI E) → List (StateChange E)
  active_changes [] = []
  active_changes (c ∷ cs) = if c.active then c.ch ∷ active_changes cs else active_changes cs

  unfoldable pub recycle : StateStack E → StateStack E
  recycle s = record s { vecs = [] ∷ s.vecs }
