-- ===== src/State/Groups.antt =====
-- The ends and the beginnings of groups: a journal level, and how it is written back.
use rus_te_x.Prelude.{
  ℕ, some, List, [], ◌∷◌, ◌≡◌, refl, ap, ap₂, ◌∙◌, fun_ext, inl, inr, Bool-cases,
}
use rus_te_x.State.Change.{EngineTypes, GroupType, StateChange}
use rus_te_x.State.Stack
use rus_te_x.State.Stack.{
  StateChangeI, StackLevel, StateStack, add_change_globally, add_change_locally, add_to_last,
  active_changes, into, deactivate_all, last_or_default,
}
use rus_te_x.State.DefaultState.{DefaultState}
use rus_te_x.State.Assign.{push, aftergroup, append_to_last}
use rus_te_x.State.Pop.{restore_all}
use rus_te_x.State.View.{lookup}
use rus_te_x.State.Write.{InRange, write, restore-write, stack-write}
use rus_te_x.State.Places.{lookup-write}
use rus_te_x.State.Bounds.{InRange-write}
use rus_te_x.State.Environment.{Env, undo, outers}
use rus_te_x.State.Scopes.{begin, scoped, scopes_of}
use rus_te_x.State.Invariant.{ChangesFit, IsWellFormed, Keeps, ChangesFit-Keeps}
use rus_te_x.State.Stack.{recycle}
use rus_te_x.State.Pop.{end_group}
use rus_te_x.State.Refinement.{last_or_default-empty, lookup_env, scopes}

module _ {E : EngineTypes} where
  pub push-scoped :
      (gt : GroupType) (s : DefaultState E)
      → IsWellFormed s
      → scopes_of (push gt s) ≡ scoped (begin gt) (scopes_of s)
  unfolding scoped push Stack.push outers undo
  push-scoped gt s w =
      let env = lookup_env s (Stack.push gt s.stack) in
      ap₂ scopes env (
        ap₂ (λ cs e. undo cs e ∷ outers s.stack.stack (undo cs e))
          (last_or_default-empty s.stack.vecs w.pool) env)

  outers-append_to_last :
      (t : ℕ) (ls : List (StackLevel E)) (env : Env E)
      → outers (append_to_last t ls) env ≡ outers ls env
  unfolding outers append_to_last
  outers-append_to_last t [] env = refl
  outers-append_to_last t (lvl ∷ ls) env = refl

  pub aftergroup-scoped : (t : ℕ) (s : DefaultState E) → scopes_of (aftergroup t s) ≡ scopes_of s
  unfolding aftergroup
  aftergroup-scoped t s =
      let env = lookup_env s (record s.stack { stack = append_to_last t s.stack.stack }) in
      ap₂ scopes env (
        ap (outers (append_to_last t s.stack.stack)) env
        ∙ outers-append_to_last t s.stack.stack (lookup s))

  -- What is in range does not depend on the journal.
  pub InRange-stack :
      (s : DefaultState E) (t : StateStack E) (d : StateChange E)
      → InRange d s
      → InRange d (record s { stack = t })
  InRange-stack s t (StateChange.int_register i v) h = h
  InRange-stack s t _ h = h

  -- what writing back the changes of a level does
  record Restored (cs : List (StateChangeI E)) (s s' : DefaultState E) : Type 0 where
    reads : lookup s' ≡ undo cs (lookup s)
    keeps : Keeps s s'
    same_stack : s'.stack ≡ s.stack

  restore_all-undo :
      (cs : List (StateChangeI E)) (s : DefaultState E)
      → ChangesFit s cs
      → (s' : DefaultState E) × (restore_all (active_changes cs) s ≡ some s') × Restored cs s s'
  unfolding restore_all active_changes undo
  restore_all-undo [] s h = (s, refl, record { reads = refl; keeps = λ d x. x; same_stack = refl })
  restore_all-undo (c ∷ cs) s h = elim (Bool-cases c.active) [
    | inl e ↦
        let t = write c.ch s in
        let (s', r, done) =
          restore_all-undo cs t (ChangesFit-Keeps cs (λ d. InRange-write c.ch d s) h.1) in
        (
          s',
          rw (e, restore-write c.ch s h.0) r,
          record {
            reads = rw e (done.reads ∙ ap (undo cs) (fun_ext (lookup-write c.ch s h.0)));
            keeps = λ d x. done.keeps d (InRange-write c.ch d s x);
            same_stack = done.same_stack ∙ stack-write c.ch s;
          },
        )
    | inr e ↦ rw e (
        let (s', r, done) = restore_all-undo cs s h.1 in
        (s', r, record { reads = done.reads; keeps = done.keeps; same_stack = done.same_stack }))
  ]

  -- what the end of the group `lvl` makes of `s`
  pub record Ended (lvl : StackLevel E) (rest : List (StackLevel E)) (s s' : DefaultState E)
      : Type 0 where
    pub reads : lookup s' ≡ undo lvl.changes (lookup s)
    pub stack_is : s'.stack ≡ record { stack = rest; vecs = [] ∷ s.stack.vecs }
    pub keeps : Keeps s s'

  pub pop-Ended_level :
      (lvl : StackLevel E) (rest : List (StackLevel E)) (s : DefaultState E)
      → ChangesFit s lvl.changes
      → (s' : DefaultState E) × (end_group (some (lvl, record s.stack { stack = rest })) s
          ≡ some (s', lvl.aftergroup))
        × Ended lvl rest s s'
  unfolding end_group recycle
  pop-Ended_level lvl rest s h =
      let t = record s { stack = record s.stack { stack = rest } } in
      let (s', r, done) =
        restore_all-undo lvl.changes t
          (ChangesFit-Keeps lvl.changes (λ d. InRange-stack s t.stack d) h) in
      (
        record s' { stack = recycle s'.stack },
        rw r refl,
        record {
          reads =
              lookup_env s' (recycle s'.stack)
              ∙ done.reads
              ∙ ap (undo lvl.changes) (lookup_env s t.stack);
          stack_is = ap recycle done.same_stack;
          keeps = λ d x.
              InRange-stack s' (recycle s'.stack) d (done.keeps d (InRange-stack s t.stack d x));
        },
      )
