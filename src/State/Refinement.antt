-- ===== src/State/Refinement.antt =====
-- Assignments to the state with its journal, beside assignments in the scopes.
use rus_te_x.Prelude.{
  Bool, true, false, List, [], ◌∷◌, map, ◌≡◌, refl, ap, ap₂, ◌∙◌, fun_ext, if◌then◌else◌,
}
use rus_te_x.State.Change.{EngineTypes, Slot, StateChange, id_of}
use rus_te_x.State.Stack.{
  StateChangeI, StackLevel, StateStack, add_change_globally, add_change_locally, add_to_last, into,
  deactivate_all, last_or_default,
}
use rus_te_x.State.DefaultState.{DefaultState}
use rus_te_x.State.Assign.{is_global, take_parshape}
use rus_te_x.State.View.{lookup, lookup_stack, value_of}
use rus_te_x.State.Write.{Legal, write, grow, prior, assigned, stack-write, stack-grow}
use rus_te_x.State.Places.{lookup-write, lookup-grow, id_of-prior, value_of-prior}
use rus_te_x.State.Bounds.{InRange-grow}
use rus_te_x.State.Environment.{Env, put, outers, outers-add_to_last, outers-deactivate_all}
use rus_te_x.State.Scopes.{set, take_shape, Scopes, counts_global, scoped_put, scoped, scopes_of}
use rus_te_x.State.Invariant.{AllEmpty}

module _ {E : EngineTypes} where
  is_global-counts_global :
      (g : Bool) (s : DefaultState E)
      → is_global g s ≡ counts_global (lookup s (Slot.primitive_int E.globaldefs)) g
  unfolding is_global lookup
  is_global-counts_global g s = refl

  unfoldable pub written : (c : StateChange E) (s : DefaultState E) → DefaultState E
  written c s = write c (grow c s)

  pub lookup-written :
      (c : StateChange E) (s : DefaultState E)
      → Legal c
      → lookup (written c s) ≡ put (id_of c) (value_of c) (lookup s)
  unfolding written
  lookup-written c s l =
      fun_ext λ k. lookup-write c (grow c s) (InRange-grow c s l) k ∙ rw (lookup-grow c s k) refl

  pub written-stack : (c : StateChange E) (s : DefaultState E) → (written c s).stack ≡ s.stack
  unfolding written
  written-stack c s = stack-write c (grow c s) ∙ stack-grow c s

  pub last_or_default-empty :
      (vs : List (List (StateChangeI E))) → AllEmpty vs → last_or_default vs ≡ []
  last_or_default-empty [] h = refl
  last_or_default-empty (v ∷ vs) h = h.0

  pub lookup_env :
      (s : DefaultState E) (t : StateStack E) → lookup (record s { stack = t }) ≡ lookup s
  lookup_env s t = fun_ext (lookup_stack s t)

  outers_local :
      (c d : StateChange E) (ls : List (StackLevel E)) (env : Env E)
      → id_of d ≡ id_of c
      → value_of d ≡ env (id_of c)
      → outers (add_to_last d ls) (put (id_of c) (value_of c) env) ≡ outers ls env
  outers_local c d ls env i v = rw (← i) (outers-add_to_last d (value_of c) ls env (rw i v))

  outers_global :
      (c d : StateChange E) (ls : List (StackLevel E)) (env : Env E)
      → id_of d ≡ id_of c
      → outers (deactivate_all (into d) ls) (put (id_of c) (value_of c) env)
        ≡ map (put (id_of c) (value_of c)) (outers ls env)
  outers_global c d ls env i = rw (← i) (outers-deactivate_all d (value_of c) ls env)

  -- the end of `change_field`
  abbrev pub record_change : Bool → StateChange E → DefaultState E → DefaultState E
  record_change global d t = record t {
    stack = if global then add_change_globally d t.stack else add_change_locally d t.stack;
  }

  pub assigned_lem :
      (c : StateChange E) (g : Bool) (s : DefaultState E)
      → assigned c g s ≡ record_change (is_global g s) (prior c s) (written c s)
  unfolding assigned written
  assigned_lem c g s = refl

  abbrev pub scopes : Env E → List (Env E) → Scopes E
  scopes current outer = record { current = current; outer = outer }

  -- The journal is told of a change of place `c` when the state `t` has been written.
  module _ (c d : StateChange E) (s t : DefaultState E)
      (seen : lookup t ≡ put (id_of c) (value_of c) (lookup s)) (same_stack : t.stack ≡ s.stack)
      (place : id_of d ≡ id_of c) (old : value_of d ≡ lookup s (id_of c)) where
    record_change-scoped_put :
        (global : Bool)
        → scopes_of (record_change global d t)
          ≡ scoped_put global (id_of c) (value_of c) (scopes_of s)
    unfolding add_change_globally add_change_locally
    record_change-scoped_put true =
        let env = lookup_env t (add_change_globally d t.stack) ∙ seen in
        ap₂ scopes env (
          ap₂ outers (ap (λ (x : StateStack E). deactivate_all (into d) x.stack) same_stack) env
          ∙ outers_global c d s.stack.stack (lookup s) place)
    record_change-scoped_put false =
        let env = lookup_env t (add_change_locally d t.stack) ∙ seen in
        ap₂ scopes env (
          ap₂ outers (ap (λ (x : StateStack E). add_to_last d x.stack) same_stack) env
          ∙ outers_local c d s.stack.stack (lookup s) place old)

  pub assigned-scoped :
      (c : StateChange E) (g : Bool) (s : DefaultState E)
      → Legal c
      → scopes_of (assigned c g s) ≡ scoped (set c g) (scopes_of s)
  unfolding scoped
  assigned-scoped c g s l =
      ap scopes_of (assigned_lem c g s)
      ∙ record_change-scoped_put c (prior c s) s (written c s) (lookup-written c s l)
          (written-stack c s) (id_of-prior c s) (value_of-prior c s) (is_global g s)
      ∙ rw (is_global-counts_global g s) refl

  pub take_parshape-scoped :
      (s : DefaultState E) → scopes_of (take_parshape s).0 ≡ scoped take_shape (scopes_of s)
  unfolding scoped take_parshape id_of value_of lookup write
  take_parshape-scoped s =
      record_change-scoped_put (StateChange.par_shape []) (StateChange.par_shape s.parshape) s
        (record s { parshape = [] }) (fun_ext λ k. lookup-write (StateChange.par_shape []) s tt k)
        refl refl refl false
