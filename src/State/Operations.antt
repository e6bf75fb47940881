-- ===== src/State/Operations.antt =====
-- The operations of the state beside the scopes: their results, the journal behind them, and their
-- panics.
use rus_te_x.Prelude.{
  ℕ, Bool, true, false, none, some, List, [], ◌∷◌, ◌≡◌, ◌≢◌, ◌↔◌, refl, sym, ap, ap₂, ◌∙◌, subst,
}
use rus_te_x.State.Change.{EngineTypes, GroupType, StateChange}
use rus_te_x.State.Stack
use rus_te_x.State.Stack.{
  StateChangeI, StackLevel, StateStack, add_change_globally, add_change_locally, add_to_last,
  active_changes, into, deactivate_all, last_or_default,
}
use rus_te_x.State.DefaultState.{DefaultState}
use rus_te_x.State.Assign.{is_global, push, take_parshape, aftergroup, append_to_last}
use rus_te_x.State.Pop.{pop}
use rus_te_x.State.View.{lookup}
use rus_te_x.State.Write.{
  InRange, Legal, write, grow, prior, assigned, assign-Legal, Legal-dec, assign-not-Legal,
}
use rus_te_x.State.Bounds.{InRange-grow, InRange-grow_other, InRange-write, InRange-prior}
use rus_te_x.State.Environment.{outers}
use rus_te_x.State.Scopes.{Op, set, begin, end, take_shape, after, exec, scoped, scopes_of}
use rus_te_x.State.Invariant.{
  ChangesFit, LevelsFit, AllEmpty, IsWellFormed, Keeps, LevelsFit-Keeps, LevelsFit-deactivate_all,
  LevelsFit-add_to_last,
}
use rus_te_x.State.Stack.{without_last, push as push_level}
use rus_te_x.State.Refinement.{
  record_change, assigned_lem, written, written-stack, assigned-scoped, take_parshape-scoped,
  scopes, last_or_default-empty,
}
use rus_te_x.State.Groups.{push-scoped, aftergroup-scoped, InRange-stack, pop-Ended_level}

module _ {E : EngineTypes} where
  -- when an operation panics
  abbrev pub Panics : Op E → DefaultState E → Type 0
  Panics (set c g) s = ¬ (Legal c)
  Panics end s = s.stack.stack ≡ []
  Panics _ s = ⊥

  moved :
      (t : DefaultState E) (u : StateStack E)
      → LevelsFit t u.stack
      → AllEmpty u.vecs
      → IsWellFormed (record t { stack = u })
  moved t u f p = record { fits = LevelsFit-Keeps u.stack (InRange-stack t u) f; pool = p }

  record_change-IsWellFormed :
      (global : Bool) (d : StateChange E) (s t : DefaultState E)
      → Keeps s t
      → t.stack ≡ s.stack
      → InRange d t
      → IsWellFormed s
      → IsWellFormed (record_change global d t)
  unfolding add_change_globally add_change_locally
  record_change-IsWellFormed global d s t k e r w =
      let fit : LevelsFit t t.stack.stack =
        subst (λ (x : StateStack E). LevelsFit t x.stack) (sym e)
          (LevelsFit-Keeps s.stack.stack k w.fits) in
      let empty : AllEmpty t.stack.vecs =
        subst (λ (x : StateStack E). AllEmpty x.vecs) (sym e) w.pool in
      elim global as (λ b. IsWellFormed (record_change b d t)) [
        | true ↦ moved t _ (LevelsFit-deactivate_all t (into d) t.stack.stack fit) empty
        | false ↦ moved t _ (LevelsFit-add_to_last t d t.stack.stack r fit) empty
      ]

  assigned-IsWellFormed :
      (c : StateChange E) (g : Bool) (s : DefaultState E)
      → Legal c
      → IsWellFormed s
      → IsWellFormed (assigned c g s)
  unfolding written
  assigned-IsWellFormed c g s l w = rw assigned_lem (
      record_change-IsWellFormed (is_global g s) (prior c s) s (written c s)
        (λ d h. InRange-write c d (grow c s) (InRange-grow_other c d s h)) (written-stack c s)
        (InRange-prior c s (written c s) (InRange-write c c (grow c s) (InRange-grow c s l))) w)

  -- what a successful operation has done
  record Done (op : Op E) (s : DefaultState E) : Type 0 where
    state : DefaultState E
    tokens : List ℕ
    returns : exec op s ≡ some (state, tokens)
    scopes_are : scopes_of state ≡ scoped op (scopes_of s)
    well : IsWellFormed state

  set-Done :
      (c : StateChange E) (g : Bool) (s : DefaultState E)
      → Legal c
      → IsWellFormed s
      → Done (set c g) s
  unfolding exec
  set-Done c g s l w = record {
    state = assigned c g s;
    tokens = [];
    returns = rw (assign-Legal c g s l) refl;
    scopes_are = assigned-scoped c g s l;
    well = assigned-IsWellFormed c g s l w;
  }

  last-or-empty : (vs : List (List (StateChangeI E))) → AllEmpty vs → AllEmpty (without_last vs)
  last-or-empty [] h = tt
  last-or-empty (v ∷ vs) h = h.1

  push-Done : (gt : GroupType) (s : DefaultState E) → IsWellFormed s → Done (begin gt) s
  unfolding exec push push_level
  push-Done gt s w = record {
    state = push gt s;
    tokens = [];
    returns = refl;
    scopes_are = push-scoped gt s w;
    well =
        moved s _
          (subst (ChangesFit s) (sym (last_or_default-empty s.stack.vecs w.pool)) tt, w.fits)
          (last-or-empty s.stack.vecs w.pool);
  }

  LevelsFit-append_to_last :
      (t : ℕ) (s : DefaultState E) (ls : List (StackLevel E))
      → LevelsFit s ls
      → LevelsFit s (append_to_last t ls)
  unfolding append_to_last
  LevelsFit-append_to_last t s [] h = tt
  LevelsFit-append_to_last t s (lvl ∷ ls) h = h

  end-Done : (s : DefaultState E) → s.stack.stack ≢ [] → IsWellFormed s → Done end s
  unfolding exec pop Stack.pop scoped outers
  end-Done s ne w = go s.stack.stack refl
    where
      go : (ls : List (StackLevel E)) → s.stack.stack ≡ ls → Done end s
      go [] e = absurd (ne e)
      go (lvl ∷ rest) e =
          let f : LevelsFit s (lvl ∷ rest) = subst (LevelsFit s) e w.fits in
          let (s', r, d) = pop-Ended_level lvl rest s f.0 in
          record {
            state = s';
            tokens = lvl.aftergroup;
            returns = rw e r;
            scopes_are =
                ap₂ scopes d.reads
                  (ap₂ outers (ap (λ (x : StateStack E). x.stack) d.stack_is) d.reads)
                ∙ ap
                    (λ (ls : List (StackLevel E)).
                      scoped end (scopes (lookup s) (outers ls (lookup s))))
                    (sym e);
            well = record {
              fits =
                  subst (λ (x : StateStack E). LevelsFit s' x.stack) (sym d.stack_is)
                    (LevelsFit-Keeps rest d.keeps f.1);
              pool = subst (λ (x : StateStack E). AllEmpty x.vecs) (sym d.stack_is) (refl, w.pool);
            };
          }

  exec-Done : (op : Op E) (s : DefaultState E) → IsWellFormed s → ¬ (Panics op s) → Done op s
  unfolding exec aftergroup take_parshape write scoped
  exec-Done (set c g) s w n = elim (Legal-dec c) [
    | yes l ↦ set-Done c g s l w
    | no l ↦ absurd (n l)
  ]
  exec-Done (begin gt) s w n = push-Done gt s w
  exec-Done end s w n = end-Done s n w
  exec-Done take_shape s w n = record {
    state = (take_parshape s).0;
    tokens = [];
    returns = refl;
    scopes_are = take_parshape-scoped s;
    well =
        record_change-IsWellFormed false (StateChange.par_shape s.parshape) s
          (record s { parshape = [] }) (λ d h. InRange-write (StateChange.par_shape []) d s h) refl
          tt w;
  }
  exec-Done (after t) s w n = record {
    state = aftergroup t s;
    tokens = [];
    returns = refl;
    scopes_are = aftergroup-scoped t s;
    well = moved s _ (LevelsFit-append_to_last t s s.stack.stack w.fits) w.pool;
  }

  exec-Panics : (op : Op E) (s : DefaultState E) → Panics op s → exec op s ≡ none
  unfolding exec pop Stack.pop
  exec-Panics (set c g) s h = rw (assign-not-Legal c g s h) refl
  exec-Panics end s h = rw h refl
  exec-Panics (begin gt) s h = absurd h
  exec-Panics take_shape s h = absurd h
  exec-Panics (after t) s h = absurd h

  Panics-dec : (op : Op E) (s : DefaultState E) → Dec (Panics op s)
  Panics-dec (set c g) s = elim (Legal-dec c) [ yes l ↦ no (λ n. n l) | no l ↦ yes l ]
  Panics-dec end s = go s.stack.stack
    where
      go : (ls : List (StackLevel E)) → Dec (ls ≡ [])
      go [] = yes refl
      go (lvl ∷ rest) = no (λ e. cc)
  Panics-dec _ s = no (λ x. x)

  -- From a usable journal, an operation panics exactly if it ends a group where none is open or
  -- assigns a math font of a family above 15; no index is out of range when a group is undone.
  pub exec-eq-none :
      (op : Op E) (s : DefaultState E) → IsWellFormed s → (exec op s ≡ none) ↔ Panics op s
  exec-eq-none op s w = (
    λ e. elim (Panics-dec op s) [ yes p ↦ p | no n ↦ cc (e, (exec-Done op s w n).returns) ],
    exec-Panics op s,
  )

  successful :
      (op : Op E) (s : DefaultState E) {s' : DefaultState E} {ts : List ℕ}
      → IsWellFormed s
      → exec op s ≡ some (s', ts)
      → (d : Done op s) × (d.state ≡ s')
  successful op s w e = elim (Panics-dec op s) [
    | yes p ↦ cc (e, exec-Panics op s p)
    | no n ↦ let d = exec-Done op s w n in (d, cc (e, d.returns))
  ]

  -- From a usable journal, every operation that returns (assignment, group begin and end,
  -- \parshape taken, \aftergroup) does to the readable values of all open groups what it does to a
  -- stack of environments without a journal, and leaves a usable journal.
  pub exec-scoped :
      (op : Op E) (s : DefaultState E) {s' : DefaultState E} {ts : List ℕ}
      → IsWellFormed s
      → exec op s ≡ some (s', ts)
      → (scopes_of s' ≡ scoped op (scopes_of s)) × IsWellFormed s'
  exec-scoped op s w e =
      let (d, p) = successful op s w e in
      (
        subst (λ (x : DefaultState E). scopes_of x ≡ scoped op (scopes_of s)) p d.scopes_are,
        subst IsWellFormed p d.well,
      )
