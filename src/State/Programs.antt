-- ===== src/State/Programs.antt =====
-- Sequences of operations: whole groups, and assignments that outlive them.
use rus_te_x.Prelude.{
  ℕ, false, some, List, [], ◌∷◌, ◌++◌, ◌≡◌, ◌≢◌, refl, sym, ap, ◌∙◌, subst, inl, inr, ◌>>=◌,
  Option-cases,
}
use rus_te_x.State.Change.{EngineTypes, GroupType, Slot, StateChange, id_of, same}
use rus_te_x.State.Stack.{StackLevel}
use rus_te_x.State.DefaultState.{DefaultState}
use rus_te_x.State.View.{lookup}
use rus_te_x.State.Write.{Legal}
use rus_te_x.State.Environment.{Env, outers}
use rus_te_x.State.Scopes.{
  Op, set, begin, end, take_shape, after, Scopes, exec, run, counts_global, scoped, leave,
  scoped_run, scopes_of,
}
use rus_te_x.State.Invariant.{IsWellFormed}
use rus_te_x.State.Operations.{exec-scoped, exec-eq-none, Panics}

abbrev pub globaldefs : EngineTypes → Slot
globaldefs E = Slot.primitive_int E.globaldefs

module _ {E : EngineTypes} where
  pub run-append :
      (xs ys : List (Op E)) (s : DefaultState E) → run (xs ++ ys) s ≡ (run xs s >>= run ys)
  unfolding run
  run-append [] ys s = refl
  run-append (x ∷ xs) ys s = elim (Option-cases (exec x s)) [
    | inl e ↦ rw e refl
    | inr (r, e) ↦ rw e (run-append xs ys r.0)
  ]

  -- From a usable journal, a run that does not panic does what the same operations do to the scopes,
  -- and leaves a usable journal.
  pub run-scoped :
      (ops : List (Op E)) (s : DefaultState E) {s' : DefaultState E}
      → IsWellFormed s
      → run ops s ≡ some s'
      → (scopes_of s' ≡ scoped_run ops (scopes_of s)) × IsWellFormed s'
  unfolding run scoped_run
  run-scoped [] s w e = (cc, subst IsWellFormed (cc) w)
  run-scoped (op ∷ ops) s w e = elim (Option-cases (exec op s)) [
    | inl f ↦ cc (rw f at e)
    | inr ((t, ts), f) ↦
        let (p, w') = exec-scoped op s w f in
        let (q, w'') = run-scoped ops t w' (rw f at e) in (q ∙ ap (scoped_run ops) p, w'')
  ]

  -- Programs whose groups are closed and whose assignments are local and legal, and leave
  -- `\globaldefs` alone.
  pub data Quiet : List (Op E) → Type 0 where
    nothing : Quiet []
    local :
        {c : StateChange E} {ops : List (Op E)}
        → Legal c
        → same (id_of c) (globaldefs E) ≡ false
        → Quiet ops
        → Quiet (set c false ∷ ops)
    shape : {ops : List (Op E)} → Quiet ops → Quiet (take_shape ∷ ops)
    aside : {t : ℕ} {ops : List (Op E)} → Quiet ops → Quiet (after t ∷ ops)
    group :
        {gt : GroupType} {inner rest ops : List (Op E)}
        → Quiet inner
        → Quiet rest
        → ops ≡ begin gt ∷ (inner ++ end ∷ rest)
        → Quiet ops

  -- `\globaldefs` does not make a local assignment global.
  abbrev pub NotGlobal : Scopes E → Type 0
  NotGlobal m = counts_global (m.current (globaldefs E)) false ≡ false

  stack_ne_nil :
      (ls : List (StackLevel E)) (env : Env E) {e : Env E} {es : List (Env E)}
      → outers ls env ≡ e ∷ es
      → ls ≢ []
  unfolding outers
  stack_ne_nil [] env h x = cc
  stack_ne_nil (l ∷ ls) env h x = cc

  record Kept (ops : List (Op E)) (s : DefaultState E) : Type 0 where
    state : DefaultState E
    runs : run ops s ≡ some state
    well : IsWellFormed state
    around : (scopes_of state).outer ≡ (scopes_of s).outer
    prefix_kept : lookup state (globaldefs E) ≡ lookup s (globaldefs E)

  pub record Stepped (op : Op E) (s : DefaultState E) : Type 0 where
    pub state : DefaultState E
    pub tokens : List ℕ
    pub returns : exec op s ≡ some (state, tokens)
    pub scopes_are : scopes_of state ≡ scoped op (scopes_of s)
    pub well : IsWellFormed state

  pub stepped : (op : Op E) (s : DefaultState E) → IsWellFormed s → ¬ (Panics op s) → Stepped op s
  stepped op s w n = elim (Option-cases (exec op s)) [
    | inl e ↦ absurd (n ((exec-eq-none op s w).0 e))
    | inr ((t, ts), e) ↦
        let (p, w') = exec-scoped op s w e in
        record { state = t; tokens = ts; returns = e; scopes_are = p; well = w' }
  ]

  -- A first step that keeps the groups around and `\globaldefs` comes before the rest.
  then_rest :
      (op : Op E) (ops : List (Op E)) (s : DefaultState E) (t : Stepped op s)
      → (scoped op (scopes_of s)).outer ≡ (scopes_of s).outer
      → (scoped op (scopes_of s)).current (globaldefs E) ≡ lookup s (globaldefs E)
      → Kept ops t.state
      → Kept (op ∷ ops) s
  unfolding run
  then_rest op ops s t o g k = record {
    state = k.state;
    runs = rw t.returns k.runs;
    well = k.well;
    around = k.around ∙ ap (λ (m : Scopes E). m.outer) t.scopes_are ∙ o;
    prefix_kept = k.prefix_kept ∙ ap (λ (m : Scopes E). m.current (globaldefs E)) t.scopes_are ∙ g;
  }

  scoped_prefix :
      (op : Op E) (s : DefaultState E) (t : Stepped op s)
      → NotGlobal (scopes_of s)
      → (scoped op (scopes_of s)).current (globaldefs E) ≡ lookup s (globaldefs E)
      → NotGlobal (scopes_of t.state)
  scoped_prefix op s t n g =
      let p : lookup t.state (globaldefs E) ≡ lookup s (globaldefs E) =
        ap (λ (m : Scopes E). m.current (globaldefs E)) t.scopes_are ∙ g in
      rw p n

  -- a group with a quiet program in it
  record Whole (gt : GroupType) (inner : List (Op E)) (s : DefaultState E) : Type 0 where
    state : DefaultState E
    runs : (rest : List (Op E)) → run (begin gt ∷ (inner ++ end ∷ rest)) s ≡ run rest state
    well : IsWellFormed state
    back : scopes_of state ≡ scopes_of s

  whole :
      (gt : GroupType) (inner : List (Op E)) (s : DefaultState E) (t : Stepped (begin gt) s)
      → Kept inner t.state
      → Whole gt inner s
  unfolding scoped run
  whole gt inner s t k =
      let o : (scopes_of k.state).outer ≡ lookup s ∷ outers s.stack.stack (lookup s) =
        k.around ∙ ap (λ (m : Scopes E). m.outer) t.scopes_are in
      let open_group : k.state.stack.stack ≢ [] =
        λ x. stack_ne_nil k.state.stack.stack (lookup k.state) o x in
      let e = stepped end k.state k.well open_group in
      record {
        state = e.state;
        runs = λ rest.
            rw t.returns (run-append inner (end ∷ rest) t.state ∙ rw (k.runs) (rw e.returns refl));
        well = e.well;
        back = e.scopes_are ∙ ap (λ (x : List (Env E)). leave x (scopes_of k.state)) o;
      }

  Quiet-Kept :
      {ops : List (Op E)} (s : DefaultState E)
      → Quiet ops
      → IsWellFormed s
      → NotGlobal (scopes_of s)
      → Kept ops s
  unfolding scoped run same
  Quiet-Kept s nothing w n = record {
    state = s;
    runs = refl;
    well = w;
    around = refl;
    prefix_kept = refl;
  }
  Quiet-Kept s (local {c} {ops} l d q) w n =
      let t = stepped (set c false) s w (λ p. p l) in
      let g : (scoped (set c false) (scopes_of s)).current (globaldefs E)
          ≡ lookup s (globaldefs E) =
        rw d refl in
      then_rest (set c false) ops s t (rw n refl) g
        (Quiet-Kept t.state q t.well (scoped_prefix (set c false) s t n g))
  Quiet-Kept s (shape {ops} q) w n =
      let t = stepped take_shape s w (λ x. x) in
      then_rest take_shape ops s t refl refl
        (Quiet-Kept t.state q t.well (scoped_prefix take_shape s t n refl))
  Quiet-Kept s (aside {t = x} {ops = ops} q) w n =
      let t = stepped (after x) s w (λ x. x) in
      then_rest (after x) ops s t refl refl
        (Quiet-Kept t.state q t.well (scoped_prefix (after x) s t n refl))
  Quiet-Kept s (group {gt} {inner} {rest} {ops} q r e) w n =
      let t = stepped (begin gt) s w (λ x. x) in
      let n' : NotGlobal (scopes_of t.state) = scoped_prefix (begin gt) s t n refl in
      let g = whole gt inner s t (Quiet-Kept t.state q t.well n') in
      let k = Quiet-Kept g.state r g.well (subst (λ (m : Scopes E). NotGlobal m) (sym g.back) n) in
      record {
        state = k.state;
        runs = rw e (g.runs rest ∙ k.runs);
        well = k.well;
        around = k.around ∙ ap (λ (m : Scopes E). m.outer) g.back;
        prefix_kept = k.prefix_kept ∙ ap (λ (m : Scopes E). m.current (globaldefs E)) g.back;
      }

  -- From a usable journal with \globaldefs not positive, a group around a program of closed groups
  -- and legal local assignments that leave \globaldefs alone ends without a panic, and then every
  -- place of the state and of the groups around reads as before the group.
  pub group_restores :
      (gt : GroupType) (ops : List (Op E)) (s : DefaultState E)
      → Quiet ops
      → IsWellFormed s
      → NotGlobal (scopes_of s)
      → (s' : DefaultState E) × (run (begin gt ∷ (ops ++ end ∷ [])) s ≡ some s')
        × (scopes_of s' ≡ scopes_of s)
  unfolding scoped run
  group_restores gt ops s q w n =
      let t = stepped (begin gt) s w (λ x. x) in
      let g =
        whole gt ops s t (Quiet-Kept t.state q t.well (scoped_prefix (begin gt) s t n refl)) in
      (g.state, g.runs [], g.back)
