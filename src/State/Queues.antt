-- ===== src/State/Queues.antt =====
-- engine/state/tex_state.rs: the tokens of `\aftergroup`, which wait in the level of their group for
-- its end.
use rus_te_x.Prelude.{
  ℕ, Bool, true, Option, false, some, List, [], ◌∷◌, ◌++◌, ◌≡◌, ◌≢◌, refl, sym, subst, ap, ◌∙◌,
  ◌>>=◌, append-nil, append_assoc, Bool-cases, inl, inr,
}
use rus_te_x.State.Change.{EngineTypes, GroupType, StateChange}
use rus_te_x.State.Stack
use rus_te_x.State.Stack.{
  StateChangeI, StackLevel, StateStack, push as push_level, into, deactivate_all, all_differ,
  add_to_last, add_change_globally, add_change_locally,
}
use rus_te_x.State.DefaultState.{DefaultState}
use rus_te_x.State.Assign.{is_global, push, take_parshape, aftergroup, append_to_last}
use rus_te_x.State.Pop.{pop}
use rus_te_x.State.Write.{Legal, prior, assigned, assign-Legal}
use rus_te_x.State.Refinement.{record_change, assigned_lem, written, written-stack}
use rus_te_x.State.Groups.{pop-Ended_level}
use rus_te_x.State.Scopes.{Op, set, begin, end, take_shape, after, exec, run}
use rus_te_x.State.Invariant.{LevelsFit, IsWellFormed}
use rus_te_x.State.Programs.{run-append, Stepped, stepped}

module _ {E : EngineTypes} where
  -- what each open group has collected, the innermost first
  unfoldable queues_of : List (StackLevel E) → List (List ℕ)
  queues_of [] = []
  queues_of (lvl ∷ ls) = lvl.aftergroup ∷ queues_of ls

  abbrev queues : DefaultState E → List (List ℕ)
  queues s = queues_of s.stack.stack

  queues_of-deactivate_all :
      (d : StateChangeI E) (ls : List (StackLevel E))
      → queues_of (deactivate_all d ls) ≡ queues_of ls
  unfolding queues_of deactivate_all
  queues_of-deactivate_all d [] = refl
  queues_of-deactivate_all d (lvl ∷ ls) =
      ap (λ (q : List (List ℕ)). lvl.aftergroup ∷ q) (queues_of-deactivate_all d ls)

  queues_of-add_to_last :
      (d : StateChange E) (ls : List (StackLevel E)) → queues_of (add_to_last d ls) ≡ queues_of ls
  unfolding queues_of add_to_last
  queues_of-add_to_last d [] = refl
  queues_of-add_to_last d (lvl ∷ ls) = elim (Bool-cases (all_differ (into d) lvl.changes)) [
    | inl e ↦ rw e refl
    | inr e ↦ rw e refl
  ]

  queues-record_change :
      (global : Bool) (d : StateChange E) (t : DefaultState E)
      → queues (record_change global d t) ≡ queues t
  unfolding add_change_globally add_change_locally
  queues-record_change true d t = queues_of-deactivate_all (into d) t.stack.stack
  queues-record_change false d t = queues_of-add_to_last d t.stack.stack

  queues-set :
      (c : StateChange E) (g : Bool) (s t : DefaultState E) (ts : List ℕ)
      → Legal c
      → exec (set c g) s ≡ some (t, ts)
      → queues t ≡ queues s
  unfolding exec
  queues-set c g s t ts l e =
      let p : assigned c g s ≡ t = cc (e, assign-Legal c g s l) in
      ap queues (sym p)
      ∙ ap queues (assigned_lem c g s)
      ∙ queues-record_change (is_global g s) (prior c s) (written c s)
      ∙ ap (λ (x : StateStack E). queues_of x.stack) (written-stack c s)

  queues-take_shape :
      (s t : DefaultState E) (ts : List ℕ) → exec take_shape s ≡ some (t, ts) → queues t ≡ queues s
  unfolding exec take_parshape add_change_locally
  queues-take_shape s t ts e =
      let p : (take_parshape s).0 ≡ t = cc e in
      ap queues (sym p) ∙ queues_of-add_to_last (StateChange.par_shape s.parshape) s.stack.stack

  queues_of-append_to_last :
      (x : ℕ) (ls : List (StackLevel E)) {q : List ℕ} {qs : List (List ℕ)}
      → queues_of ls ≡ q ∷ qs
      → queues_of (append_to_last x ls) ≡ (q ++ x ∷ []) ∷ qs
  unfolding queues_of append_to_last
  queues_of-append_to_last x [] h = cc
  queues_of-append_to_last x (lvl ∷ ls) h = cc h

  queues-after :
      (x : ℕ) (s t : DefaultState E) (ts : List ℕ) {q : List ℕ} {qs : List (List ℕ)}
      → exec (after x) s ≡ some (t, ts)
      → queues s ≡ q ∷ qs
      → queues t ≡ (q ++ x ∷ []) ∷ qs
  unfolding exec aftergroup
  queues-after x s t ts e h =
      let p : aftergroup x s ≡ t = cc e in
      ap queues (sym p) ∙ queues_of-append_to_last x s.stack.stack h

  queues-begin :
      (gt : GroupType) (s t : DefaultState E) (ts : List ℕ)
      → exec (begin gt) s ≡ some (t, ts)
      → queues t ≡ [] ∷ queues s
  unfolding exec push push_level queues_of
  queues-begin gt s t ts e = let p : push gt s ≡ t = cc e in ap queues (sym p)

  nonempty :
      (ls : List (StackLevel E)) {q : List ℕ} {qs : List (List ℕ)} → queues_of ls ≡ q ∷ qs → ls ≢ []
  unfolding queues_of
  nonempty [] h e = cc
  nonempty (lvl ∷ ls) h e = cc

  abbrev exec_result : DefaultState E → List ℕ → Option (DefaultState E × List ℕ)
  exec_result s ts = some (s, ts)

  queues-end :
      (s t : DefaultState E) (ts : List ℕ) {q : List ℕ} {qs : List (List ℕ)}
      → IsWellFormed s
      → exec end s ≡ some (t, ts)
      → queues s ≡ q ∷ qs
      → (ts ≡ q) × (queues t ≡ qs)
  unfolding exec pop Stack.pop queues_of
  queues-end s t ts {q} {qs} w e h = go s.stack.stack refl
    where
      go : (ls : List (StackLevel E)) → s.stack.stack ≡ ls → (ts ≡ q) × (queues t ≡ qs)
      go [] k = absurd (nonempty s.stack.stack h k)
      go (lvl ∷ rest) k =
          let f : LevelsFit s (lvl ∷ rest) = subst (LevelsFit s) k w.fits in
          let (s', r, d) = pop-Ended_level lvl rest s f.0 in
          let h' : lvl.aftergroup ∷ queues_of rest ≡ q ∷ qs = rw k at h in
          let p : exec_result s' lvl.aftergroup ≡ exec_result t ts = sym r ∙ (rw k at e) in
          let same : s' ≡ t = cc p in
          let rest_is : queues_of rest ≡ qs = cc h' in
          (
            cc (p, h'),
            ap queues (sym same)
                ∙ ap (λ (x : StateStack E). queues_of x.stack) d.stack_is
                ∙ rest_is,
          )

  -- In this program \aftergroup is called for these tokens at the group's own level. What the closed
  -- groups in it call is theirs.
  pub data Calls : List (Op E) → List ℕ → Type 0 where
    nothing : Calls [] []
    call : {t : ℕ} {ops : List (Op E)} {ts : List ℕ} → Calls ops ts → Calls (after t ∷ ops) (t ∷ ts)
    assignment :
        {c : StateChange E} {g : Bool} {ops : List (Op E)} {ts : List ℕ}
        → Legal c
        → Calls ops ts
        → Calls (set c g ∷ ops) ts
    shape : {ops : List (Op E)} {ts : List ℕ} → Calls ops ts → Calls (take_shape ∷ ops) ts
    group :
        {gt : GroupType} {inner rest ops : List (Op E)} {us ts : List ℕ}
        → Calls inner us
        → Calls rest ts
        → ops ≡ begin gt ∷ (inner ++ end ∷ rest)
        → Calls ops ts

  record Ran (ops : List (Op E)) (s : DefaultState E) (qs : List (List ℕ)) : Type 0 where
    state : DefaultState E
    runs : run ops s ≡ some state
    well : IsWellFormed state
    collected : queues state ≡ qs

  then_ran :
      (op : Op E) {ops : List (Op E)} (s : DefaultState E) {qs : List (List ℕ)} (t : Stepped op s)
      → Ran ops t.state qs
      → Ran (op ∷ ops) s qs
  unfolding run
  then_ran op s t r = record {
    state = r.state;
    runs = rw t.returns r.runs;
    well = r.well;
    collected = r.collected;
  }

  Calls-Ran :
      {ops : List (Op E)} {ts : List ℕ} (s : DefaultState E) {q : List ℕ} {qs : List (List ℕ)}
      → Calls ops ts
      → IsWellFormed s
      → queues s ≡ q ∷ qs
      → Ran ops s ((q ++ ts) ∷ qs)
  unfolding run
  Calls-Ran s nothing w h = record { state = s; runs = refl; well = w; collected = rw append-nil h }
  Calls-Ran s {q} {qs} (call {t = x} {ts = ts} c) w h =
      let t = stepped (after x) s w (λ n. n) in
      let r = Calls-Ran t.state c t.well (queues-after x s t.state t.tokens t.returns h) in
      then_ran (after x) s t
        (subst (Ran _ t.state) (ap (λ ys. ys ∷ qs) (append_assoc q (x ∷ []) ts)) r)
  Calls-Ran s (assignment {c = d} {g = g} l c) w h =
      let t = stepped (set d g) s w (λ n. n l) in
      then_ran (set d g) s t
        (Calls-Ran t.state c t.well (queues-set d g s t.state t.tokens l t.returns ∙ h))
  Calls-Ran s (shape c) w h =
      let t = stepped take_shape s w (λ n. n) in
      then_ran take_shape s t
        (Calls-Ran t.state c t.well (queues-take_shape s t.state t.tokens t.returns ∙ h))
  Calls-Ran s (group {gt} {inner} {rest} {ops} c d e) w h =
      let b = stepped (begin gt) s w (λ n. n) in
      let o = queues-begin gt s b.state b.tokens b.returns in
      let i = Calls-Ran b.state c b.well o in
      let f = stepped end i.state i.well (nonempty i.state.stack.stack i.collected) in
      let z = (queues-end i.state f.state f.tokens i.well f.returns i.collected).1 in
      let r = Calls-Ran f.state d f.well (z ∙ h) in
      record {
        state = r.state;
        runs = rw (e, b.returns, run-append inner (end ∷ rest) b.state, i.runs, f.returns) r.runs;
        well = r.well;
        collected = r.collected;
      }

  -- From a usable journal, a group around any program of legal assignments, local or global,
  -- \parshape taken, \aftergroup and closed groups ends without a panic, and gives the mouth the
  -- tokens of its own \aftergroup calls in their order and none of those of the groups inside.
  pub aftergroup_order :
      (gt : GroupType) (ops : List (Op E)) (ts : List ℕ) (s : DefaultState E)
      → Calls ops ts
      → IsWellFormed s
      → (s' : DefaultState E) × ((run (begin gt ∷ ops) s >>= exec end) ≡ some (s', ts))
  unfolding then_ran
  aftergroup_order gt ops ts s c w =
      let b = stepped (begin gt) s w (λ n. n) in
      let r = Calls-Ran b.state c b.well (queues-begin gt s b.state b.tokens b.returns) in
      let f = stepped end r.state r.well (nonempty r.state.stack.stack r.collected) in
      let (z, o) = queues-end r.state f.state f.tokens r.well f.returns r.collected in
      (
        f.state,
        ap (λ x. x >>= exec end) (then_ran (begin gt) s b r).runs
            ∙ f.returns
            ∙ ap (λ us. some (f.state, us)) z,
      )
