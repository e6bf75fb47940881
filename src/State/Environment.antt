-- ===== src/State/Environment.antt =====
-- The abstract state: what can be read at each place, for the current group and for each group
-- around it. The journal of a level is read as the environment that its end brings back.
use rus_te_x.Prelude.{
  true, false, List, [], ◌∷◌, ◌++◌, map, ◌≡◌, refl, sym, ap, ◌∙◌, fun_ext, arith, inl, inr,
  if◌then◌else◌, Bool-cases,
}
use rus_te_x.State.Change.{EngineTypes, Slot, StateChange, id_of, same, same_refl, eq_of_same}
use rus_te_x.State.Stack.{
  StateChangeI, StackLevel, into, equiv, deactivate, deactivate_all, all_differ, add_to_last,
}
use rus_te_x.State.View.{Val, value_of}

abbrev pub Env : EngineTypes → Type 0
Env E = Slot → Val E

module _ {E : EngineTypes} where
  abbrev pub put : Slot → Val E → Env E → Env E
  put k v env j = if same k j then v else env j

  abbrev pub revert : StateChangeI E → Env E → Env E
  revert c env = if c.active then put (id_of c.ch) (value_of c.ch) env else env

  -- the end of a group, change by change
  unfoldable pub undo : List (StateChangeI E) → Env E → Env E
  undo [] env = env
  undo (c ∷ cs) env = undo cs (revert c env)

  -- the environments of the groups around, the nearest first
  unfoldable pub outers : List (StackLevel E) → Env E → List (Env E)
  unfolding undo
  outers [] env = []
  outers (lvl ∷ ls) env = let env' = undo lvl.changes env in env' ∷ outers ls env'

  put_self : (k : Slot) (env : Env E) → put k (env k) env ≡ env
  put_self k env = fun_ext λ j. elim (Bool-cases (same k j)) [
    | inl e ↦ rw e (ap env (eq_of_same k j e))
    | inr e ↦ rw e refl
  ]

  put-put : (k : Slot) (v w : Val E) (env : Env E) → put k v (put k w env) ≡ put k v env
  put-put k v w env =
      fun_ext λ j. elim (Bool-cases (same k j)) [ inl e ↦ rw e refl | inr e ↦ rw e refl ]

  put_comm :
      (k j : Slot) (v w : Val E) (env : Env E)
      → same j k ≡ false
      → put j w (put k v env) ≡ put k v (put j w env)
  put_comm k j v w env d =
      fun_ext λ x. ground (arith, eq_of_same j x, eq_of_same k x, same_refl k, same_refl j)

  revert-put :
      (d : StateChangeI E) (c : StateChange E) (v : Val E) (env : Env E)
      → equiv d (into c) ≡ false
      → revert d (put (id_of c) v env) ≡ put (id_of c) v (revert d env)
  unfolding equiv
  revert-put d c v env h = elim (Bool-cases d.active) [
    | inl e ↦ rw e (put_comm (id_of c) (id_of d.ch) v (value_of d.ch) env (rw e at h))
    | inr e ↦ rw e refl
  ]

  revert-put_known :
      (d : StateChangeI E) (c : StateChange E) (v : Val E) (env : Env E)
      → equiv d (into c) ≡ true
      → revert d (put (id_of c) v env) ≡ revert d env
  unfolding equiv
  revert-put_known d c v env h = elim (Bool-cases d.active) [
    | inl e ↦ rw (e, eq_of_same (id_of d.ch) (id_of c) (rw e at h)) (put-put (id_of c) _ _ env)
    | inr e ↦ cc (rw e at h)
  ]

  put-revert :
      (d : StateChangeI E) (c : StateChange E) (v : Val E) (env : Env E)
      → equiv d (into c) ≡ true
      → put (id_of c) v (revert d env) ≡ put (id_of c) v env
  unfolding equiv
  put-revert d c v env h = elim (Bool-cases d.active) [
    | inl e ↦ rw (e, eq_of_same (id_of d.ch) (id_of c) (rw e at h)) (put-put (id_of c) _ _ env)
    | inr e ↦ rw e refl
  ]

  -- A write to a place that the journal has no active change for stays behind the end of the group.
  undo-put :
      (c : StateChange E) (v : Val E) (cs : List (StateChangeI E)) (env : Env E)
      → all_differ (into c) cs ≡ true
      → undo cs (put (id_of c) v env) ≡ put (id_of c) v (undo cs env)
  unfolding undo all_differ
  undo-put c v [] env h = refl
  undo-put c v (d ∷ cs) env h = elim (Bool-cases (equiv d (into c))) [
    | inl e ↦ cc (rw e at h)
    | inr e ↦ rw (revert-put d c v env e) (undo-put c v cs (revert d env) (rw e at h))
  ]

  -- One to a place that has such a change is undone.
  undo-put_known :
      (c : StateChange E) (v : Val E) (cs : List (StateChangeI E)) (env : Env E)
      → all_differ (into c) cs ≡ false
      → undo cs (put (id_of c) v env) ≡ undo cs env
  unfolding undo all_differ
  undo-put_known c v [] env h = cc
  undo-put_known c v (d ∷ cs) env h = elim (Bool-cases (equiv d (into c))) [
    | inl e ↦ rw (revert-put_known d c v env e) refl
    | inr e ↦ rw (revert-put d c v env e) (undo-put_known c v cs (revert d env) (rw e at h))
  ]

  undo-append :
      (xs ys : List (StateChangeI E)) (env : Env E) → undo (xs ++ ys) env ≡ undo ys (undo xs env)
  unfolding undo
  undo-append [] ys env = refl
  undo-append (x ∷ xs) ys env = undo-append xs ys _

  undo-deactivate :
      (c : StateChange E) (v : Val E) (cs : List (StateChangeI E)) (env : Env E)
      → undo (deactivate (into c) cs) (put (id_of c) v env) ≡ put (id_of c) v (undo cs env)
  unfolding undo deactivate
  undo-deactivate c v [] env = refl
  undo-deactivate c v (d ∷ cs) env = elim (Bool-cases (equiv d (into c))) [
    | inl e ↦ rw e (rw (← put-revert d c v env e) (undo-deactivate c v cs (revert d env)))
    | inr e ↦ rw e (rw (revert-put d c v env e) (undo-deactivate c v cs (revert d env)))
  ]

  -- With no active change for its place, the end of a group leaves the value of a place alone.
  undo_other :
      (c : StateChange E) (cs : List (StateChangeI E)) (env : Env E)
      → all_differ (into c) cs ≡ true
      → undo cs env (id_of c) ≡ env (id_of c)
  undo_other c cs env h =
      let k = id_of c in
      let p : undo cs env ≡ put k (env k) (undo cs env) =
        ap (undo cs) (sym (put_self k env)) ∙ undo-put c (env k) cs env h in
      ap (λ (f : Env E). f k) p ∙ rw (same_refl k) refl

  undo-snoc :
      (c : StateChange E) (v : Val E) (cs : List (StateChangeI E)) (env : Env E)
      → all_differ (into c) cs ≡ true
      → value_of c ≡ env (id_of c)
      → undo (cs ++ into c ∷ []) (put (id_of c) v env) ≡ undo cs env
  unfolding undo
  undo-snoc c v cs env h old =
      undo-append cs (into c ∷ []) (put (id_of c) v env)
      ∙ ap (put (id_of c) (value_of c)) (undo-put c v cs env h)
      ∙ put-put (id_of c) (value_of c) v (undo cs env)
      ∙ rw (old, ← undo_other c cs env h) (put_self (id_of c) (undo cs env))

  pub outers-add_to_last :
      (c : StateChange E) (v : Val E) (ls : List (StackLevel E)) (env : Env E)
      → value_of c ≡ env (id_of c)
      → outers (add_to_last c ls) (put (id_of c) v env) ≡ outers ls env
  unfolding outers add_to_last
  outers-add_to_last c v [] env old = refl
  outers-add_to_last c v (lvl ∷ ls) env old = elim (Bool-cases (all_differ (into c) lvl.changes)) [
    | inl e ↦ rw e (rw (undo-snoc c v lvl.changes env e old) refl)
    | inr e ↦ rw e (rw (undo-put_known c v lvl.changes env e) refl)
  ]

  pub outers-deactivate_all :
      (c : StateChange E) (v : Val E) (ls : List (StackLevel E)) (env : Env E)
      → outers (deactivate_all (into c) ls) (put (id_of c) v env)
        ≡ map (put (id_of c) v) (outers ls env)
  unfolding outers deactivate_all
  outers-deactivate_all c v [] env = refl
  outers-deactivate_all c v (lvl ∷ ls) env = rw (undo-deactivate c v lvl.changes env) (
      ap (◌∷◌ (put (id_of c) v (undo lvl.changes env)))
        (outers-deactivate_all c v ls (undo lvl.changes env)))
