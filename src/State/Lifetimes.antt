-- ===== src/State/Lifetimes.antt =====
-- engine/state/tex_state.rs: global assignments and boxes that are taken, which outlive a group.
use rus_te_x.Prelude.{
  ℕ, zero, suc, true, none, some, List, [], ◌∷◌, map, ◌≡◌, refl, ap, ◌∙◌, arith, if◌then◌else◌,
  replicate,
}
use rus_te_x.State.Change.{EngineTypes, Slot, StateChange, id_of, same, same_refl}
use rus_te_x.State.Registers.{get_or-set_default}
use rus_te_x.State.DefaultState.{DefaultState, get_box_register}
use rus_te_x.State.Assign.{take_box_register}
use rus_te_x.State.View.{Val, lookup, value_of}
use rus_te_x.State.Environment.{Env, put}
use rus_te_x.State.Write.{write}
use rus_te_x.State.Bounds.{InRange-write}
use rus_te_x.State.Scopes.{
  set, end, Scopes, run, counts_global, scoped, leave, scoped_run, scopes_of,
}
use rus_te_x.State.Invariant.{IsWellFormed, LevelsFit-Keeps}
use rus_te_x.State.Programs.{run-scoped, globaldefs}

module _ {E : EngineTypes} where
  -- every environment has `v` at `k`
  abbrev AllHave : Slot → Val E → List (Env E) → Type 0
  AllHave k v [] = Unit {0}
  AllHave k v (env ∷ envs) = (env k ≡ v) × AllHave k v envs

  AllHave-map-put : (k : Slot) (v : Val E) (envs : List (Env E)) → AllHave k v (map (put k v) envs)
  AllHave-map-put k v [] = tt
  AllHave-map-put k v (env ∷ envs) = (rw (same_refl k) refl, AllHave-map-put k v envs)

  leave-have :
      (k : Slot) (v : Val E) (envs : List (Env E)) (m : Scopes E)
      → m.current k ≡ v
      → AllHave k v m.outer
      → AllHave k v envs
      → ((leave envs m).current k ≡ v) × AllHave k v (leave envs m).outer
  unfolding leave
  leave-have k v [] m h a b = (h, a)
  leave-have k v (env ∷ envs) m h a b = b

  scoped_run_ends :
      (n : ℕ) (k : Slot) (v : Val E) (m : Scopes E)
      → m.current k ≡ v
      → AllHave k v m.outer
      → (scoped_run (replicate n end) m).current k ≡ v
  unfolding scoped_run scoped
  scoped_run_ends zero k v m h a = h
  scoped_run_ends (suc n) k v m h a =
      let (h', a') = leave-have k v m.outer m h a a in scoped_run_ends n k v (leave m.outer m) h' a'

  -- From a usable journal with \globaldefs not negative, a value that is assigned globally is
  -- still read at its place after any number of groups has ended.
  pub global_outlives :
      (c : StateChange E) (n : ℕ) (s : DefaultState E) {s' : DefaultState E}
      → IsWellFormed s
      → counts_global (lookup s (globaldefs E)) true ≡ true
      → run (set c true ∷ replicate n end) s ≡ some s'
      → lookup s' (id_of c) ≡ value_of c
  unfolding scoped_run scoped
  global_outlives c n s w g e =
      let m = scoped (set c true) (scopes_of s) in
      let inside : AllHave (id_of c) (value_of c) m.outer =
        rw g (AllHave-map-put (id_of c) (value_of c) (scopes_of s).outer) in
      ap (λ (x : Scopes E). x.current (id_of c)) (run-scoped (set c true ∷ replicate n end) s w e).0
      ∙ scoped_run_ends n (id_of c) (value_of c) m (rw (same_refl (id_of c)) refl) inside

  lookup-take_box_register :
      (idx : ℕ) (s : DefaultState E) (k : Slot)
      → lookup (take_box_register idx s).0 k
        ≡ (if same (Slot.box_register idx) k then Val.box none else lookup s k)
  unfolding lookup take_box_register same
  lookup-take_box_register idx s (Slot.box_register j) =
      ground (arith, get_or-set_default s.box_register idx j none)
  lookup-take_box_register idx s _ = refl

  -- From a usable journal, taking a box gives the caller what the register held, voids the
  -- register, leaves all other places and the journal alone, and leaves a usable journal.
  pub take_box_register_lem :
      (idx : ℕ) (s : DefaultState E)
      → IsWellFormed s
      → ((take_box_register idx s).1 ≡ get_box_register s idx)
        × ((k : Slot)
            → lookup (take_box_register idx s).0 k
              ≡ (if same (Slot.box_register idx) k then Val.box none else lookup s k))
        × ((take_box_register idx s).0.stack ≡ s.stack)
        × IsWellFormed (take_box_register idx s).0
  unfolding take_box_register get_box_register write
  take_box_register_lem idx s w = (
    refl,
    lookup-take_box_register idx s,
    refl,
    record {
      fits =
          LevelsFit-Keeps s.stack.stack (λ d. InRange-write (StateChange.box_register idx none) d s)
            w.fits;
      pool = w.pool;
    },
  )
