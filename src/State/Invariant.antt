-- ===== src/State/Invariant.antt =====
-- What keeps the journal usable: every change in it can be written back, and the vectors that are
-- kept for reuse are empty.
use rus_te_x.Prelude.{List, [], ◌∷◌, ◌++◌, ◌≡◌, inl, inr, Bool-cases}
use rus_te_x.State.Change.{EngineTypes, StateChange}
use rus_te_x.State.Stack.{
  StateChangeI, StackLevel, into, deactivate, deactivate_all, equiv, all_differ, add_to_last,
}
use rus_te_x.State.DefaultState.{DefaultState}
use rus_te_x.State.Write.{InRange}

module _ {E : EngineTypes} where
  abbrev pub ChangesFit : DefaultState E → List (StateChangeI E) → Type 0
  ChangesFit s [] = Unit {0}
  ChangesFit s (c ∷ cs) = InRange c.ch s × ChangesFit s cs

  abbrev pub LevelsFit : DefaultState E → List (StackLevel E) → Type 0
  LevelsFit s [] = Unit {0}
  LevelsFit s (lvl ∷ ls) = ChangesFit s lvl.changes × LevelsFit s ls

  abbrev pub AllEmpty : List (List (StateChangeI E)) → Type 0
  AllEmpty [] = Unit {0}
  AllEmpty (v ∷ vs) = (v ≡ []) × AllEmpty vs

  pub record IsWellFormed (s : DefaultState E) : Type 0 where
    pub fits : LevelsFit s s.stack.stack
    pub pool : AllEmpty s.stack.vecs

  -- No index that was in range for `s` is out of range for `t`.
  abbrev pub Keeps : DefaultState E → DefaultState E → Type 0
  Keeps s t = (d : StateChange E) → InRange d s → InRange d t

  pub ChangesFit-Keeps :
      {s t : DefaultState E} (cs : List (StateChangeI E))
      → Keeps s t
      → ChangesFit s cs
      → ChangesFit t cs
  ChangesFit-Keeps [] k h = tt
  ChangesFit-Keeps (c ∷ cs) k h = (k c.ch h.0, ChangesFit-Keeps cs k h.1)

  pub LevelsFit-Keeps :
      {s t : DefaultState E} (ls : List (StackLevel E))
      → Keeps s t
      → LevelsFit s ls
      → LevelsFit t ls
  LevelsFit-Keeps [] k h = tt
  LevelsFit-Keeps (lvl ∷ ls) k h = (ChangesFit-Keeps lvl.changes k h.0, LevelsFit-Keeps ls k h.1)

  ChangesFit-deactivate :
      (s : DefaultState E) (c : StateChangeI E) (cs : List (StateChangeI E))
      → ChangesFit s cs
      → ChangesFit s (deactivate c cs)
  unfolding deactivate
  ChangesFit-deactivate s c [] h = tt
  ChangesFit-deactivate s c (d ∷ cs) h = elim (Bool-cases (equiv d c)) [
    | inl e ↦ rw e (h.0, ChangesFit-deactivate s c cs h.1)
    | inr e ↦ rw e (h.0, ChangesFit-deactivate s c cs h.1)
  ]

  pub LevelsFit-deactivate_all :
      (s : DefaultState E) (c : StateChangeI E) (ls : List (StackLevel E))
      → LevelsFit s ls
      → LevelsFit s (deactivate_all c ls)
  unfolding deactivate_all
  LevelsFit-deactivate_all s c [] h = tt
  LevelsFit-deactivate_all s c (lvl ∷ ls) h =
      (ChangesFit-deactivate s c lvl.changes h.0, LevelsFit-deactivate_all s c ls h.1)

  ChangesFit-snoc :
      (s : DefaultState E) (c : StateChange E) (cs : List (StateChangeI E))
      → InRange c s
      → ChangesFit s cs
      → ChangesFit s (cs ++ into c ∷ [])
  ChangesFit-snoc s c [] r h = (r, tt)
  ChangesFit-snoc s c (d ∷ cs) r h = (h.0, ChangesFit-snoc s c cs r h.1)

  pub LevelsFit-add_to_last :
      (s : DefaultState E) (c : StateChange E) (ls : List (StackLevel E))
      → InRange c s
      → LevelsFit s ls
      → LevelsFit s (add_to_last c ls)
  unfolding add_to_last
  LevelsFit-add_to_last s c [] r h = tt
  LevelsFit-add_to_last s c (lvl ∷ ls) r h = elim (Bool-cases (all_differ (into c) lvl.changes)) [
    | inl e ↦ rw e (ChangesFit-snoc s c lvl.changes r h.0, h.1)
    | inr e ↦ rw e h
  ]
