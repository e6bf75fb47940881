-- ===== src/State/Tests.antt =====
-- Runs of the state on concrete programs, and the theorems at such runs.
use rus_te_x.Prelude.{
  ℕ, true, false, ◌↔◌, none, some, List, [], ◌∷◌, ◌++◌, ◌≡◌, refl, ◌>>=◌, replicate, if◌then◌else◌,
}
use rus_te_x.Tex.Numbers.{pos}
use rus_te_x.State.Change.{EngineTypes, simple, hbox, Slot, StateChange, id_of, same}
use rus_te_x.State.DefaultState.{DefaultState, new, get_int_register, get_box_register}
use rus_te_x.State.Stack.{push, add_change_locally, add_change_globally}
use rus_te_x.State.Registers.{resize_for}
use rus_te_x.State.Assign.{take_box_register}
use rus_te_x.State.View.{Val, lookup, value_of}
use rus_te_x.State.Scopes.{Op, set, begin, end, after, exec, run, counts_global, scoped, scopes_of}
use rus_te_x.State.Invariant.{IsWellFormed}
use rus_te_x.State.Operations.{exec-scoped, exec-eq-none, Panics}
use rus_te_x.State.Programs.{Quiet, nothing, local, group, group_restores, globaldefs}
use rus_te_x.State.Queues.{Calls, call, assignment, aftergroup_order}
use rus_te_x.State.Lifetimes.{global_outlives, take_box_register_lem}

-- Fonts, boxes and definitions are numbers here.
abbrev Numbered : EngineTypes
Numbered = record { Font = ℕ; Box = ℕ; Command = ℕ; globaldefs = 7 }

abbrev start : DefaultState Numbered
start = new {E = Numbered} 0

start-IsWellFormed : IsWellFormed start
unfolding new
start-IsWellFormed = record { fits = tt; pool = tt }

-- \count3=5
abbrev count3 : ℕ → StateChange Numbered
count3 n = StateChange.int_register 3 (pos n)

abbrev nested : List (Op Numbered)
nested = set (count3 5) false ∷ begin hbox ∷ set (count3 6) false ∷ end ∷ set (count3 8) false ∷ []

nested_value :
    (run (set (count3 1) false ∷ begin simple ∷ nested) start >>= λ s. some (get_int_register s 3))
    ≡ some (pos 8)
unfolding run new get_int_register add_change_locally push resize_for
nested_value = refl

global_wins :
    (run (begin simple ∷ set (count3 2) false ∷ set (count3 9) true ∷ end ∷ []) start >>= λ s.
    some (get_int_register s 3))
    ≡ some (pos 9)
unfolding run new get_int_register add_change_globally add_change_locally push same id_of resize_for
global_wins = refl

no_group_to_end : exec end start ≡ none
unfolding exec new
no_group_to_end = refl

nested-Quiet : Quiet nested
unfolding same id_of
nested-Quiet = local tt refl (group (local tt refl nothing) (local tt refl nothing) refl)

not_global : counts_global (lookup start (globaldefs Numbered)) false ≡ false
unfolding lookup new
not_global = refl

global : counts_global (lookup start (globaldefs Numbered)) true ≡ true
unfolding lookup new
global = refl

group_restores_example :
    (s' : DefaultState Numbered) × (run (begin simple ∷ (nested ++ end ∷ [])) start ≡ some s')
    × (scopes_of s' ≡ scopes_of start)
group_restores_example =
    group_restores simple nested start nested-Quiet start-IsWellFormed not_global

exec-eq-none_example : (exec end start ≡ none) ↔ Panics end start
exec-eq-none_example = exec-eq-none end start start-IsWellFormed

abbrev inside : Op Numbered
inside = set (count3 4) true

abbrev written : DefaultState Numbered
written = record start { int_register = pos 0 ∷ pos 0 ∷ pos 0 ∷ pos 4 ∷ [] }

inside_runs : exec inside start ≡ some (written, [])
unfolding exec new add_change_globally resize_for
inside_runs = refl

exec-scoped_example : (scopes_of written ≡ scoped inside (scopes_of start)) × IsWellFormed written
exec-scoped_example = exec-scoped inside start start-IsWellFormed inside_runs

abbrev outliving : DefaultState Numbered
outliving = record start {
  stack = record { stack = []; vecs = [] ∷ [] };
  int_register = pos 0 ∷ pos 0 ∷ pos 0 ∷ pos 4 ∷ [];
}

abbrev opened : DefaultState Numbered
opened = record start {
  stack = record {
    stack = record { group_type = simple; aftergroup = []; changes = [] } ∷ [];
    vecs = [];
  };
}

opened-IsWellFormed : IsWellFormed opened
unfolding new
opened-IsWellFormed = record { fits = (tt, tt); pool = tt }

outliving_runs : run (set (count3 4) true ∷ replicate 1 end) opened ≡ some outliving
unfolding run new add_change_globally resize_for
outliving_runs = refl

opened_global : counts_global (lookup opened (globaldefs Numbered)) true ≡ true
unfolding lookup new
opened_global = refl

global_outlives_example : lookup outliving (Slot.int_register 3) ≡ Val.int (pos 4)
unfolding id_of value_of
global_outlives_example =
    global_outlives (count3 4) 1 opened opened-IsWellFormed opened_global outliving_runs

-- \aftergroup around an assignment and a group with its own
abbrev collecting : List (Op Numbered)
collecting =
    set (count3 5) false
    ∷ after 11
    ∷ set (count3 6) false
    ∷ begin hbox
    ∷ after 13
    ∷ end
    ∷ after 12
    ∷ []

collecting-Calls : Calls collecting (11 ∷ 12 ∷ [])
collecting-Calls =
    assignment tt
      (call (assignment tt (Calls.group (call Calls.nothing) (call Calls.nothing) refl)))

aftergroup_order_example :
    (s' : DefaultState Numbered) × ((run (begin simple ∷ collecting) start >>= exec end)
      ≡ some (s', 11 ∷ 12 ∷ []))
aftergroup_order_example =
    aftergroup_order simple collecting (11 ∷ 12 ∷ []) start collecting-Calls start-IsWellFormed

abbrev boxed : DefaultState Numbered
boxed = record start { box_register = none ∷ some 5 ∷ [] }

boxed-IsWellFormed : IsWellFormed boxed
unfolding new
boxed-IsWellFormed = record { fits = tt; pool = tt }

take_box_register_lem_example :
    ((take_box_register 1 boxed).1 ≡ get_box_register boxed 1)
    × ((k : Slot)
        → lookup (take_box_register 1 boxed).0 k
          ≡ (if same (Slot.box_register 1) k then Val.box none else lookup boxed k))
    × ((take_box_register 1 boxed).0.stack ≡ boxed.stack)
    × IsWellFormed (take_box_register 1 boxed).0
take_box_register_lem_example = take_box_register_lem 1 boxed boxed-IsWellFormed
