-- ===== src/State/Change.antt =====
-- engine/state.rs: the kinds of groups, and the changes that a group undoes when it ends.
-- Characters are `u8`, an interned control sequence name is its position in the interner (the
-- `NonZeroU32` minus one), and a primitive is the `u16` of its identifier.
use rus_te_x.Prelude.{ℕ, Bool, true, false, Option, List, ◌==◌, ◌≡◌, refl, arith}
use mathlib.Core.Bool.{false≢true}
use rus_te_x.Tex.Catcodes.{CategoryCode}
use rus_te_x.Tex.Numbers.{ℤ, Skip, MuSkip}

-- What the engine is generic in (`EngineTypes`), as far as the state stores it without looking at it.
pub record EngineTypes : Type 1 where
  pub Font : Type 0
  pub Box : Type 0
  pub Command : Type 0
  -- `PRIMITIVES.globaldefs`
  pub globaldefs : ℕ

pub data GroupType : Type 0 where
  simple hbox vadjust vbox vtop align noalign output : GroupType
  math disc insert vcenter math_choice semi_simple left_right : GroupType
  math_shift : Bool → GroupType

-- `GroupType::to_byte`
unfoldable pub to_byte : GroupType → ℕ
to_byte simple = 1
to_byte hbox = 2
to_byte vadjust = 3
to_byte vbox = 4
to_byte vtop = 5
to_byte align = 6
to_byte noalign = 7
to_byte output = 8
to_byte math = 9
to_byte disc = 10
to_byte insert = 11
to_byte vcenter = 12
to_byte math_choice = 13
to_byte semi_simple = 14
to_byte (math_shift display) = 15
to_byte left_right = 16

-- `TokenList`, of compact tokens
abbrev pub TokenList : Type 0
TokenList = List ℕ

abbrev pub ParShape : Type 0
ParShape = List (ℤ × ℤ)

-- `StateChange`: the place that was written and its old value.
pub data StateChange (E : EngineTypes) : Type 0 where
  catcode : ℕ → CategoryCode → StateChange E
  sf_code : ℕ → ℕ → StateChange E
  del_code : ℕ → ℤ → StateChange E
  lc_code : ℕ → ℕ → StateChange E
  uc_code : ℕ → ℕ → StateChange E
  math_code : ℕ → ℕ → StateChange E
  par_shape : ParShape → StateChange E
  current_font : E.Font → StateChange E
  text_font : ℕ → E.Font → StateChange E
  script_font : ℕ → E.Font → StateChange E
  script_script_font : ℕ → E.Font → StateChange E
  endline_char : Option ℕ → StateChange E
  escape_char : Option ℕ → StateChange E
  newline_char : Option ℕ → StateChange E
  int_register : ℕ → ℤ → StateChange E
  dim_register : ℕ → ℤ → StateChange E
  skip_register : ℕ → Skip → StateChange E
  muskip_register : ℕ → MuSkip → StateChange E
  box_register : ℕ → Option E.Box → StateChange E
  toks_register : ℕ → TokenList → StateChange E
  primitive_int : ℕ → ℤ → StateChange E
  primitive_dim : ℕ → ℤ → StateChange E
  primitive_toks : ℕ → TokenList → StateChange E
  primitive_skip : ℕ → Skip → StateChange E
  primitive_muskip : ℕ → MuSkip → StateChange E
  command : ℕ → Option E.Command → StateChange E
  ac_command : ℕ → Option E.Command → StateChange E

-- The `id` of a change: the discriminant of its variant, and the number that `From<StateChange>`
-- computes (0 for the variants with no index here).
pub data Slot : Type 0 where
  catcode : ℕ → Slot
  sf_code : ℕ → Slot
  del_code : ℕ → Slot
  lc_code : ℕ → Slot
  uc_code : ℕ → Slot
  math_code : ℕ → Slot
  par_shape : Slot
  current_font : Slot
  text_font : ℕ → Slot
  script_font : ℕ → Slot
  script_script_font : ℕ → Slot
  endline_char : Slot
  escape_char : Slot
  newline_char : Slot
  int_register : ℕ → Slot
  dim_register : ℕ → Slot
  skip_register : ℕ → Slot
  muskip_register : ℕ → Slot
  box_register : ℕ → Slot
  toks_register : ℕ → Slot
  primitive_int : ℕ → Slot
  primitive_dim : ℕ → Slot
  primitive_toks : ℕ → Slot
  primitive_skip : ℕ → Slot
  primitive_muskip : ℕ → Slot
  command : ℕ → Slot
  ac_command : ℕ → Slot

-- `StateChangeI::from`
unfoldable pub id_of : {E : EngineTypes} → StateChange E → Slot
id_of (StateChange.catcode i old) = Slot.catcode i
id_of (StateChange.sf_code i old) = Slot.sf_code i
id_of (StateChange.del_code i old) = Slot.del_code i
id_of (StateChange.lc_code i old) = Slot.lc_code i
id_of (StateChange.uc_code i old) = Slot.uc_code i
id_of (StateChange.math_code i old) = Slot.math_code i
id_of (StateChange.par_shape old) = Slot.par_shape
id_of (StateChange.current_font old) = Slot.current_font
id_of (StateChange.text_font i old) = Slot.text_font i
id_of (StateChange.script_font i old) = Slot.script_font i
id_of (StateChange.script_script_font i old) = Slot.script_script_font i
id_of (StateChange.endline_char old) = Slot.endline_char
id_of (StateChange.escape_char old) = Slot.escape_char
id_of (StateChange.newline_char old) = Slot.newline_char
id_of (StateChange.int_register i old) = Slot.int_register i
id_of (StateChange.dim_register i old) = Slot.dim_register i
id_of (StateChange.skip_register i old) = Slot.skip_register i
id_of (StateChange.muskip_register i old) = Slot.muskip_register i
id_of (StateChange.box_register i old) = Slot.box_register i
id_of (StateChange.toks_register i old) = Slot.toks_register i
id_of (StateChange.primitive_int i old) = Slot.primitive_int i
id_of (StateChange.primitive_dim i old) = Slot.primitive_dim i
id_of (StateChange.primitive_toks i old) = Slot.primitive_toks i
id_of (StateChange.primitive_skip i old) = Slot.primitive_skip i
id_of (StateChange.primitive_muskip i old) = Slot.primitive_muskip i
id_of (StateChange.command i old) = Slot.command i
id_of (StateChange.ac_command i old) = Slot.ac_command i

-- `self.id == other.id`
unfoldable pub same : Slot → Slot → Bool
same (Slot.catcode i) (Slot.catcode j) = i == j
same (Slot.sf_code i) (Slot.sf_code j) = i == j
same (Slot.del_code i) (Slot.del_code j) = i == j
same (Slot.lc_code i) (Slot.lc_code j) = i == j
same (Slot.uc_code i) (Slot.uc_code j) = i == j
same (Slot.math_code i) (Slot.math_code j) = i == j
same Slot.par_shape Slot.par_shape = true
same Slot.current_font Slot.current_font = true
same (Slot.text_font i) (Slot.text_font j) = i == j
same (Slot.script_font i) (Slot.script_font j) = i == j
same (Slot.script_script_font i) (Slot.script_script_font j) = i == j
same Slot.endline_char Slot.endline_char = true
same Slot.escape_char Slot.escape_char = true
same Slot.newline_char Slot.newline_char = true
same (Slot.int_register i) (Slot.int_register j) = i == j
same (Slot.dim_register i) (Slot.dim_register j) = i == j
same (Slot.skip_register i) (Slot.skip_register j) = i == j
same (Slot.muskip_register i) (Slot.muskip_register j) = i == j
same (Slot.box_register i) (Slot.box_register j) = i == j
same (Slot.toks_register i) (Slot.toks_register j) = i == j
same (Slot.primitive_int i) (Slot.primitive_int j) = i == j
same (Slot.primitive_dim i) (Slot.primitive_dim j) = i == j
same (Slot.primitive_toks i) (Slot.primitive_toks j) = i == j
same (Slot.primitive_skip i) (Slot.primitive_skip j) = i == j
same (Slot.primitive_muskip i) (Slot.primitive_muskip j) = i == j
same (Slot.command i) (Slot.command j) = i == j
same (Slot.ac_command i) (Slot.ac_command j) = i == j
same _ _ = false

pub same_refl : (k : Slot) → same k k ≡ true
unfolding same
same_refl (Slot.catcode i) = ground arith
same_refl (Slot.sf_code i) = ground arith
same_refl (Slot.del_code i) = ground arith
same_refl (Slot.lc_code i) = ground arith
same_refl (Slot.uc_code i) = ground arith
same_refl (Slot.math_code i) = ground arith
same_refl Slot.par_shape = refl
same_refl Slot.current_font = refl
same_refl (Slot.text_font i) = ground arith
same_refl (Slot.script_font i) = ground arith
same_refl (Slot.script_script_font i) = ground arith
same_refl Slot.endline_char = refl
same_refl Slot.escape_char = refl
same_refl Slot.newline_char = refl
same_refl (Slot.int_register i) = ground arith
same_refl (Slot.dim_register i) = ground arith
same_refl (Slot.skip_register i) = ground arith
same_refl (Slot.muskip_register i) = ground arith
same_refl (Slot.box_register i) = ground arith
same_refl (Slot.toks_register i) = ground arith
same_refl (Slot.primitive_int i) = ground arith
same_refl (Slot.primitive_dim i) = ground arith
same_refl (Slot.primitive_toks i) = ground arith
same_refl (Slot.primitive_skip i) = ground arith
same_refl (Slot.primitive_muskip i) = ground arith
same_refl (Slot.command i) = ground arith
same_refl (Slot.ac_command i) = ground arith

-- The number and the variant together tell every two places apart.
pub eq_of_same : (j k : Slot) → same j k ≡ true → j ≡ k
unfolding same
eq_of_same (Slot.catcode i) (Slot.catcode j) h = ground arith
eq_of_same (Slot.sf_code i) (Slot.sf_code j) h = ground arith
eq_of_same (Slot.del_code i) (Slot.del_code j) h = ground arith
eq_of_same (Slot.lc_code i) (Slot.lc_code j) h = ground arith
eq_of_same (Slot.uc_code i) (Slot.uc_code j) h = ground arith
eq_of_same (Slot.math_code i) (Slot.math_code j) h = ground arith
eq_of_same Slot.par_shape Slot.par_shape h = refl
eq_of_same Slot.current_font Slot.current_font h = refl
eq_of_same (Slot.text_font i) (Slot.text_font j) h = ground arith
eq_of_same (Slot.script_font i) (Slot.script_font j) h = ground arith
eq_of_same (Slot.script_script_font i) (Slot.script_script_font j) h = ground arith
eq_of_same Slot.endline_char Slot.endline_char h = refl
eq_of_same Slot.escape_char Slot.escape_char h = refl
eq_of_same Slot.newline_char Slot.newline_char h = refl
eq_of_same (Slot.int_register i) (Slot.int_register j) h = ground arith
eq_of_same (Slot.dim_register i) (Slot.dim_register j) h = ground arith
eq_of_same (Slot.skip_register i) (Slot.skip_register j) h = ground arith
eq_of_same (Slot.muskip_register i) (Slot.muskip_register j) h = ground arith
eq_of_same (Slot.box_register i) (Slot.box_register j) h = ground arith
eq_of_same (Slot.toks_register i) (Slot.toks_register j) h = ground arith
eq_of_same (Slot.primitive_int i) (Slot.primitive_int j) h = ground arith
eq_of_same (Slot.primitive_dim i) (Slot.primitive_dim j) h = ground arith
eq_of_same (Slot.primitive_toks i) (Slot.primitive_toks j) h = ground arith
eq_of_same (Slot.primitive_skip i) (Slot.primitive_skip j) h = ground arith
eq_of_same (Slot.primitive_muskip i) (Slot.primitive_muskip j) h = ground arith
eq_of_same (Slot.command i) (Slot.command j) h = ground arith
eq_of_same (Slot.ac_command i) (Slot.ac_command j) h = ground arith
eq_of_same _ _ h = absurd (false≢true h)
