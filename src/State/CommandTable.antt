-- ===== src/State/CommandTable.antt =====
-- tex/tokens/control_sequences.rs: `CSNameVec`, the table of definitions of interned control sequence
-- names. A name is its position, so the table is a vector that grows.
use rus_te_x.Prelude.{
  ℕ, ◌≡◌, Option, none, some, List, arith, leb, ◌==◌, if◌then◌else◌, length, get_or, set,
}
use rus_te_x.State.Registers.{
  resize_for, length-resize_for, get_or-resize_for, get_or-set, get_or_beyond,
}

-- `CSNameVec::insert` and `CSNameVec::remove`: the new table and the old entry
module _ {A : Type 0} where
  unfoldable pub insert : ℕ → A → List (Option A) → List (Option A) × Option A
  insert idx a v = let v' = resize_for idx none v in (set v' idx (some a), get_or v' idx none)

  unfoldable pub remove : ℕ → List (Option A) → List (Option A) × Option A
  remove idx v = if leb (length v) idx then (v, none) else (set v idx none, get_or v idx none)

  -- the new table and the old entry in `set_command`
  unfoldable pub replace_command : ℕ → Option A → List (Option A) → List (Option A) × Option A
  unfolding insert remove
  replace_command name none v = remove name v
  replace_command name (some cmd) v = insert name cmd v

  pub get_or-replace_command :
      (i j : ℕ) (o : Option A) (v : List (Option A))
      → get_or (replace_command i o v).0 j none ≡ (if i == j then o else get_or v j none)
  unfolding replace_command
  get_or-replace_command i j none v =
      ground (arith, get_or-set v i j none none, get_or_beyond v j none)
  get_or-replace_command i j (some a) v = ground (
    arith,
    get_or-set (resize_for i none v) i j (some a) none (length-resize_for i none v),
    get_or-resize_for i none v j,
  )

  pub old-replace_command :
      (i : ℕ) (o : Option A) (v : List (Option A)) → (replace_command i o v).1 ≡ get_or v i none
  unfolding replace_command
  old-replace_command i none v = ground (arith, get_or_beyond v i none)
  old-replace_command i (some a) v = get_or-resize_for i none v i
