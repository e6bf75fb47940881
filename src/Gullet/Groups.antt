-- ===== src/Gullet/Groups.antt =====
-- engine/mouth.rs and engine/gullet.rs: `read_until_endgroup`, outside alignments.
use rus_te_x.Prelude.{ℕ, zero, suc, Bool, true, false, List, [], ◌∷◌, if◌then◌else◌, ◌==◌, ◌&&◌}
use rus_te_x.Tex.Catcodes.{CommandCode}
use rus_te_x.Tex.Tokens.{Token, control_sequence, character, primitive}
use rus_te_x.Gullet.Result.{TeXError, Result, ok, panic, ◌>>=◌}
use rus_te_x.Gullet.Source.{Mouth, need_iterate}

-- what the functions that collect tokens tell apart
pub data Kind : Type 0 where
  begins ends blank noexpand paragraph plain : Kind

-- equality of names
abbrev pub same_name : List ℕ → List ℕ → Bool
same_name [] [] = true
same_name (x ∷ xs) (y ∷ ys) = x == y && same_name xs ys
same_name _ _ = false

-- `is_cs(&par)`
unfoldable pub name_kind : List ℕ → Kind
name_kind name = if same_name name (b'p' ∷ b'a' ∷ b'r' ∷ []) then paragraph else plain

-- `no_expand` is the number of the primitive \noexpand.
module _ (no_expand : ℕ) where
  unfoldable pub kind : Token → Kind
  unfolding name_kind
  kind (control_sequence name) = name_kind name
  kind (character c CommandCode.begin_group) = begins
  kind (character c CommandCode.end_group) = ends
  kind (character c CommandCode.space) = blank
  kind (character c code) = plain
  kind (primitive id) = if id == no_expand then noexpand else plain

module _ (no_expand : ℕ) (M : Mouth) {A : Type 0} (cont : Token → A → Result A) where
  -- the closure in `read_until_endgroup`, on the token, its kind and `ingroups`
  unfoldable pub until_at :
      (ℕ → A → M.State → Result (Token × A × M.State))
      → Kind
      → ℕ
      → Token
      → A
      → M.State
      → Result (Token × A × M.State)
  until_at rec begins n t a s = do a' ← cont t a; rec (suc n) a' s
  until_at rec ends zero t a s = ok (t, a, s)
  until_at rec ends (suc n) t a s = do a' ← cont t a; rec n a' s
  until_at rec noexpand n t a s = rec n a s
  until_at rec k n t a s = do a' ← cont t a; rec n a' s

  unfoldable pub until_loop : ℕ → ℕ → A → M.State → Result (Token × A × M.State)
  unfolding until_at need_iterate
  until_loop zero n a s = panic
  until_loop (suc fuel) n a s = do
    (t, s') ← need_iterate M TeXError.file_ended_while_scanning_use_of s
    until_at (until_loop fuel) (kind no_expand t) n t a s'

  unfoldable pub read_until_endgroup : ℕ → A → M.State → Result (Token × A × M.State)
  unfolding until_loop
  read_until_endgroup fuel a s = until_loop fuel 0 a s
