-- ===== src/Gullet/Conditionals.antt =====
-- commands.rs: `ActiveConditional`; engine/gullet.rs: `do_conditional`; engine/gullet/methods.rs:
-- `case_loop` and `false_loop`; commands/tex.rs: `else`, `or`, `fi` and `ifcase`. Tracing is left out. The
-- vector of conditionals is a list with the innermost one first.
use rus_te_x.Prelude.{
  ℕ, zero, suc, ◌+◌, ◌-◌, Bool, true, false, not, Option, some, List, [], ◌∷◌, length, drop, ltb,
  ◌==◌, if◌then◌else◌, set, get_elem?,
}
use rus_te_x.Tex.Numbers.{ℤ, pos, negsuc, is_zero}
use rus_te_x.Tex.Tokens.{Token, control_sequence}
use rus_te_x.Gullet.Result.{TeXError, Result, ok, err, panic, ◌>>=◌}
use rus_te_x.Gullet.Source.{Mouth, need_iterate}

-- Conditionals have the numbers of their primitives as names.
pub data ActiveConditional : Type 0 where
  unfinished : ℕ → ActiveConditional
  case_of : ℤ → ActiveConditional
  true_branch : ℕ → ActiveConditional
  else_branch : ℕ → ActiveConditional

-- what the loops tell apart in the meaning of a token
pub data Role : Type 0 where
  an_else a_fi an_or opens nothing : Role

-- `cond == curr_int`
abbrev pub is_number : ℤ → ℕ → Bool
is_number (pos n) m = n == m
is_number (negsuc n) m = false

-- the largest number of the type `Int`
abbrev pub largest : ℕ
largest = 2147483647

-- the next step of a loop: it has ended, or goes on
pub data Step (A : Type 0) : Type 0 where
  ended : List ActiveConditional → Step A
  goes_on : A → Step A

-- `\relax`
abbrev pub relax : Token
relax = control_sequence (b'r' ∷ b'e' ∷ b'l' ∷ b'a' ∷ b'x' ∷ [])

-- `ifcase` is the number of that primitive.
module _ (ifcase : ℕ) where
  -- `name`
  unfoldable pub name : ActiveConditional → ℕ
  name (case_of n) = ifcase
  name (true_branch n) = n
  name (unfinished n) = n
  name (else_branch n) = n

  -- the closure of `false_loop`, on `incond`; `skipelse` changes nothing
  unfoldable pub false_step : Bool → ℕ → List ActiveConditional → Role → ℕ → Result (Step ℕ)
  false_step true cond conds an_else zero = ok (ended (else_branch cond ∷ conds))
  false_step false cond conds an_else zero = ok (goes_on zero)
  false_step allowelse cond conds an_else (suc incond) = ok (goes_on (suc incond))
  false_step allowelse cond conds a_fi zero = ok (ended conds)
  false_step allowelse cond conds a_fi (suc incond) = ok (goes_on incond)
  false_step allowelse cond conds opens incond = ok (goes_on (suc incond))
  false_step allowelse cond conds an_or incond = ok (goes_on incond)
  false_step allowelse cond conds nothing incond = ok (goes_on incond)

  -- `curr_int + one`
  unfoldable pub counted : ℤ → List ActiveConditional → ℕ → Result (Step (ℕ × ℕ))
  counted cond conds curr =
      if curr == largest
      then panic
      else if is_number cond (suc curr)
      then ok (ended (case_of cond ∷ conds))
      else ok (goes_on (zero, suc curr))

  -- the closure of `case_loop`, on `incond` and `curr_int`
  unfoldable pub case_step : ℤ → List ActiveConditional → Role → ℕ × ℕ → Result (Step (ℕ × ℕ))
  unfolding counted
  case_step cond conds an_else (zero, curr) = ok (ended (else_branch ifcase ∷ conds))
  case_step cond conds an_else (suc incond, curr) = ok (goes_on (suc incond, curr))
  case_step cond conds a_fi (zero, curr) = ok (ended conds)
  case_step cond conds a_fi (suc incond, curr) = ok (goes_on (incond, curr))
  case_step cond conds an_or (zero, curr) = counted cond conds curr
  case_step cond conds an_or (suc incond, curr) = ok (goes_on (suc incond, curr))
  case_step cond conds opens (incond, curr) = ok (goes_on (suc incond, curr))
  case_step cond conds nothing (incond, curr) = ok (goes_on (incond, curr))

  -- `role` is what tokens mean: `is_cs_or_active`, `char_or_primitive` and the table of primitives. \else,
  -- \or and \fi are no conditionals there.
  module _ (role : Token → Role) (M : Mouth) where
    -- the call of `iterate` in both
    unfoldable pub step_go :
        {A : Type 0}
        → (A → M.State → Result (List ActiveConditional × M.State))
        → Step A
        → M.State
        → Result (List ActiveConditional × M.State)
    step_go rec (ended conds) s = ok (conds, s)
    step_go rec (goes_on a) s = rec a s

    unfoldable pub skip_loop :
        {A : Type 0}
        → (Role → A → Result (Step A))
        → ℕ
        → A
        → M.State
        → Result (List ActiveConditional × M.State)
    unfolding step_go need_iterate
    skip_loop f zero a s = panic
    skip_loop f (suc fuel) a s = do
      (t, s') ← need_iterate M TeXError.incomplete_conditional s
      st ← f (role t) a
      step_go (skip_loop f fuel) st s'

    -- the conditionals below those that `incond` counts
    unfoldable pub false_from :
        ℕ → Bool → ℕ → List ActiveConditional → M.State → Result (List ActiveConditional × M.State)
    unfolding skip_loop false_step name
    false_from fuel allowelse incond [] s = panic
    false_from fuel allowelse incond (c ∷ conds) s =
        skip_loop (false_step allowelse (name c) conds) fuel incond s

    -- `false_loop`; with `idx` beyond the number of conditionals, the subtraction panics
    unfoldable pub false_loop :
        ℕ → ℕ → Bool → List ActiveConditional → M.State → Result (List ActiveConditional × M.State)
    unfolding false_from
    false_loop fuel idx allowelse conds s =
        if ltb (length conds) idx
        then panic
        else false_from fuel allowelse (length conds - idx) (drop (length conds - idx) conds) s

    unfoldable pub case_from :
        ℕ → ℕ → List ActiveConditional → M.State → Result (List ActiveConditional × M.State)
    unfolding skip_loop case_step
    case_from fuel incond (case_of n ∷ conds) s = skip_loop (case_step n conds) fuel (incond, 0) s
    case_from fuel incond conds s = panic

    unfoldable pub case_loop :
        ℕ → ℕ → List ActiveConditional → M.State → Result (List ActiveConditional × M.State)
    unfolding case_from
    case_loop fuel idx conds s =
        if ltb (length conds) idx
        then panic
        else case_from fuel (length conds - idx) (drop (length conds - idx) conds) s

    -- `get_mut(index)`, counted from the outermost conditional
    abbrev position : ℕ → List ActiveConditional → ℕ
    position index conds = length conds - suc index

    abbrev now_true :
        ℕ → ℕ → List ActiveConditional → Option ActiveConditional → Result (List ActiveConditional)
    now_true index n conds (some (unfinished m)) =
        ok (set conds (position index conds) (true_branch n))
    now_true index n conds c = panic

    -- what `do_conditional` does with the outcome, on whether it is an \ifcase
    unfoldable pub decided :
        ℕ
        → ℕ
        → ℕ
        → Bool
        → Bool
        → List ActiveConditional
        → M.State
        → Result (List ActiveConditional × M.State)
    unfolding false_loop case_loop
    decided fuel index n true true conds s = ok (conds, s)
    decided fuel index n true false conds s =
        if ltb index (length conds)
        then (do
          conds' ← now_true index n conds (get_elem? conds (position index conds))
          ok (conds', s))
        else panic
    decided fuel index n false true conds s = case_loop fuel (index + 1) conds s
    decided fuel index n false false conds s = false_loop fuel (index + 1) true conds s

    -- `test` is the function of the primitive `n`.
    unfoldable pub do_conditional :
        ℕ
        → ℕ
        → (List ActiveConditional → M.State → Result (Bool × List ActiveConditional × M.State))
        → Bool
        → List ActiveConditional
        → M.State
        → Result (List ActiveConditional × M.State)
    unfolding decided
    do_conditional fuel n test unless conds s = do
      (b, conds', s') ← test (unfinished n ∷ conds) s
      decided fuel (length conds) n (if unless then not b else b) (n == ifcase) conds' s'

    -- `requeue(tk)`, then `requeue(relax)`
    abbrev put_off :
        Token → List ActiveConditional → M.State → Result (List ActiveConditional × M.State)
    put_off tk conds s = ok (conds, M.requeue relax (M.requeue tk s))

    -- `else`
    unfoldable pub do_else :
        ℕ → Token → List ActiveConditional → M.State → Result (List ActiveConditional × M.State)
    unfolding false_loop
    do_else fuel tk [] s = err TeXError.general
    do_else fuel tk (true_branch n ∷ conds) s =
        false_loop fuel (suc (length conds)) false (else_branch n ∷ conds) s
    do_else fuel tk (case_of n ∷ conds) s =
        false_loop fuel (suc (length conds)) false (case_of n ∷ conds) s
    do_else fuel tk (unfinished n ∷ conds) s = put_off tk (unfinished n ∷ conds) s
    do_else fuel tk (else_branch n ∷ conds) s = err TeXError.general

    -- `or`
    unfoldable pub do_or :
        ℕ → Token → List ActiveConditional → M.State → Result (List ActiveConditional × M.State)
    unfolding false_loop
    do_or fuel tk (case_of n ∷ conds) s =
        false_loop fuel (suc (length conds)) false (else_branch ifcase ∷ conds) s
    do_or fuel tk (unfinished n ∷ conds) s = put_off tk (unfinished n ∷ conds) s
    do_or fuel tk conds s = err TeXError.general

    -- `fi`
    unfoldable pub do_fi :
        Token → List ActiveConditional → M.State → Result (List ActiveConditional × M.State)
    do_fi tk [] s = err TeXError.general
    do_fi tk (true_branch n ∷ conds) s = ok (conds, s)
    do_fi tk (else_branch n ∷ conds) s = ok (conds, s)
    do_fi tk (case_of n ∷ conds) s = ok (conds, s)
    do_fi tk (unfinished n ∷ conds) s = put_off tk (unfinished n ∷ conds) s

    -- `ifcase`: `read` is `read_int`
    unfoldable pub do_ifcase :
        (List ActiveConditional → M.State → Result (ℤ × List ActiveConditional × M.State))
        → List ActiveConditional
        → M.State
        → Result (Bool × List ActiveConditional × M.State)
    do_ifcase read conds s = do
      (n, conds', s') ← read conds s
      if ltb (length conds - 1) (length conds')
          then ok (is_zero n, set conds' (position (length conds - 1) conds') (case_of n), s')
          else panic
