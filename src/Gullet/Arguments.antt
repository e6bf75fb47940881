-- ===== src/Gullet/Arguments.antt =====
-- engine/gullet/methods.rs: `read_arguments`, `read_argument` and `read_delimited_argument`, outside
-- alignments. `long` is whether the macro is \long.
use rus_te_x.Prelude.{
  ℕ, zero, suc, ◌-◌, Bool, true, false, ◌&&◌, Option, none, some, List, [], ◌∷◌, ◌++◌, ltb, leb,
  ◌==◌, if◌then◌else◌, length, set, take, drop,
}
use rus_te_x.Tex.Tokens.{
  Token, control_sequence, character, primitive, is_argument_marker, is_space, same_code,
}
use rus_te_x.Gullet.Result.{TeXError, Result, ok, err, panic, ◌>>=◌}
use rus_te_x.Gullet.Source.{Mouth, need_next}
use rus_te_x.Gullet.Groups.{
  Kind, begins, blank, noexpand, paragraph, kind, same_name, read_until_endgroup,
}

-- `PartialEq` of `StandardToken`
unfoldable pub same_token : Token → Token → Bool
same_token (control_sequence a) (control_sequence b) = same_name a b
same_token (character a1 a2) (character b1 b2) =
    if is_space a2 && is_space b2 then true else a1 == b1 && same_code a2 b2
same_token (primitive a) (primitive b) = a == b
same_token _ _ = false

unfoldable pub same_tokens : List Token → List Token → Bool
unfolding same_token
same_tokens [] [] = true
same_tokens (x ∷ xs) (y ∷ ys) = same_token x y && same_tokens xs ys
same_tokens _ _ = false

unfoldable pub ends_with : List Token → List Token → Bool
unfolding same_tokens
ends_with arg delim =
    leb (length delim) (length arg) && same_tokens (drop (length arg - length delim) arg) delim

-- `delim.last().unwrap()`
unfoldable pub last_of : Token → List Token → Token
last_of t [] = t
last_of t (u ∷ us) = last_of u us

-- `arg.pop(); arg.drain(..1)`
abbrev pub without_ends : List Token → List Token
without_ends [] = []
without_ends (t ∷ ts) = take (length ts - 1) ts

abbrev pub is_begin_group : Kind → Bool
is_begin_group begins = true
is_begin_group _ = false

-- Where the argument so far is one group, this is its length, once the group has been read.
unfoldable pub opened : List Token → Option (Option ℕ) → Option (Option ℕ)
opened [] rb = some none
opened (t ∷ ts) rb = rb

unfoldable pub noted : List Token → Option (Option ℕ) → Option (Option ℕ)
noted arg (some none) = some (some (length arg))
noted arg rb = rb

-- the end of `read_delimited_argument`
unfoldable pub braces_removed : Option (Option ℕ) → List Token → List Token
braces_removed (some (some n)) arg = if length arg == n then without_ends arg else arg
braces_removed _ arg = arg

-- the closure that collects an argument
unfoldable pub collected : Bool → Kind → Token → List Token → Result (List Token)
collected false paragraph t arg = err TeXError.paragraph_ended
collected long k t arg = ok (arg ++ t ∷ [])

module _ (no_expand : ℕ) (M : Mouth) (long : Bool) where
  unfoldable pub collect : Token → List Token → Result (List Token)
  unfolding collected
  collect t arg = collected long (kind no_expand t) t arg

  unfoldable pub group_into : ℕ → List Token → M.State → Result (Token × List Token × M.State)
  unfolding read_until_endgroup collect
  group_into fuel arg s = read_until_endgroup no_expand M collect fuel arg s

  unfoldable pub argument_at :
      (List Token → M.State → Result (List Token × M.State))
      → ℕ
      → Kind
      → Token
      → List Token
      → M.State
      → Result (List Token × M.State)
  unfolding group_into
  argument_at rec fuel noexpand t arg s = rec arg s
  argument_at rec fuel blank t arg s = rec arg s
  argument_at rec fuel begins t arg s = do (r, arg', s') ← group_into fuel arg s; ok (arg', s')
  argument_at rec fuel k t arg s = ok (arg ++ t ∷ [], s)

  unfoldable pub read_argument : ℕ → List Token → M.State → Result (List Token × M.State)
  unfolding argument_at need_next
  read_argument zero arg s = panic
  read_argument (suc fuel) arg s = do
    (t, s') ← need_next M s
    argument_at (read_argument fuel) fuel (kind no_expand t) t arg s'

  module _ (delim : List Token) (last : Token) where
    -- after the `match` on the command code: the comparison with the last token of the delimiter
    unfoldable pub compared :
        (Option (Option ℕ) → List Token → M.State → Result (List Token × M.State))
        → Option (Option ℕ)
        → Token
        → List Token
        → M.State
        → Result (List Token × M.State)
    compared rec rb t arg s =
        let arg' = arg ++ t ∷ [] in
        if same_token t last && ends_with arg' delim
        then ok (braces_removed rb (take (length arg' - length delim) arg'), s)
        else rec rb arg' s

    unfoldable pub delimited_at :
        (Option (Option ℕ) → List Token → M.State → Result (List Token × M.State))
        → ℕ
        → Bool
        → Kind
        → Option (Option ℕ)
        → Token
        → List Token
        → M.State
        → Result (List Token × M.State)
    unfolding compared group_into opened noted
    delimited_at rec fuel b noexpand rb t arg s = rec rb arg s
    delimited_at rec fuel false begins rb t arg s = do
      (r, arg', s') ← group_into fuel (arg ++ t ∷ []) s
      rec (noted (arg' ++ r ∷ []) (opened arg rb)) (arg' ++ r ∷ []) s'
    delimited_at rec fuel b paragraph rb t arg s = do arg' ← collect t arg; compared rec rb t arg s
    delimited_at rec fuel b k rb t arg s = compared rec rb t arg s

    unfoldable pub delimited_loop :
        ℕ → Option (Option ℕ) → List Token → M.State → Result (List Token × M.State)
    unfolding delimited_at need_next
    delimited_loop zero rb arg s = panic
    delimited_loop (suc fuel) rb arg s = do
      (t, s') ← need_next M s
      delimited_at (delimited_loop fuel) fuel (is_begin_group (kind no_expand last))
          (kind no_expand t) rb t arg s'

  -- The delimiter is `d` and then `ds`.
  unfoldable pub read_delimited_argument :
      ℕ → Token → List Token → List Token → M.State → Result (List Token × M.State)
  unfolding delimited_loop last_of
  read_delimited_argument fuel d ds arg s = delimited_loop (d ∷ ds) (last_of d ds) fuel none arg s

  -- `args[a as usize]`
  unfoldable pub with_arg :
      ℕ → List (List Token) → Result (List Token × M.State) → Result (List (List Token) × M.State)
  with_arg a args m =
      if ltb a (length args) then (do (arg, s) ← m; ok (set args a arg, s)) else panic

-- the tokens up to the next parameter, and from it on
unfoldable pub marked :
    Option ℕ → Token → List Token → List Token × List Token → List Token × List Token
marked (some a) t ts r = ([], t ∷ ts)
marked none t ts (delim, rest) = (t ∷ delim, rest)

unfoldable pub until_marker : List Token → List Token × List Token
unfolding marked is_argument_marker
until_marker [] = ([], [])
until_marker (t ∷ ts) = marked (is_argument_marker t) t ts (until_marker ts)

module _ (no_expand : ℕ) (M : Mouth) (long : Bool) (fuel : ℕ) where
  -- what remains to be done with the parameters `inner[i..]`: `next` is the first of them
  unfoldable pub continued :
      (Token → List Token → List (List Token) → M.State → Result (List (List Token) × M.State))
      → List Token
      → List (List Token)
      → M.State
      → Result (List (List Token) × M.State)
  continued rec [] args s = ok (args, s)
  continued rec (n ∷ ns) args s = rec n ns args s

  -- `next` is the parameter `a`
  unfoldable pub marker_at :
      (Token → List Token → List (List Token) → M.State → Result (List (List Token) × M.State))
      → ℕ
      → List Token × List Token
      → List (List Token)
      → M.State
      → Result (List (List Token) × M.State)
  unfolding read_argument read_delimited_argument with_arg continued
  marker_at rec a ([], rest) args s = do
    (args', s') ← with_arg no_expand M long a args (read_argument no_expand M long fuel [] s)
    continued rec rest args' s'
  marker_at rec a (d ∷ ds, rest) args s = do
    (args', s') ←
        with_arg no_expand M long a args (read_delimited_argument no_expand M long fuel d ds [] s)
    continued rec rest args' s'

  -- `next` is no parameter
  unfoldable pub literal_at :
      (Token → List Token → List (List Token) → M.State → Result (List (List Token) × M.State))
      → Token
      → List Token
      → List (List Token)
      → M.State
      → Result (List (List Token) × M.State)
  unfolding need_next same_token continued
  literal_at rec next rest args s = do
    (o, s') ← need_next M s
    if same_token o next then continued rec rest args s' else err TeXError.wrong_definition

  unfoldable pub parameter_at :
      (Token → List Token → List (List Token) → M.State → Result (List (List Token) × M.State))
      → Option ℕ
      → Token
      → List Token
      → List (List Token)
      → M.State
      → Result (List (List Token) × M.State)
  unfolding marker_at literal_at until_marker
  parameter_at rec (some a) next rest args s = marker_at rec a (until_marker rest) args s
  parameter_at rec none next rest args s = literal_at rec next rest args s

  -- the loop; `ticks` counts the tokens of the signature
  unfoldable pub arguments_loop :
      ℕ → Token → List Token → List (List Token) → M.State → Result (List (List Token) × M.State)
  unfolding parameter_at is_argument_marker
  arguments_loop zero next rest args s = panic
  arguments_loop (suc ticks) next rest args s =
      parameter_at (arguments_loop ticks) (is_argument_marker next) next rest args s

  -- `inner[0]` of an empty signature is a panic.
  unfoldable pub read_arguments :
      List (List Token) → List Token → M.State → Result (List (List Token) × M.State)
  unfolding arguments_loop
  read_arguments args [] s = panic
  read_arguments args (p ∷ ps) s = arguments_loop (length (p ∷ ps)) p ps args s
