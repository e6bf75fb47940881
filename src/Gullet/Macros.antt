-- ===== src/Gullet/Macros.antt =====
-- engine/gullet.rs: `do_macro` of `DefaultGullet`; commands/tex.rs: the parameter text and the body of
-- `def`. The vectors for arguments that the mouth hands out are nine empty ones; tracing is left out.
use rus_te_x.Prelude.{ℕ, zero, suc, Bool, true, false, List, [], ◌∷◌, replicate}
use rus_te_x.Tex.Tokens.{Token}
use rus_te_x.Mouth.Inputs.{consume_rev}
use rus_te_x.Gullet.Result.{TeXError, Result, ok, panic, lift, ◌>>=◌}
use rus_te_x.Gullet.Source.{Mouth, need_iterate}
use rus_te_x.Gullet.Groups.{read_until_endgroup}
use rus_te_x.Gullet.Parser.{MacroParser, Macro, new, do_signature_token, do_expansion_token, close}
use rus_te_x.Gullet.Arguments.{read_arguments}

-- `get_args`
abbrev pub empty_args : List (List Token)
empty_args = replicate 9 []

module _ (M : Mouth) where
  -- the call of `iterate` in `def`: the signature, up to the brace behind it
  unfoldable pub signature_go :
      (MacroParser → M.State → Result (MacroParser × M.State))
      → Bool
      → MacroParser
      → M.State
      → Result (MacroParser × M.State)
  signature_go rec true p s = ok (p, s)
  signature_go rec false p s = rec p s

  unfoldable pub signature_loop : ℕ → MacroParser → M.State → Result (MacroParser × M.State)
  unfolding signature_go need_iterate do_signature_token
  signature_loop zero p s = panic
  signature_loop (suc fuel) p s = do
    (t, s') ← need_iterate M TeXError.general s
    (done, p') ← do_signature_token t p
    signature_go (signature_loop fuel) done p' s'

module _ (no_expand : ℕ) (M : Mouth) (fuel : ℕ) where
  -- `push_macro_exp`, or `push_exp` where there are no parameters to fill in
  unfoldable pub expanded : ℕ → List Token → List (List Token) × M.State → Result M.State
  unfolding consume_rev
  expanded zero expansion (args, s) = ok (M.push_exp expansion s)
  expanded (suc arity) expansion (args, s) = do
    ts ← lift (consume_rev expansion args [])
    ok (M.push_exp ts s)

  unfoldable pub with_params : List Token → Macro → M.State → Result M.State
  unfolding expanded read_arguments
  with_params [] m s = ok (M.push_exp m.expansion s)
  with_params (p ∷ ps) m s = do
    r ← read_arguments no_expand M m.long fuel empty_args (p ∷ ps) s
    expanded m.arity m.expansion r

  unfoldable pub do_macro : Macro → M.State → Result M.State
  unfolding with_params
  do_macro m s = with_params m.params m s

  -- what `def` reads behind the name, and the macro that it defines
  unfoldable pub read_macro : Bool → Bool → Bool → M.State → Result (Macro × M.State)
  unfolding new signature_loop read_until_endgroup do_expansion_token close
  read_macro long outer protected s = do
    (p, s1) ← signature_loop M fuel new s
    (t, p', s2) ← read_until_endgroup no_expand M do_expansion_token fuel p s1
    ok (close long outer protected p', s2)
