-- ===== src/Gullet/Parser.antt =====
-- commands/methods.rs: `MacroParser`, which builds a macro from the tokens of its definition.
use rus_te_x.Prelude.{
  ℕ, ◌+◌, ◌-◌, Bool, true, false, ◌&&◌, Option, none, some, List, [], ◌∷◌, ◌++◌, ltb, ◌==◌,
  if◌then◌else◌,
}
use rus_te_x.Tex.Catcodes.{CommandCode}
use rus_te_x.Tex.Tokens
use rus_te_x.Tex.Tokens.{Token, control_sequence, character, primitive}
use rus_te_x.Gullet.Result.{TeXError, Result, ok, err, panic}

pub record MacroParser : Type 0 where
  pub arity : ℕ
  pub params : List Token
  pub inparam : Bool
  pub ends_with_brace : Option Token
  pub exp : List Token

-- `MacroSignature` and the flags of `Macro`
pub record Macro : Type 0 where
  pub protected : Bool
  pub long : Bool
  pub outer : Bool
  pub expansion : List Token
  pub arity : ℕ
  pub params : List Token

unfoldable pub new : MacroParser
new = record { arity = 0; params = []; inparam = false; ends_with_brace = none; exp = [] }

-- `argument_marker`
abbrev pub argument_marker : ℕ → Token
argument_marker i = character i CommandCode.argument

-- `char_value`
unfoldable pub char_value : Token → Option ℕ
char_value (character c code) = some c
char_value _ = none

-- `Vector::push`
abbrev pub pushed : List Token → Token → List Token
pushed ts t = ts ++ t ∷ []

-- the digit of a parameter in the signature; `49 + self.arity` is a `u8`
unfoldable pub signature_digit : Option ℕ → MacroParser → Result (Bool × MacroParser)
signature_digit none p = err TeXError.general
signature_digit (some u) p =
    if ltb 48 u && ltb u 256
    then (if ltb (49 + p.arity) 256
        then (if u == 49 + p.arity
            then ok (
              false,
              record p {
                inparam = false;
                params = pushed p.params (argument_marker p.arity);
                arity = p.arity + 1;
              },
            )
            else err TeXError.general)
        else panic)
    else err TeXError.general

-- the arms of `do_signature_token`, on `inparam` and the command code
unfoldable pub signature_at : Bool → CommandCode → Token → MacroParser → Result (Bool × MacroParser)
unfolding signature_digit char_value
signature_at true CommandCode.begin_group t p =
    ok (true, record p { inparam = false; params = pushed p.params t; ends_with_brace = some t })
signature_at false CommandCode.begin_group t p = ok (true, p)
signature_at true CommandCode.parameter t p =
    ok (false, record p { inparam = false; params = pushed p.params t })
signature_at false CommandCode.parameter t p = ok (false, record p { inparam = true })
signature_at true code t p = signature_digit (char_value t) p
signature_at false code t p = ok (false, record p { params = pushed p.params t })

-- `true` where the signature has ended
unfoldable pub do_signature_token : Token → MacroParser → Result (Bool × MacroParser)
unfolding signature_at Tokens.command_code
do_signature_token t p = signature_at p.inparam (Tokens.command_code t) t p

unfoldable pub expansion_digit : Option ℕ → MacroParser → Result MacroParser
expansion_digit none p = err TeXError.general
expansion_digit (some u) p =
    if ltb 48 u && ltb (u - 49) p.arity
    then ok (record p { inparam = false; exp = pushed p.exp (argument_marker (u - 49)) })
    else err TeXError.general

unfoldable pub expansion_at : Bool → CommandCode → Token → MacroParser → Result MacroParser
unfolding expansion_digit char_value
expansion_at true CommandCode.parameter t p =
    ok (record p { inparam = false; exp = pushed p.exp t })
expansion_at false CommandCode.parameter t p = ok (record p { inparam = true })
expansion_at true code t p = expansion_digit (char_value t) p
expansion_at false code t p = ok (record p { exp = pushed p.exp t })

unfoldable pub do_expansion_token : Token → MacroParser → Result MacroParser
unfolding expansion_at Tokens.command_code
do_expansion_token t p = expansion_at p.inparam (Tokens.command_code t) t p

-- `self.exp.push(t)` for the brace that ends the signature
unfoldable pub closed : Option Token → List Token → List Token
closed none exp = exp
closed (some t) exp = pushed exp t

unfoldable pub close : Bool → Bool → Bool → MacroParser → Macro
unfolding closed
close long outer protected p = record {
  protected = protected;
  long = long;
  outer = outer;
  expansion = closed p.ends_with_brace p.exp;
  arity = p.arity;
  params = p.params;
}
