-- ===== src/Gullet/Definitions.antt =====
-- The text that defines a macro, for `MacroParser` of commands/methods.rs.
use rus_te_x.Prelude.{
  ℕ, suc, ◌+◌, ◌<◌, Bool, false, Option, none, some, List, [], ◌∷◌, ◌++◌, ◌≡◌, refl, length, get_or,
}
use rus_te_x.Tex.Catcodes.{CommandCode}
use rus_te_x.Tex.Tokens
use rus_te_x.Tex.Tokens.{Token, is_argument_marker, control_sequence, character, primitive}
use rus_te_x.Gullet.Result.{ok}
use rus_te_x.Gullet.Parser.{MacroParser, Macro, argument_marker, signature_at, expansion_at}

abbrev pub digit : ℕ → Token
digit n = character (49 + n) CommandCode.other

-- codes that stand for themselves in a body
abbrev pub IsBodyCode : CommandCode → Type 0
IsBodyCode CommandCode.parameter = ⊥
IsBodyCode code = Unit {0}

-- codes that stand for themselves in a signature
abbrev pub IsSignatureCode : CommandCode → Type 0
IsSignatureCode CommandCode.parameter = ⊥
IsSignatureCode CommandCode.begin_group = ⊥
IsSignatureCode code = Unit {0}

pub signature_code :
    (code : CommandCode) (t : Token) (p : MacroParser)
    → IsSignatureCode code
    → signature_at false code t p ≡ ok (false, record p { params = p.params ++ t ∷ [] })
unfolding signature_at
signature_code CommandCode.escape t p h = refl
signature_code CommandCode.begin_group t p h = elim h [ ]
signature_code CommandCode.end_group t p h = refl
signature_code CommandCode.math_shift t p h = refl
signature_code CommandCode.alignment_tab t p h = refl
signature_code CommandCode.eof t p h = refl
signature_code CommandCode.parameter t p h = elim h [ ]
signature_code CommandCode.superscript t p h = refl
signature_code CommandCode.subscript t p h = refl
signature_code CommandCode.primitive t p h = refl
signature_code CommandCode.space t p h = refl
signature_code CommandCode.letter t p h = refl
signature_code CommandCode.other t p h = refl
signature_code CommandCode.active t p h = refl
signature_code CommandCode.argument t p h = refl

pub body_code :
    (code : CommandCode) (t : Token) (p : MacroParser)
    → IsBodyCode code
    → expansion_at false code t p ≡ ok (record p { exp = p.exp ++ t ∷ [] })
unfolding expansion_at
body_code CommandCode.escape t p h = refl
body_code CommandCode.begin_group t p h = refl
body_code CommandCode.end_group t p h = refl
body_code CommandCode.math_shift t p h = refl
body_code CommandCode.alignment_tab t p h = refl
body_code CommandCode.eof t p h = refl
body_code CommandCode.parameter t p h = elim h [ ]
body_code CommandCode.superscript t p h = refl
body_code CommandCode.subscript t p h = refl
body_code CommandCode.primitive t p h = refl
body_code CommandCode.space t p h = refl
body_code CommandCode.letter t p h = refl
body_code CommandCode.other t p h = refl
body_code CommandCode.active t p h = refl
body_code CommandCode.argument t p h = refl

abbrev pub ArePlain : List Token → Type 0
ArePlain [] = Unit {0}
ArePlain (t ∷ ts) = IsSignatureCode (Tokens.command_code t) × ArePlain ts

-- Parameters from number `n` on, `#` and a digit, each before its delimiter.
abbrev pub signature_text : Token → ℕ → List (List Token) → List Token
signature_text hash n [] = []
signature_text hash n (ds ∷ dss) = hash ∷ digit n ∷ (ds ++ signature_text hash (suc n) dss)

abbrev pub signature_params : ℕ → List (List Token) → List Token
signature_params n [] = []
signature_params n (ds ∷ dss) = argument_marker n ∷ (ds ++ signature_params (suc n) dss)

abbrev pub AllPlain : List (List Token) → Type 0
AllPlain [] = Unit {0}
AllPlain (ds ∷ dss) = ArePlain ds × AllPlain dss

pub data BodyItem : Type 0 where
  body_token : Token → BodyItem
  -- `#` and the digit of a parameter
  body_parameter : Token → ℕ → BodyItem
  -- `##`: the second one stands for itself
  body_hash : Token → Token → BodyItem

abbrev pub item_text : BodyItem → List Token
item_text (body_token t) = t ∷ []
item_text (body_parameter hash i) = hash ∷ digit i ∷ []
item_text (body_hash hash t) = hash ∷ t ∷ []

abbrev pub item_token : BodyItem → Token
item_token (body_token t) = t
item_token (body_parameter hash i) = argument_marker i
item_token (body_hash hash t) = t

abbrev pub IsItem : ℕ → BodyItem → Type 0
IsItem n (body_token t) = IsBodyCode (Tokens.command_code t) × (is_argument_marker t ≡ none)
IsItem n (body_parameter hash i) = (Tokens.command_code hash ≡ CommandCode.parameter) × (i < n)
IsItem n (body_hash hash t) =
    (Tokens.command_code hash ≡ CommandCode.parameter)
    × (Tokens.command_code t ≡ CommandCode.parameter)

abbrev pub AreItems : ℕ → List BodyItem → Type 0
AreItems n [] = Unit {0}
AreItems n (b ∷ bs) = IsItem n b × AreItems n bs

abbrev pub body_text : List BodyItem → List Token
body_text [] = []
body_text (b ∷ bs) = item_text b ++ body_text bs

-- the body in the macro
abbrev pub body_tokens : List BodyItem → List Token
body_tokens [] = []
body_tokens (b ∷ bs) = item_token b ∷ body_tokens bs

-- the body with the arguments filled in
abbrev pub item_result : List (List Token) → BodyItem → List Token
item_result args (body_token t) = t ∷ []
item_result args (body_parameter hash i) = get_or args i []
item_result args (body_hash hash t) = t ∷ []

abbrev pub body_result : List (List Token) → List BodyItem → List Token
body_result args [] = []
body_result args (b ∷ bs) = item_result args b ++ body_result args bs

-- the brace in front of the body, or `#` and the brace
pub data Ending : Type 0 where
  brace : Token → Ending
  hash_brace : Token → Token → Ending

abbrev pub ending_text : Ending → List Token
ending_text (brace t) = t ∷ []
ending_text (hash_brace hash t) = hash ∷ t ∷ []

-- what the ending adds to the parameters, and to the end of the body
abbrev pub ending_params : Ending → List Token
ending_params (brace t) = []
ending_params (hash_brace hash t) = t ∷ []

abbrev pub ending_brace : Ending → Option Token
ending_brace (brace t) = none
ending_brace (hash_brace hash t) = some t

abbrev pub IsEnding : Ending → Type 0
IsEnding (brace t) = Tokens.command_code t ≡ CommandCode.begin_group
IsEnding (hash_brace hash t) =
    (Tokens.command_code hash ≡ CommandCode.parameter)
    × (Tokens.command_code t ≡ CommandCode.begin_group)

-- the macro that a definition makes
abbrev pub defined :
    Bool → Bool → Bool → List Token → List (List Token) → Ending → List BodyItem → Macro
defined long outer protected ls dss e bs = record {
  protected = protected;
  long = long;
  outer = outer;
  expansion = body_tokens bs ++ ending_params e;
  arity = length dss;
  params = (ls ++ signature_params 0 dss) ++ ending_params e;
}

-- the text of a definition behind the name
abbrev pub definition_text :
    Token → List Token → List (List Token) → Ending → List BodyItem → List Token → List Token
definition_text hash ls dss e bs rest =
    ls ++ (signature_text hash 0 dss ++ (ending_text e ++ (body_text bs ++ rest)))
